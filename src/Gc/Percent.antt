-- ===== src/Gc/Percent.antt =====
-- Percentages and watermarks.
use native.Mathlib.Decide.{dec_le}
use ci_cache.Base.{
  ap, arith, half_word, mul64, quot64, sle, slt, slt_small, word, ℕ, ◌%◌, ◌*◌, ◌+◌, ◌/◌, ◌<◌, ◌^◌,
  ◌≡◌, ◌≤◌,
}
use ci_cache.Gc.{Config, floor_of, high_of, low_of, pct}

mul-le-mul_hundred : (v percent : ℕ) → percent ≤ 100 → v * percent ≤ v * 100
mul-le-mul_hundred v percent h = grind arith

pct_small : (v percent : ℕ) → v ≤ 2 ^ 62 / 100 → percent ≤ 100 → pct v percent ≡ v * percent / 100
unfolding pct mul64 quot64
pct_small v percent h k =
    let bound = mul-le-mul_hundred v percent k in
    let whole : v * percent % word ≡ v * percent = omega (arith, bound) in
    rw (slt_small (2 ^ 62 / 100) v (omega arith) (omega arith), whole) (ground (arith, bound))

pct_large :
    (v percent : ℕ)
    → 2 ^ 62 / 100 < v
    → v < half_word
    → percent ≤ 100
    → pct v percent ≡ v / 100 * percent
unfolding pct mul64 quot64
pct_large v percent h hv k =
    let bound = mul-le-mul_hundred (v / 100) percent k in
    rw (slt_small (2 ^ 62 / 100) v (omega arith) hv) (ground (arith, bound))

small_share :
    (x v percent : ℕ)
    → x ≤ v * 100
    → (x / 100 ≤ v) × (100 * (x / 100) ≤ x) × (x < 100 * (x / 100) + 100 * percent + 100)
small_share x v percent h = (omega arith, omega arith, omega arith)

large_share :
    (v percent : ℕ)
    → percent ≤ 100
    → (v / 100 * percent ≤ v)
      × (100 * (v / 100 * percent) ≤ v * percent)
      × (v * percent < 100 * (v / 100 * percent) + 100 * percent + 100)
large_share v percent k =
    let whole : v * percent ≡ (100 * (v / 100) + v % 100) * percent =
      ap (λ (t : ℕ). t * percent) (omega arith) in
    let rest : v % 100 * percent ≤ 100 * percent = grind arith in
    let share = mul-le-mul_hundred (v / 100) percent k in
    (omega (arith, share), omega (arith, whole), omega (arith, whole, rest))

-- A percentage up to 100 of an amount that is an int64 and not negative is at most the amount and at most the exact share, and short of the exact share by less than `percent` and one; nothing wraps around.
pub pct_bounds :
    (v percent : ℕ)
    → v < half_word
    → percent ≤ 100
    → (pct v percent ≤ v)
      × (100 * pct v percent ≤ v * percent)
      × (v * percent < 100 * pct v percent + 100 * percent + 100)
pct_bounds v percent hv k = elim (dec_le v (2 ^ 62 / 100)) [
  | yes small ↦
      rw (pct_small v percent small k)
        (small_share (v * percent) v percent (mul-le-mul_hundred v percent k))
  | no large ↦ rw (pct_large v percent (omega arith) hv k) (large_share v percent k)
]

-- The watermarks.
pub high_bounds : (c : Config) → c.high < word → (0 < high_of c) × (high_of c ≤ 100)
unfolding high_of slt sle
high_bounds c h = ground arith

pub low_bounds : (c : Config) → c.low < word → (0 < low_of c) × (low_of c < 100)
unfolding low_of sle
low_bounds c h = ground arith

pub floor_bounds : (c : Config) → c.floor < word → floor_of c ≤ 90
unfolding floor_of slt
floor_bounds c h = ground arith
