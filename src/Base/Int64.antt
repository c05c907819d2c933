-- ===== src/Base/Int64.antt =====
-- Go's int64 as its bit pattern, a number below 2^64: arithmetic wraps, order is signed.
use Prim.Native.Nat.{ℕ, ◌+◌, ◌-◌, ◌*◌, ◌/◌, ◌%◌, ◌^◌, ◌<◌}
use mathlib.Core.Path.{◌≡◌}
use mathlib.Core.Bool.{Bool}
use native.Mathlib.Omega.{arith}
use ci_cache.Base.Tests.{ltb, leb, if◌then◌else◌}

abbrev pub word : ℕ
word = 2 ^ 64

-- Patterns from here on are negative.
abbrev pub half_word : ℕ
half_word = 2 ^ 63

unfoldable pub add64 : ℕ → ℕ → ℕ
add64 a b = (a + b) % word

unfoldable pub sub64 : ℕ → ℕ → ℕ
sub64 a b = (a + word - b) % word

unfoldable pub mul64 : ℕ → ℕ → ℕ
mul64 a b = (a * b) % word

-- `a / b` for a positive `b`; Go rounds towards zero.
unfoldable pub quot64 : ℕ → ℕ → ℕ
quot64 a b = if ltb a half_word then a / b else (word - (word - a) / b) % word

-- `a < b` and `a <= b` on int64.
unfoldable pub slt : ℕ → ℕ → Bool
slt a b = ltb ((a + half_word) % word) ((b + half_word) % word)

unfoldable pub sle : ℕ → ℕ → Bool
sle a b = leb ((a + half_word) % word) ((b + half_word) % word)

pub slt_small : (a b : ℕ) → a < half_word → b < half_word → slt a b ≡ ltb a b
unfolding slt
slt_small a b ha hb = ground arith

pub sle_small : (a b : ℕ) → a < half_word → b < half_word → sle a b ≡ leb a b
unfolding sle
sle_small a b ha hb = ground arith
