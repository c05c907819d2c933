-- ===== src/Gc.antt =====
-- engine/gc/gc.go: the collector that keeps the disk tier inside its volume. An int is its 64-bit
-- pattern. What other goroutines do between two steps of a pass is not modelled: a pass runs on
-- the disk as it finds it.
pub mod Percent
pub mod Collect
pub mod Admit
pub mod Wired
mod Tests
use ci_cache.Base.{
  Bool, List, Option, Text, [], add64, codes, false, if◌then◌else◌, mul64, none, quot64, sle, slt,
  some, sub64, true, ℕ, ◌&&◌, ◌/◌, ◌==◌, ◌^◌, ◌||◌, ◌∷◌,
}
use ci_cache.Tier.{Error, no_space, sentinel, wrap}
use ci_cache.Disk.Volume.{Disk, disk_used_by, evict, used}

-- `config.GC`.
pub record Config : Type 0 where
  pub floor : ℕ
  pub high : ℕ
  pub low : ℕ
  pub budget_bytes : ℕ
  pub budgets : List (Text × ℕ)

pub record Gc : Type 0 where
  pub disk : Disk
  pub cfg : Config
  pub budget : ℕ
  pub evicted : ℕ
  pub runs : ℕ
  -- Whether a wake-up is pending: the channel has room for one.
  pub wake : Bool

abbrev pub default_floor : ℕ
default_floor = 10

abbrev pub default_high : ℕ
default_high = 95

abbrev pub default_low : ℕ
default_low = 85

abbrev pub fallback_budget : ℕ
fallback_budget = 2 ^ 60

-- `pct`.
unfoldable pub pct : ℕ → ℕ → ℕ
pct v percent =
    if slt (2 ^ 62 / 100) v then mul64 (quot64 v 100) percent else quot64 (mul64 v percent) 100

-- The methods `floor`, `high` and `low`: what is configured, or the default.
unfoldable pub floor_of : Config → ℕ
floor_of c =
    if slt c.floor 0 || slt 90 c.floor
    then default_floor
    else if c.floor == 0 && (c.high == 0 && c.low == 0)
    then default_floor
    else c.floor

unfoldable pub high_of : Config → ℕ
high_of c = if sle c.high 0 || (slt 100 c.high || sle c.high c.low) then default_high else c.high

unfoldable pub low_of : Config → ℕ
low_of c = if sle c.low 0 || (sle 100 c.low || sle (high_of c) c.low) then default_low else c.low

-- `refreshBudget`; `measured` is what statfs reports, or its failure.
unfoldable pub refresh_budget : Option ℕ → Gc → Gc
refresh_budget measured g =
    if slt 0 g.cfg.budget_bytes then record g { budget = g.cfg.budget_bytes } else elim measured [
      | none ↦ if sle g.budget 0 then record g { budget = fallback_budget } else g
      | some total ↦
          if sle total 0
          then (if sle g.budget 0 then record g { budget = fallback_budget } else g)
          else record g { budget = pct total (sub64 100 (floor_of g.cfg)) }
    ]

-- `New`, from the first measurement.
unfoldable pub init : Disk → Config → Option ℕ → Gc
init d cfg measured =
    refresh_budget measured
      (record { disk = d; cfg = cfg; budget = 0; evicted = 0; runs = 0; wake = false })

unfoldable pub notify : Gc → Gc
notify g = record g { wake = true }

-- The refusal of `Admit`; of its text only the wrapped error is modelled.
abbrev pub no_room : Error
no_room = wrap (codes "gc: no room") (sentinel no_space)

module _ (path_for : Text → Text) (stuck : Text → Bool) where
  -- `g.evicted.Add(g.disk.Evict(n))`, for one front-end or for all.
  unfoldable pub evict_more : (n : ℕ) → Text → Gc → Gc
  evict_more n frontend g =
      let (d, freed) = evict path_for stuck n frontend g.disk in
      record g { disk = d; evicted = add64 g.evicted freed }

  -- One round of `enforceSubBudgets`.
  unfoldable pub enforce_one : (budget : ℕ) → Text → (percent : ℕ) → Gc → Gc
  enforce_one budget frontend percent g =
      let limit = pct budget percent in
      let bytes = (disk_used_by frontend g.disk).bytes in
      if sle percent 0 || slt 100 percent
      then g
      else if slt limit bytes
      then evict_more (sub64 bytes limit) frontend g
      else g

  -- The rounds come in the order in which Go happens to range over the map.
  unfoldable pub enforce_sub_budgets : (budget : ℕ) → List (Text × ℕ) → Gc → Gc
  enforce_sub_budgets budget [] g = g
  enforce_sub_budgets budget ((frontend, percent) ∷ rest) g =
      enforce_sub_budgets budget rest (enforce_one budget frontend percent g)

  -- The second half of `collect`, with the bytes in use.
  unfoldable pub shrink : (headroom budget : ℕ) → Gc → Gc
  shrink headroom budget g =
      let in_use = used g.disk in
      let wanted = sub64 (pct budget (low_of g.cfg)) headroom in
      let target = if slt wanted 0 then 0 else wanted in
      if sle (add64 in_use headroom) (pct budget (high_of g.cfg))
      then g
      else if slt target in_use
      then evict_more (sub64 in_use target) [] g
      else g

  unfoldable pub collect : (headroom : ℕ) → Gc → Gc
  collect headroom g =
      let g' = record g { runs = add64 g.runs 1 } in
      if sle g.budget 0
      then g'
      else shrink headroom g.budget (enforce_sub_budgets g.budget g.cfg.budgets g')

  -- `Admit`.
  unfoldable pub admit : (size : ℕ) → Gc → Gc × Option Error
  admit size g =
      let g' = collect size g in
      if sle size 0
      then (g, none)
      else if slt g.budget size
      then (g, some no_room)
      else if sle (add64 (used g.disk) size) g.budget
      then (notify g, none)
      else if slt g.budget (add64 (used g'.disk) size)
      then (g', some no_room)
      else (g', none)
