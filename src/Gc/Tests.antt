-- ===== src/Gc/Tests.antt =====
-- Runs of the collector, and its theorems at concrete inputs.
use ci_cache.Base.{
  Bool, List, Text, [], arith, codes, false, ltb, mul64, none, quot64, refl, sle, some, ◌+◌, ◌<◌,
  ◌∷◌, ◌≡◌, ◌≤◌,
}
use ci_cache.Disk.Index.{Entry}
use ci_cache.Disk.Index.Lru.{Fresh, Holds}
use ci_cache.Disk.Index.Sample.{go_a, go_b, program, two, two-Holds}
use ci_cache.Disk.Volume.{Disk, disk_used_by, evict, used}
use ci_cache.Gc.{
  Config, Gc, admit, collect, enforce_one, enforce_sub_budgets, evict_more, floor_of, high_of, init,
  low_of, no_room, notify, pct, refresh_budget, shrink,
}
use ci_cache.Tier.{Reader}
use ci_cache.Disk.Header.{encode_header, spaces}
use ci_cache.Disk.Store.{
  Faults, commit, encode_error, entry_of, first_of, first_segment, frontend_dir, put, write,
}
use ci_cache.Disk.Store.Sample.{json, name, object, same, write_json}
use ci_cache.Gc.Wired.{gc_host, put_within_budget}
use ci_cache.Gc.Collect.{IsSound}
use ci_cache.Gc.Admit.{admit_lem, watermarks_order}

abbrev config : Config
config = record {
  floor = 0;
  high = 0;
  low = 0;
  budget_bytes = 2500;
  budgets = (codes "go", 60) ∷ [];
}

abbrev volume : Disk
volume = record { idx = two; files = (codes "go/a", 1 ∷ []) ∷ (codes "go/b", 2 ∷ []) ∷ [] }

-- Two entries of 2054 bytes together, and a budget of 2500.
abbrev gc : Gc
gc = record { disk = volume; cfg = config; budget = 2500; evicted = 0; runs = 0; wake = false }

abbrev path_for : Text → Text
path_for key = key

abbrev stuck : Text → Bool
stuck path = false

all : Unit {0}
unfolding program init admit collect shrink evict_more enforce_sub_budgets enforce_one evict used
    disk_used_by pct high_of low_of floor_of notify refresh_budget mul64 quot64
all = tt

built : init volume config none ≡ gc
unfolding all
built = refl

-- The front-end is over its 60 percent: its oldest entry goes, and that is room enough.
admitted :
    ((admit path_for stuck 1000 gc).1 ≡ none)
    × ((admit path_for stuck 1000 gc).0.evicted ≡ 1030)
    × ((admit path_for stuck 1000 gc).0.disk.files ≡ (codes "go/b", 2 ∷ []) ∷ [])
unfolding all
admitted = (refl, refl, refl)

gc-IsSound : IsSound gc
gc-IsSound = record {
  entries = go_b ∷ go_a ∷ [];
  holds = two-Holds;
  budget_fits = omega arith;
  high_fits = omega arith;
  low_fits = omega arith;
  percents_fit = omega arith;
}

two-used : used volume ≡ 2054
unfolding all
two-used = refl

admit_lem_example :
    (2500 < 1000 → admit path_for stuck 1000 gc ≡ (gc, some no_room))
    × (1000 ≤ 2500
        → ((admit path_for stuck 1000 gc).1 ≡ none)
          × (used (admit path_for stuck 1000 gc).0.disk + 1000 ≤ 2500)
          × IsSound (admit path_for stuck 1000 gc).0)
admit_lem_example =
    admit_lem path_for stuck 1000 gc gc-IsSound (omega arith) (omega arith)
      (omega (arith, two-used))

abbrev half_configured : Config
half_configured = record config { high = 80 }

watermarks_order_example : ltb (low_of half_configured) (high_of half_configured) ≡ false
unfolding sle
watermarks_order_example = watermarks_order half_configured (omega arith) (omega arith)

abbrev quiet : Faults
quiet = record {
  cancelled = none;
  open_fails = none;
  unreadable = false;
  before_copy = [];
  after_copy = [];
}

abbrev three_bytes : Reader
three_bytes = record { content = 1 ∷ 2 ∷ 3 ∷ []; broken = none }

wired : Unit {0}
unfolding all put write commit encode_header encode_error spaces first_of entry_of frontend_dir
    first_segment same write_json
wired = tt

putting :
    (put json path_for stuck (gc_host path_for stuck) quiet name three_bytes object 5 9 gc).1 ≡ none
unfolding wired
putting = refl

new_node : Fresh 9 (admit path_for stuck 1027 gc).0.disk.idx
unfolding all
new_node k h = ground arith

put_within_budget_example :
    let g =
      (put json path_for stuck (gc_host path_for stuck) quiet name three_bytes object 5 9 gc).0 in
    (used g.disk ≤ 2500) × ((es : List Entry) × Holds g.disk.idx es)
put_within_budget_example =
    put_within_budget json path_for stuck quiet name three_bytes object 5 9 gc gc-IsSound
      (omega arith) (omega (arith, two-used)) (omega arith) new_node putting
