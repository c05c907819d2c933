-- ===== src/Disk/Index/Tests.antt =====
-- Runs of the index, and its theorems at concrete inputs.
use mathlib.Core.Option
use ci_cache.Base.{
  List, [], arith, codes, if◌then◌else◌, lookup, map, none, refl, reverse, some, ◌++◌, ◌+◌, ◌<◌,
  ◌∷◌, ◌≡◌, ◌≤◌, ◌⊎◌,
}
use ci_cache.Disk.Index.{Entry, Index, remove, set, take_lru}
use ci_cache.Disk.Index.Lru.{Holds, find, forget}
use ci_cache.Disk.Index.Evict.{but_last, only_eligible, only_others}
use ci_cache.Disk.Index.Counts.{total}
use ci_cache.Disk.Index.Updates.{remove-Holds, set-Holds}
use ci_cache.Disk.Index.TakeLru.{take_lru-oldest}
use ci_cache.Disk.Index.Sample.{
  empty, empty-Fresh, empty-Holds, entry, go_a, go_b, one, program, two, two-Holds,
}

abbrev nix_c : Entry
nix_c = entry (codes "nix/c") (codes "nix") 10

-- Three entries, the last one written first in the list.
abbrev three : Index
three = set 3 nix_c (set 2 go_b (set 1 go_a empty))

set-Holds_example :
    Holds one (go_a ∷ forget (codes "go/a") [])
    × (lookup (codes "go/a") one.tombs ≡ none)
    × (lookup (codes "go/a") one.neg ≡ none)
set-Holds_example =
    set-Holds 1 go_a empty [] empty-Holds empty-Fresh (omega arith) (unfold forget in omega arith)

remove-Holds_example :
    Holds (remove (codes "go/a") two).0 (forget (codes "go/a") (go_b ∷ go_a ∷ []))
    × (Option.map two.nodes (remove (codes "go/a") two).1 ≡ find (codes "go/a") (go_b ∷ go_a ∷ []))
    × (lookup (codes "go/a") (remove (codes "go/a") two).0.tombs
        ≡ (if two.cold then some tt else lookup (codes "go/a") two.tombs))
remove-Holds_example = remove-Holds (codes "go/a") two (go_b ∷ go_a ∷ []) two-Holds

take_lru-oldest_example :
    let vs = map two.nodes (take_lru 1000 (codes "go") two).1 in
    (old : List Entry) × Holds (take_lru 1000 (codes "go") two).0 (reverse old)
    × (go_a ∷ go_b ∷ [] ≡ vs ++ only_eligible (codes "go") old)
    × ((1000 ≤ total vs) ⊎ (only_eligible (codes "go") old ≡ []))
    × ((vs ≡ []) ⊎ (total (but_last vs) < 1000))
    × ([] ≡ only_others (codes "go") old)
    × (total old + total vs ≡ 2054)
unfolding program
take_lru-oldest_example =
    take_lru-oldest 1000 (codes "go") two (go_b ∷ go_a ∷ []) (omega arith) two-Holds

-- The oldest entry goes, and one is enough.
evict_one : map two.nodes (take_lru 1000 [] two).1 ≡ go_a ∷ []
unfolding program
evict_one = refl
