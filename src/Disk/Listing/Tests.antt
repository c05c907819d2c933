-- ===== src/Disk/Listing/Tests.antt =====
-- Runs of `List`, and its theorem at one.
use ci_cache.Base.{
  Text, [], arith, codes, if◌then◌else◌, none, refl, sle, slt, starts_with, true, ◌&&◌, ◌∷◌, ◌≡◌,
}
use ci_cache.Tier.{page}
use ci_cache.Disk.Index.Sample.{go_a, go_b, program, two, two-Holds}
use ci_cache.Disk.Index.Lru
use ci_cache.Disk.Listing.{list, listed_of, pages, text_lt}
use ci_cache.Disk.Listing.Sorting.{Sorted, find_key}
use ci_cache.Disk.Listing.Complete.{listed_found, pages_complete}

in_order : text_lt (codes "go/a") (codes "go/b") && text_lt (codes "go") (codes "go/a") ≡ true
unfolding text_lt
in_order = refl

first_of_two : list none (codes "go") [] 1 two ≡ page (listed_of go_a ∷ []) (codes "go/a")
unfolding program list text_lt sle slt starts_with
first_of_two = refl

second_of_two : list none (codes "go") (codes "go/a") 1 two ≡ page (listed_of go_b ∷ []) []
unfolding program list text_lt sle slt starts_with
second_of_two = refl

pages_complete_example :
    let read = pages 3 (codes "go") [] 1 two in
    Sorted read
    × ((k : Text)
        → find_key k read ≡ (
            if starts_with k (codes "go")
            then listed_found (Lru.find k (go_b ∷ go_a ∷ []))
            else none))
pages_complete_example =
    pages_complete (codes "go") 1 two (go_b ∷ go_a ∷ []) 3 two-Holds
      (unfold program in (refl, (refl, tt))) (unfold program in refl)
      (unfold program in omega arith)
