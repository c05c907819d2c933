-- ===== src/Disk/Listing/Complete.antt =====
-- What the pages of `List` have, of an index that stands for a list of entries.
use ci_cache.Base.{
  All-map, Bool, Bool-cases, List, Option, Option-cases, Text, [], ap, arith, eqb, eqb_iff,
  eqb_refl, false, if◌then◌else◌, inl, inr, length, lookup, map, none, refl, some, starts_with,
  subst, suc, sym, true, ℕ, ◌&&◌, ◌<◌, ◌∙◌, ◌∷◌, ◌≡◌, ◌≤◌,
}
use ci_cache.Tier.{Listed}
use ci_cache.Disk.Index.{Entry, Index}
use ci_cache.Disk.Index.Represents.{Represents}
use ci_cache.Disk.Index.Lru.{Holds, lookup-Found, lookup-absent}
use ci_cache.Disk.Index.Lru
use ci_cache.Disk.Listing.{
  copies, filter, insert_sorted, kept, listed_of, pages, past, snapshot, sort, under,
}
use ci_cache.Disk.Listing.Sorting.{
  Distinct, Sorted, Unused, filter-Sorted, find_key, find_key-filter, find_key-sort, sort-Sorted,
}
use ci_cache.Disk.Listing.Pages.{IsNamed, pages-left_after}

-- Each key stands once, as in every map.
abbrev pub IsMap : List (Text × ℕ) → Type 0
IsMap [] = Unit
IsMap ((k, p) ∷ m) = (lookup k m ≡ none) × IsMap m

abbrev pub listed_found : Option Entry → Option Listed
listed_found none = none
listed_found (some e) = some (listed_of e)

module _ (nodes : ℕ → Entry) where
  -- An entry stands under its own key.
  abbrev Named : List (Text × ℕ) → Type 0
  Named m = (k : Text) (p : ℕ) → lookup k m ≡ some p → (nodes p).key ≡ k

  head-Named : (k : Text) (p : ℕ) (m : List (Text × ℕ)) → Named ((k, p) ∷ m) → (nodes p).key ≡ k
  unfolding lookup
  head-Named k p m named = named k p (rw (eqb_refl k) refl)

  tail-Named :
      (k : Text) (p : ℕ) (m : List (Text × ℕ)) → lookup k m ≡ none → Named ((k, p) ∷ m) → Named m
  unfolding lookup
  tail-Named k p m once named j q h = elim (Bool-cases (eqb k j)) [
    | inl same ↦ absurd (let e = ap (λ i. lookup i m) ((eqb_iff k j).0 same) in cc)
    | inr differs ↦ named j q (rw differs h)
  ]

  copies-Unused :
      (k : Text) (m : List (Text × ℕ))
      → IsMap m
      → Named m
      → lookup k m ≡ none
      → Unused k (copies nodes m)
  unfolding lookup
  copies-Unused k [] h named gone = tt
  copies-Unused k ((j, p) ∷ m) h named gone = elim (Bool-cases (eqb j k)) [
    | inl same ↦ absurd (ground (arith, same, gone))
    | inr differs ↦
        let own = head-Named j p m named in
        (
          ground (arith, differs, own, eqb_iff k (nodes p).key, eqb_iff j k),
          copies-Unused k m h.1 (tail-Named j p m h.0 named) (rw differs at gone),
        )
  ]

  copies-Distinct : (m : List (Text × ℕ)) → IsMap m → Named m → Distinct (copies nodes m)
  copies-Distinct [] h named = tt
  copies-Distinct ((k, p) ∷ m) h named =
      let others = tail-Named k p m h.0 named in
      (
        subst (λ j. Unused j (copies nodes m)) (sym (head-Named k p m named))
            (copies-Unused k m h.1 others h.0),
        copies-Distinct m h.1 others,
      )

  node_at : Option ℕ → Option Listed
  node_at none = none
  node_at (some p) = some (listed_of (nodes p))

  find_key-copies :
      (k : Text) (m : List (Text × ℕ))
      → IsMap m
      → Named m
      → find_key k (copies nodes m) ≡ node_at (lookup k m)
  unfolding find_key lookup node_at
  find_key-copies k [] h named = refl
  find_key-copies k ((j, p) ∷ m) h named =
      let own = head-Named j p m named in
      let rest = find_key-copies k m h.1 (tail-Named j p m h.0 named) in
      elim (Bool-cases (eqb j k)) [
        | inl same ↦
            let found : eqb k (nodes p).key ≡ true =
              ground (arith, same, own, eqb_iff k (nodes p).key, eqb_iff j k) in
            rw (same, found) refl
        | inr differs ↦
            let other_key : eqb k (nodes p).key ≡ false =
              ground (arith, differs, own, eqb_iff k (nodes p).key, eqb_iff j k) in
            rw (differs, other_key) rest
      ]

  length-copies : (m : List (Text × ℕ)) → length (copies nodes m) ≡ length m
  length-copies [] = refl
  length-copies ((k, p) ∷ m) = ap suc (length-copies m)

length-filter : (p : Listed → Bool) (es : List Listed) → length (filter p es) ≤ length es
unfolding filter
length-filter p [] = omega arith
length-filter p (e ∷ es) = ground (arith, length-filter p es)

length-insert_sorted :
    (e : Listed) (es : List Listed) → length (insert_sorted e es) ≡ suc (length es)
unfolding insert_sorted
length-insert_sorted e [] = refl
length-insert_sorted e (f ∷ es) = ground (arith, length-insert_sorted e es)

length-sort : (es : List Listed) → length (sort es) ≡ length es
unfolding sort
length-sort [] = refl
length-sort (e ∷ es) = length-insert_sorted e (sort es) ∙ ap suc (length-sort es)

not_empty : (s : Text) → eqb [] s ≡ false → eqb s [] ≡ false
unfolding eqb
not_empty [] h = absurd (cc)
not_empty (c ∷ s) h = refl

under-starts_with : (prefix k : Text) → (under prefix k && past [] k) ≡ starts_with k prefix
unfolding eqb starts_with
under-starts_with [] k = refl
under-starts_with (c ∷ prefix) k = ground arith

find_of_lookup :
    (k : Text) (ix : Index) (xs : List ℕ)
    → Represents ix xs
    → node_at ix.nodes (lookup k ix.m) ≡ listed_found (Lru.find k (map ix.nodes xs))
unfolding node_at
find_of_lookup k ix xs r = elim (Option-cases (lookup k ix.m)) [
  | inl gone ↦ rw (gone, (lookup-absent k ix xs gone r).0) refl
  | inr (p, there) ↦ rw (there, (lookup-Found k p ix xs there r).found) refl
]

-- On an index that stands for a list of entries, reading the pages of `List` one after another, by the token that each hands over and until there is none, gives the entries under the prefix, each of them once, with what the index has of it, in the order of their keys; as many pages are enough as the index has keys, and one. The map has each key once and not the empty key, whatever the size that is asked for.
pub pages_complete :
    (prefix : Text) (size : ℕ) (ix : Index) (es : List Entry) (n : ℕ)
    → Holds ix es
    → IsMap ix.m
    → lookup [] ix.m ≡ none
    → length ix.m < n
    → let read = pages n prefix [] size ix in
      Sorted read
      × ((k : Text)
          → find_key k read ≡ (if starts_with k prefix then listed_found (Lru.find k es) else none))
unfolding snapshot
pages_complete prefix size ix es n (xs, r, view) once filled enough =
    let named : Named ix.nodes ix.m = λ k p h. (r.mapped k p h).1 in
    let distinct = copies-Distinct ix.nodes ix.m once named in
    let no_empty = copies-Unused ix.nodes [] ix.m once named filled in
    let is_named : IsNamed ix = record {
      distinct = distinct;
      filled = All-map _ _ (λ e. not_empty e.key) (snapshot ix) no_empty;
    } in
    let all = sort (snapshot ix) in
    let same : pages n prefix [] size ix ≡ filter (kept prefix []) all =
      pages-left_after prefix size ix is_named n [] (
        omega (
          arith,
          length-filter (kept prefix []) all,
          length-sort (snapshot ix),
          length-copies ix.nodes ix.m,
        )) in
    rw same (
      filter-Sorted _ all (sort-Sorted (snapshot ix) distinct),
      λ k.
          find_key-filter (λ j. under prefix j && past [] j) k all
          ∙ ap (λ b. if b then find_key k all else none) (under-starts_with prefix k)
          ∙ ap (λ o. if starts_with k prefix then o else none)
              (find_key-sort k (snapshot ix) distinct
                ∙ find_key-copies ix.nodes k ix.m once named
                ∙ find_of_lookup k ix xs r
                ∙ ap (λ l. listed_found (Lru.find k l)) view),
    )
