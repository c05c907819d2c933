-- ===== src/Disk/Listing/Sorting.antt =====
-- Sorting by the key, with filters and searches.
use ci_cache.Base.{
  All, All-map, Bool, Bool-cases, List, Option, Text, [], ap, arith, eqb, eqb_iff, false,
  if◌then◌else◌, inl, inr, none, refl, some, true, ◌∙◌, ◌∷◌, ◌≡◌,
}
use ci_cache.Tier.{Listed}
use ci_cache.Disk.Listing.{filter, insert_sorted, sort, text_lt}
use ci_cache.Disk.Listing.Order.{text_lt_total, text_lt_trans}

abbrev pub Above : Text → List Listed → Type 0
Above k es = All (λ e. text_lt k e.key ≡ true) es

-- Every key is less than those after it.
abbrev pub Sorted : List Listed → Type 0
Sorted [] = Unit
Sorted (e ∷ es) = Above e.key es × Sorted es

-- No entry has the key.
abbrev pub Unused : Text → List Listed → Type 0
Unused k es = All (λ e. eqb k e.key ≡ false) es

abbrev pub Distinct : List Listed → Type 0
Distinct [] = Unit
Distinct (e ∷ es) = Unused e.key es × Distinct es

unfoldable pub find_key : Text → List Listed → Option Listed
find_key k [] = none
find_key k (e ∷ es) = if eqb k e.key then some e else find_key k es

All-insert_sorted :
    (P : Listed → Type 0) (e : Listed) (es : List Listed)
    → P e
    → All P es
    → All P (insert_sorted e es)
unfolding insert_sorted
All-insert_sorted P e [] h hs = (h, tt)
All-insert_sorted P e (f ∷ es) h hs = elim (Bool-cases (text_lt e.key f.key)) [
  | inl lt ↦ rw lt (h, hs)
  | inr ge ↦ rw ge (hs.0, All-insert_sorted P e es h hs.1)
]

pub All-sort : (P : Listed → Type 0) (es : List Listed) → All P es → All P (sort es)
unfolding sort
All-sort P [] h = tt
All-sort P (e ∷ es) h = All-insert_sorted P e (sort es) h.0 (All-sort P es h.1)

pub All-filter :
    (P : Listed → Type 0) (p : Listed → Bool) (es : List Listed) → All P es → All P (filter p es)
unfolding filter
All-filter P p [] h = tt
All-filter P p (e ∷ es) h = elim (Bool-cases (p e)) [
  | inl keep ↦ rw keep (h.0, All-filter P p es h.1)
  | inr drop ↦ rw drop (All-filter P p es h.1)
]

pub filter-Sorted : (p : Listed → Bool) (es : List Listed) → Sorted es → Sorted (filter p es)
unfolding filter
filter-Sorted p [] h = tt
filter-Sorted p (e ∷ es) h = elim (Bool-cases (p e)) [
  | inl keep ↦ rw keep (All-filter _ p es h.0, filter-Sorted p es h.1)
  | inr drop ↦ rw drop (filter-Sorted p es h.1)
]

pub Above-trans : (j k : Text) (es : List Listed) → text_lt j k ≡ true → Above k es → Above j es
Above-trans j k es lt h = All-map _ _ (λ e. text_lt_trans j k e.key lt) es h

insert_sorted-Sorted :
    (e : Listed) (es : List Listed) → Unused e.key es → Sorted es → Sorted (insert_sorted e es)
unfolding insert_sorted
insert_sorted-Sorted e [] fresh h = (tt, tt)
insert_sorted-Sorted e (f ∷ es) fresh h = elim (Bool-cases (text_lt e.key f.key)) [
  | inl lt ↦ rw lt ((lt, Above-trans e.key f.key es lt h.0), h)
  | inr ge ↦
      let gt = text_lt_total e.key f.key ge fresh.0 in
      rw ge (All-insert_sorted _ e es gt h.0, insert_sorted-Sorted e es fresh.1 h.1)
]

pub sort-Sorted : (es : List Listed) → Distinct es → Sorted (sort es)
unfolding sort
sort-Sorted [] h = tt
sort-Sorted (e ∷ es) h = insert_sorted-Sorted e (sort es) (All-sort _ es h.0) (sort-Sorted es h.1)

insert_sorted-least : (e : Listed) (es : List Listed) → Above e.key es → insert_sorted e es ≡ e ∷ es
unfolding insert_sorted
insert_sorted-least e [] h = refl
insert_sorted-least e (f ∷ es) h = rw (h.0) refl

filter-insert_sorted :
    (p : Listed → Bool) (e : Listed) (es : List Listed)
    → Sorted es
    → filter p (insert_sorted e es) ≡ (if p e then insert_sorted e (filter p es) else filter p es)
unfolding filter insert_sorted
filter-insert_sorted p e [] h = refl
filter-insert_sorted p e (f ∷ es) h = elim (Bool-cases (text_lt e.key f.key)) [
  | inl lt ↦
      let above : Above e.key (filter p (f ∷ es)) =
        All-filter _ p (f ∷ es) (lt, Above-trans e.key f.key es lt h.0) in
      rw (lt, insert_sorted-least e (filter p (f ∷ es)) above) refl
  | inr ge ↦ elim (Bool-cases (p f)) [
    | inl keep ↦ elim (Bool-cases (p e)) [
      | inl q ↦ rw (ge, keep, filter-insert_sorted p e es h.1, q, ge) refl
      | inr q ↦ rw (ge, keep, filter-insert_sorted p e es h.1, q) refl
    ]
    | inr drop ↦ rw (ge, drop, filter-insert_sorted p e es h.1) refl
  ]
]

-- A filter may be applied before or after sorting.
pub sort-filter :
    (p : Listed → Bool) (es : List Listed) → Distinct es → sort (filter p es) ≡ filter p (sort es)
unfolding sort filter
sort-filter p [] h = refl
sort-filter p (e ∷ es) h = elim (Bool-cases (p e)) [
  | inl keep ↦
      rw (filter-insert_sorted p e (sort es) (sort-Sorted es h.1), keep, ← sort-filter p es h.1)
        refl
  | inr drop ↦
      rw (filter-insert_sorted p e (sort es) (sort-Sorted es h.1), drop) (sort-filter p es h.1)
]

find_key-insert_sorted :
    (k : Text) (e : Listed) (es : List Listed)
    → Unused e.key es
    → find_key k (insert_sorted e es) ≡ find_key k (e ∷ es)
unfolding insert_sorted find_key
find_key-insert_sorted k e [] fresh = refl
find_key-insert_sorted k e (f ∷ es) fresh = elim (Bool-cases (text_lt e.key f.key)) [
  | inl lt ↦ rw lt refl
  | inr ge ↦ rw ge (
      ground (
        arith,
        find_key-insert_sorted k e es fresh.1,
        eqb_iff k e.key,
        eqb_iff k f.key,
        eqb_iff e.key f.key,
        fresh.0,
      ))
]

-- Sorting loses and adds no key.
pub find_key-sort :
    (k : Text) (es : List Listed) → Distinct es → find_key k (sort es) ≡ find_key k es
unfolding sort find_key
find_key-sort k [] h = refl
find_key-sort k (e ∷ es) h =
    find_key-insert_sorted k e (sort es) (All-sort _ es h.0)
    ∙ ap (λ o. if eqb k e.key then some e else o) (find_key-sort k es h.1)

-- A filter by the key keeps what it accepts.
pub find_key-filter :
    (p : Text → Bool) (k : Text) (es : List Listed)
    → find_key k (filter (λ e. p e.key) es) ≡ (if p k then find_key k es else none)
unfolding filter find_key
find_key-filter p k [] = ground arith
find_key-filter p k (e ∷ es) = elim (Bool-cases (eqb k e.key)) [
  | inl same ↦
      let at : p k ≡ p e.key = ap p ((eqb_iff k e.key).0 same) in
      ground (arith, at, find_key-filter p k es)
  | inr differs ↦ ground (arith, differs, find_key-filter p k es)
]
