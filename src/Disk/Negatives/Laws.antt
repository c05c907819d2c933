-- ===== src/Disk/Negatives/Laws.antt =====
-- What the negative entries answer.
use ci_cache.Base.{
  Bool, Bool-cases, Option, Option-cases, Text, [], ap, arith, delete, eqb, eqb_iff, false,
  if◌then◌else◌, inl, inr, insert, lookup, lookup-delete, lookup-insert, ltb, none, refl, sle, some,
  starts_with, sym, true, ℕ, ◌+◌, ◌∙◌, ◌∷◌, ◌≡◌, ◌≤◌,
}
use ci_cache.Base
use ci_cache.Disk.Index.{Index}
use ci_cache.Disk.Negatives.{
  Negatives, expire_negatives, get_negative, has_expired, invalidate_prefix, put_negative,
  remember_missing, sweep,
}

-- Each key stands once, as in every map.
abbrev pub IsMap : Negatives → Type 0
IsMap [] = Unit
IsMap ((k, until) ∷ m) = (lookup k m ≡ none) × IsMap m

keep : (Text → ℕ → Bool) → Text → Option ℕ → Option ℕ
keep p k none = none
keep p k (some until) = if p k until then none else some until

lookup-sweep :
    (p : Text → ℕ → Bool) (j : Text) (m : Negatives)
    → IsMap m
    → lookup j (sweep p m).0 ≡ keep p j (lookup j m)
unfolding sweep lookup keep
lookup-sweep p j [] h = refl
lookup-sweep p j ((k, until) ∷ m) h =
    let rest = lookup-sweep p j m h.1 in
    elim (Bool-cases (eqb k j)) [
      | inr g ↦ elim (Bool-cases (p k until)) [
        | inl q ↦ rw (sweep, q, lookup, g) rest
        | inr q ↦ rw (sweep, q, lookup, g) rest
      ]
      | inl g ↦
          let same = (eqb_iff k j).0 g in
          let gone : lookup j m ≡ none = ap (λ x. lookup x m) (sym same) ∙ h.0 in
          let left : lookup j (sweep p m).0 ≡ none = rest ∙ ap (keep p j) gone in
          elim (Bool-cases (p k until)) [
            | inl q ↦
                let q' : p j until ≡ true = ap (λ x. p x until) (sym same) ∙ q in
                rw (sweep, lookup, keep, g, q, q') left
            | inr q ↦
                let q' : p j until ≡ false = ap (λ x. p x until) (sym same) ∙ q in
                rw (sweep, q, lookup, g, keep, q') refl
          ]
    ]

answers : ℕ → Option ℕ → Bool
answers now none = false
answers now (some until) = ltb now until

get_negative_lem :
    (j : Text) (now : ℕ) (ix : Index) → (get_negative j now ix).1 ≡ answers now (lookup j ix.neg)
unfolding get_negative answers
get_negative_lem j now ix = elim (Option-cases (lookup j ix.neg)) [
  | inl h ↦ rw (get_negative, h) refl
  | inr (u, h) ↦ rw (get_negative, h) (ground arith)
]

-- A key put with an expiry is answered as absent until that instant and not from it on, and every other key is answered as before.
pub get-put_negative :
    (k j : Text) (until now : ℕ) (ix : Index)
    → (get_negative j now (put_negative k until ix)).1
      ≡ (if eqb k j then ltb now until else (get_negative j now ix).1)
unfolding put_negative answers
get-put_negative k j until now ix =
    get_negative_lem j now (put_negative k until ix)
    ∙ ap (answers now) (lookup-insert k j until ix.neg)
    ∙ elim (Bool-cases (eqb k j)) [
      | inl h ↦ rw h refl
      | inr h ↦ rw h (sym (get_negative_lem j now ix))
    ]

expired_answers :
    (j : Text) (now later : ℕ) (o : Option ℕ)
    → now ≤ later
    → answers later (keep (has_expired now) j o) ≡ answers later o
unfolding answers keep
expired_answers j now later none h = refl
expired_answers j now later (some until) h = ground arith

-- Where each key stands once, dropping what has expired is never seen: from then on, every key is answered as if nothing had been dropped.
pub get-expire_negatives :
    (j : Text) (now later : ℕ) (ix : Index)
    → IsMap ix.neg
    → now ≤ later
    → (get_negative j later (expire_negatives now ix).0).1 ≡ (get_negative j later ix).1
unfolding expire_negatives
get-expire_negatives j now later ix h le =
    get_negative_lem j later (expire_negatives now ix).0
    ∙ ap (answers later) (lookup-sweep (has_expired now) j ix.neg h)
    ∙ expired_answers j now later (lookup j ix.neg) le
    ∙ sym (get_negative_lem j later ix)

prefix_answers :
    (prefix j : Text) (now : ℕ) (o : Option ℕ)
    → answers now (keep (λ k until. starts_with k prefix) j o)
      ≡ (if starts_with j prefix then false else answers now o)
unfolding answers keep
prefix_answers prefix j now none = ground arith
prefix_answers prefix j now (some until) = ground arith

-- Where each key stands once, no key under the prefix is answered as absent after `invalidatePrefix`, and every other key is answered as before.
pub get-invalidate_prefix :
    (prefix j : Text) (now : ℕ) (ix : Index)
    → IsMap ix.neg
    → (get_negative j now (invalidate_prefix prefix ix).0).1
      ≡ (if starts_with j prefix then false else (get_negative j now ix).1)
unfolding invalidate_prefix
get-invalidate_prefix prefix j now ix h =
    get_negative_lem j now (invalidate_prefix prefix ix).0
    ∙ ap (answers now) (lookup-sweep (λ k until. starts_with k prefix) j ix.neg h)
    ∙ prefix_answers prefix j now (lookup j ix.neg)
    ∙ ap (λ b. if starts_with j prefix then false else b) (sym (get_negative_lem j now ix))

insert-IsMap : (k : Text) (until : ℕ) (m : Negatives) → IsMap m → IsMap (insert k until m)
unfolding insert lookup
insert-IsMap k until [] h = (refl, tt)
insert-IsMap k until ((j, u) ∷ m) h = elim (Bool-cases (eqb j k)) [
  | inl g ↦ rw (insert, g) (ap (λ x. lookup x m) (sym ((eqb_iff j k).0 g)) ∙ h.0, h.1)
  | inr g ↦
      let other : eqb k j ≡ false = ground (arith, eqb_iff k j, eqb_iff j k) in
      rw (insert, g)
        (
          lookup-insert k j until m ∙ ap (λ b. if b then some until else lookup j m) other ∙ h.0,
          insert-IsMap k until m h.1,
        )
]

delete-IsMap : (k : Text) (m : Negatives) → IsMap m → IsMap (Base.delete k m)
unfolding Base.delete
delete-IsMap k [] h = tt
delete-IsMap k ((j, u) ∷ m) h = elim (Bool-cases (eqb j k)) [
  | inl g ↦ rw (Base.delete, g) (delete-IsMap k m h.1)
  | inr g ↦
      let other : eqb k j ≡ false = ground (arith, eqb_iff k j, eqb_iff j k) in
      rw (Base.delete, g)
        (
          lookup-delete k j m ∙ ap (λ b. if b then none else lookup j m) other ∙ h.0,
          delete-IsMap k m h.1,
        )
]

sweep-IsMap : (p : Text → ℕ → Bool) (m : Negatives) → IsMap m → IsMap (sweep p m).0
unfolding sweep keep
sweep-IsMap p [] h = tt
sweep-IsMap p ((k, until) ∷ m) h = elim (Bool-cases (p k until)) [
  | inl q ↦ rw (sweep, q) (sweep-IsMap p m h.1)
  | inr q ↦ rw (sweep, q) (lookup-sweep p k m h.1 ∙ ap (keep p k) h.0, sweep-IsMap p m h.1)
]

-- If each key has at most one negative entry, then so it is after every operation on the negative entries.
pub negatives-IsMap :
    (k : Text) (now ttl : ℕ) (ix : Index)
    → IsMap ix.neg
    → IsMap (remember_missing now k ttl ix).neg
      × IsMap (get_negative k now ix).0.neg
      × IsMap (expire_negatives now ix).0.neg
      × IsMap (invalidate_prefix k ix).0.neg
unfolding remember_missing put_negative get_negative expire_negatives invalidate_prefix
negatives-IsMap k now ttl ix h =
    let remembers : IsMap (remember_missing now k ttl ix).neg = elim (Bool-cases (sle ttl 0)) [
      | inl g ↦ rw (remember_missing, g) h
      | inr g ↦ rw (remember_missing, g) (insert-IsMap k (now + ttl) ix.neg h)
    ] in
    let reads : IsMap (get_negative k now ix).0.neg = elim (Option-cases (lookup k ix.neg)) [
      | inl g ↦ rw (get_negative, g) h
      | inr (u, g) ↦ elim (Bool-cases (ltb now u)) [
        | inl l ↦ rw (get_negative, g, l) h
        | inr l ↦ rw (get_negative, g, l) (delete-IsMap k ix.neg h)
      ]
    ] in
    (
      remembers,
      reads,
      sweep-IsMap (has_expired now) ix.neg h,
      sweep-IsMap (λ j until. starts_with j k) ix.neg h,
    )
