-- ===== src/Disk/Index/Lru.antt =====
-- The abstract cache index: the entries themselves, most recently used first, one for each key.
use ci_cache.Base.{
  All, Bool-cases, List, Option, Text, [], ap, eqb, eqb_iff, false, if◌then◌else◌, inl, inr, lookup,
  map, none, refl, some, subst, sym, true, ℕ, ◌++◌, ◌∙◌, ◌∷◌, ◌≡◌, ◌≢◌,
}
use ci_cache.Disk.Links.Chain.{has}
use ci_cache.Disk.Index.{Entry, Index, release}
use ci_cache.Disk.Index.Represents.{All-has, All-of_has, Represents, RepresentsBut, split_at}
use ci_cache.Disk.Index.Steps.{absent-RepresentsBut, release-RepresentsBut}

unfoldable pub find : Text → List Entry → Option Entry
find k [] = none
find k (e ∷ es) = if eqb k e.key then some e else find k es

unfoldable pub forget : Text → List Entry → List Entry
forget k [] = []
forget k (e ∷ es) = let rest = forget k es in if eqb k e.key then rest else e ∷ rest

unfoldable pub touched : Text → ℕ → List Entry → List Entry
touched k at es = elim (find k es) [
  | none ↦ es
  | some e ↦ record e { last_access = at } ∷ forget k es
]

-- The index is sound and stands for the entries `es`.
abbrev pub Holds : Index → List Entry → Type 0
Holds ix es = (xs : List ℕ) × Represents ix xs × (map ix.nodes xs ≡ es)

-- No entry stands at the address.
abbrev pub Fresh : ℕ → Index → Type 0
Fresh p ix = (k : Text) → lookup k ix.m ≢ some p

pub Fresh-has :
    (p : ℕ) (ix : Index) (xs : List ℕ) → Fresh p ix → Represents ix xs → has p xs ≡ false
Fresh-has p ix xs f r = elim (Bool-cases (has p xs)) [
  | inl inside ↦ absurd (
      f (ix.nodes p).key
        (All-has (λ a. lookup (ix.nodes a).key ix.m ≡ some a) xs p r.listed inside))
  | inr outside ↦ outside
]

module _ (f : ℕ → Entry) (k : Text) where
  find-absent :
      (xs : List ℕ)
      → All (λ q. eqb k (f q).key ≡ false) xs
      → (find k (map f xs) ≡ none) × (forget k (map f xs) ≡ map f xs)
  unfolding find forget
  find-absent [] h = (refl, refl)
  find-absent (x ∷ xs) h = let r = find-absent xs h.1 in (rw (h.0, r.0), rw (h.0, r.1))

  find-present :
      (p : ℕ) (ys zs : List ℕ)
      → eqb k (f p).key ≡ true
      → All (λ q. eqb k (f q).key ≡ false) (ys ++ zs)
      → (find k (map f (ys ++ p ∷ zs)) ≡ some (f p))
        × (forget k (map f (ys ++ p ∷ zs)) ≡ map f (ys ++ zs))
  unfolding find forget
  find-present p [] zs h a = (rw h, rw (h, (find-absent zs a).1))
  find-present p (y ∷ ys) zs h a =
      let r = find-present p ys zs h a.1 in (rw (a.0, r.0), rw (a.0, r.1))

-- A key that the map has: where its entry stands, and what the abstract index has for it.
pub record Found (k : Text) (p : ℕ) (ix : Index) (xs : List ℕ) : Type 0 where
  pub before : List ℕ
  pub after : List ℕ
  pub split : xs ≡ before ++ p ∷ after
  pub found : find k (map ix.nodes xs) ≡ some (ix.nodes p)
  pub forgotten : forget k (map ix.nodes xs) ≡ map ix.nodes (before ++ after)

other_keys :
    (k : Text) (ix : Index) (xs : List ℕ)
    → RepresentsBut k ix xs
    → All (λ q. eqb k (ix.nodes q).key ≡ false) xs
other_keys k ix xs b = All-of_has _ xs λ q hq.
    (All-has (λ a. (lookup (ix.nodes a).key ix.m ≡ some a) × (eqb k (ix.nodes a).key ≡ false)) xs q
      b.listed hq).1

Found-at :
    (k : Text) (p : ℕ) (ix : Index) (xs ys zs : List ℕ)
    → lookup k ix.m ≡ some p
    → Represents ix xs
    → xs ≡ ys ++ p ∷ zs
    → Found k p ix xs
unfolding release
Found-at k p ix xs ys zs h r e =
    let b = release-RepresentsBut k p ix ys zs h (subst (Represents ix) e r) in
    let others : All (λ q. eqb k (ix.nodes q).key ≡ false) (ys ++ zs) =
      other_keys k (release p ix) (ys ++ zs) b in
    let at = find-present ix.nodes k p ys zs ((eqb_iff _ _).1 (sym (r.mapped k p h).1)) others in
    record {
      before = ys;
      after = zs;
      split = e;
      found = ap (λ l. find k (map ix.nodes l)) e ∙ at.0;
      forgotten = ap (λ l. forget k (map ix.nodes l)) e ∙ at.1;
    }

pub lookup-Found :
    (k : Text) (p : ℕ) (ix : Index) (xs : List ℕ)
    → lookup k ix.m ≡ some p
    → Represents ix xs
    → Found k p ix xs
lookup-Found k p ix xs h r =
    let at = split_at p xs (r.mapped k p h).0 in Found-at k p ix xs at.0 at.1 h r at.2

pub lookup-absent :
    (k : Text) (ix : Index) (xs : List ℕ)
    → lookup k ix.m ≡ none
    → Represents ix xs
    → (find k (map ix.nodes xs) ≡ none) × (forget k (map ix.nodes xs) ≡ map ix.nodes xs)
lookup-absent k ix xs h r =
    find-absent ix.nodes k xs (other_keys k ix xs (absent-RepresentsBut k ix xs h r))
