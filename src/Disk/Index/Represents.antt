-- ===== src/Disk/Index/Represents.antt =====
-- What an index stands for: the addresses of its entries, most recently used first.
use ci_cache.Base.{
  ==_iff, All, Bool-cases, List, Text, [], ap, arith, eqb, false, if◌then◌else◌, inl, inr, lookup,
  map, some, subst, sym, true, ℕ, ◌++◌, ◌==◌, ◌∷◌, ◌≡◌,
}
use ci_cache.Disk.Links.Chain.{IsChain, has}
use ci_cache.Disk.Index.{Index}
use ci_cache.Disk.Index.Counts.{Counts}

-- The list, the map and the totals agree.
pub record Represents (ix : Index) (xs : List ℕ) : Type 0 where
  pub chain : IsChain ix.links xs
  pub listed : All (λ p. lookup (ix.nodes p).key ix.m ≡ some p) xs
  pub mapped :
      (k : Text) (p : ℕ) → lookup k ix.m ≡ some p → (has p xs ≡ true) × ((ix.nodes p).key ≡ k)
  pub counts : Counts ix (map ix.nodes xs)

-- The same but for the key `k`: no entry of the list has it, and the map may hold anything for it.
pub record RepresentsBut (k : Text) (ix : Index) (xs : List ℕ) : Type 0 where
  pub chain : IsChain ix.links xs
  pub listed :
      All (λ p. (lookup (ix.nodes p).key ix.m ≡ some p) × (eqb k (ix.nodes p).key ≡ false)) xs
  pub mapped :
      (j : Text) (p : ℕ)
      → eqb k j ≡ false
      → lookup j ix.m ≡ some p
      → (has p xs ≡ true) × ((ix.nodes p).key ≡ j)
  pub counts : Counts ix (map ix.nodes xs)

pub All-has {κ} : (P : ℕ → Type κ) (xs : List ℕ) (q : ℕ) → All P xs → has q xs ≡ true → P q
unfolding has
All-has P [] q a h = absurd (cc)
All-has P (x ∷ xs) q a h = elim (Bool-cases (q == x)) [
  | inl same ↦ subst P (sym ((==_iff q x).0 same)) a.0
  | inr other ↦ All-has P xs q a.1 (rw other at h)
]

pub All-of_has {κ} : (P : ℕ → Type κ) (xs : List ℕ) → ((q : ℕ) → has q xs ≡ true → P q) → All P xs
unfolding has
All-of_has P [] f = tt
All-of_has P (x ∷ xs) f = (f x (ground arith), All-of_has P xs (λ q h. f q (ground arith)))

-- Where an address stands.
pub without : ℕ → List ℕ → List ℕ
without p [] = []
without p (x ∷ xs) = if p == x then xs else x ∷ without p xs

pub split_at :
    (p : ℕ) (xs : List ℕ)
    → has p xs ≡ true
    → (ys : List ℕ) × (zs : List ℕ) × (xs ≡ ys ++ p ∷ zs) × (without p xs ≡ ys ++ zs)
unfolding has without
split_at p [] h = absurd (cc)
split_at p (x ∷ xs) h = elim (Bool-cases (p == x)) [
  | inl same ↦ ([], xs, ap (λ q. q ∷ xs) (sym ((==_iff p x).0 same)), rw same)
  | inr other ↦
      let (ys, zs, e, w) = split_at p xs (rw other at h) in
      (x ∷ ys, zs, ap (◌∷◌ x) e, rw (other, w))
]
