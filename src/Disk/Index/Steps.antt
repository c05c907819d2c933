-- ===== src/Disk/Index/Steps.antt =====
-- What the parts of an operation do to the list that an index stands for.
use ci_cache.Base.{
  ==_iff, Bool-cases, List, Text, [], ap, arith, delete, eqb, eqb_iff, eqb_refl, false, half_word,
  inl, inr, lookup, lookup-delete, lookup-insert, map, map-append, none, refl, some, sym, true, ℕ,
  ◌++◌, ◌+◌, ◌<◌, ◌==◌, ◌||◌, ◌∙◌, ◌∷◌, ◌≡◌,
}
use ci_cache.Disk.Links.Chain.{Distinct-middle, has, has-append, link_front-IsChain, ne_of_has}
use ci_cache.Disk.Links.Unlink.{unlink-IsChain}
use ci_cache.Disk.Index.{Entry, Index, attach, release}
use ci_cache.Disk.Index.Represents.{All-has, All-of_has, Represents, RepresentsBut}
use ci_cache.Disk.Index.Counts.{Counts-same, attach-Counts, release-Counts, total}

pub has-middle : (q p : ℕ) (ys zs : List ℕ) → has q (ys ++ p ∷ zs) ≡ (q == p || has q (ys ++ zs))
unfolding has
has-middle q p [] zs = refl
has-middle q p (y ∷ ys) zs = ground (arith, has-middle q p ys zs)

-- One key, one entry: another entry of the list has another key.
other_key :
    (ix : Index) (xs : List ℕ) (r : Represents ix xs) (k : Text) (p q : ℕ)
    → lookup k ix.m ≡ some p
    → has q xs ≡ true
    → (q == p) ≡ false
    → eqb k (ix.nodes q).key ≡ false
other_key ix xs r k p q h hq ne =
    let at : lookup (ix.nodes q).key ix.m ≡ some q =
      All-has (λ a. lookup (ix.nodes a).key ix.m ≡ some a) xs q r.listed hq in
    elim (Bool-cases (eqb k (ix.nodes q).key)) [
      | inl same ↦ absurd (clash (ap (λ j. lookup j ix.m) (sym ((eqb_iff _ _).0 same)) ∙ h) at)
      | inr other ↦ other
    ]
  where
    clash : lookup (ix.nodes q).key ix.m ≡ some p → lookup (ix.nodes q).key ix.m ≡ some q → ⊥
    clash a b = ground arith

map-middle :
    (f : ℕ → Entry) (p : ℕ) (ys zs : List ℕ) → map f (ys ++ p ∷ zs) ≡ map f ys ++ f p ∷ map f zs
map-middle f p ys zs = map-append f ys (p ∷ zs)

-- Another key's entry is another entry.
stays :
    (k j : Text) (p q : ℕ) (ix : Index) (ys zs : List ℕ)
    → Represents ix (ys ++ p ∷ zs)
    → lookup k ix.m ≡ some p
    → eqb k j ≡ false
    → lookup j ix.m ≡ some q
    → has q (ys ++ zs) ≡ true
stays k j p q ix ys zs r h ne at = elim (Bool-cases (q == p)) [
  | inl same ↦
      let e : k ≡ j =
        sym (r.mapped k p h).1
        ∙ ap (λ a. (ix.nodes a).key) (sym ((==_iff q p).0 same))
        ∙ (r.mapped j q at).1 in
      absurd (cc (sym ne ∙ (eqb_iff k j).1 e))
  | inr other ↦ ground (arith, has-middle q p ys zs, (r.mapped j q at).0)
]

-- An entry leaves the list, and the map is not yet told.
pub release-RepresentsBut :
    (k : Text) (p : ℕ) (ix : Index) (ys zs : List ℕ)
    → lookup k ix.m ≡ some p
    → Represents ix (ys ++ p ∷ zs)
    → RepresentsBut k (release p ix) (ys ++ zs)
unfolding release
release-RepresentsBut k p ix ys zs h r =
    let xs = ys ++ p ∷ zs in
    let alone = Distinct-middle ys zs p r.chain.distinct in
    let gone : has p (ys ++ zs) ≡ false = ground (arith, has-append p ys zs) in
    record {
      chain = unlink-IsChain p ix.links ys zs r.chain;
      listed = All-of_has _ (ys ++ zs) λ q hq.
          let inside : has q xs ≡ true = ground (arith, has-middle q p ys zs) in
          (
            All-has (λ a. lookup (ix.nodes a).key ix.m ≡ some a) xs q r.listed inside,
            other_key ix xs r k p q h inside (ground (arith, ne_of_has p q (ys ++ zs) hq gone)),
          );
      mapped = λ j q ne at. (stays k j p q ix ys zs r h ne at, (r.mapped j q at).1);
      counts = rw (map-append ix.nodes ys zs) (
          release-Counts p ix (map ix.nodes ys) (map ix.nodes zs)
            (rw (map-middle ix.nodes p ys zs) at r.counts));
    }

-- The map is told.
pub delete-Represents :
    (k : Text) (ix : Index) (xs : List ℕ)
    → RepresentsBut k ix xs
    → Represents (record ix { m = delete k ix.m }) xs
delete-Represents k ix xs r = record {
  chain = r.chain;
  listed = All-of_has _ xs λ q hq.
      let old =
        All-has (λ a. (lookup (ix.nodes a).key ix.m ≡ some a) × (eqb k (ix.nodes a).key ≡ false)) xs
          q r.listed hq in
      ground (arith, lookup-delete k (ix.nodes q).key ix.m, old);
  mapped = λ j q at. elim (Bool-cases (eqb k j)) [
    | inl same ↦ absurd (ground (arith, lookup-delete k j ix.m))
    | inr ne ↦ r.mapped j q ne (ground (arith, lookup-delete k j ix.m))
  ];
  counts =
      Counts-same ix (record ix { m = delete k ix.m }) (map ix.nodes xs) refl refl refl r.counts;
}

-- A key that the map does not have.
pub absent-RepresentsBut :
    (k : Text) (ix : Index) (xs : List ℕ)
    → lookup k ix.m ≡ none
    → Represents ix xs
    → RepresentsBut k ix xs
absent-RepresentsBut k ix xs h r = record {
  chain = r.chain;
  listed = All-of_has _ xs λ q hq.
      let old = All-has (λ a. lookup (ix.nodes a).key ix.m ≡ some a) xs q r.listed hq in
      (old, new_key q old);
  mapped = λ j q ne at. r.mapped j q at;
  counts = r.counts;
}
  where
    new_key : (q : ℕ) → lookup (ix.nodes q).key ix.m ≡ some q → eqb k (ix.nodes q).key ≡ false
    new_key q old = elim (Bool-cases (eqb k (ix.nodes q).key)) [
      | inl same ↦ absurd (cc (sym h ∙ ap (λ j. lookup j ix.m) ((eqb_iff _ _).0 same) ∙ old))
      | inr other ↦ other
    ]

-- A new entry in front.
pub attach-Represents :
    (p : ℕ) (ix : Index) (xs : List ℕ)
    → has p xs ≡ false
    → RepresentsBut (ix.nodes p).key ix xs
    → 0 < (ix.nodes p).on_disk
    → total (map ix.nodes xs) + (ix.nodes p).on_disk < half_word
    → Represents (attach p ix) (p ∷ xs)
unfolding attach
attach-Represents p ix xs h r pos fits =
    let k = (ix.nodes p).key in
    record {
      chain = link_front-IsChain p ix.links xs h r.chain;
      listed = (
        ground (arith, lookup-insert k k p ix.m, eqb_refl k),
        All-of_has _ xs λ q hq.
            let old =
              All-has
                (λ a. (lookup (ix.nodes a).key ix.m ≡ some a) × (eqb k (ix.nodes a).key ≡ false)) xs
                q r.listed hq in
            ground (arith, lookup-insert k (ix.nodes q).key p ix.m, old),
      );
      mapped = λ j q at. elim (Bool-cases (eqb k j)) [
        | inl same ↦
            let e : q ≡ p = ground (arith, lookup-insert k j p ix.m) in
            (unfold has in ground arith, ap (λ a. (ix.nodes a).key) e ∙ (eqb_iff k j).0 same)
        | inr ne ↦
            let old = r.mapped j q ne (ground (arith, lookup-insert k j p ix.m)) in
            (unfold has in ground arith, old.1)
      ];
      counts = attach-Counts p ix (map ix.nodes xs) r.counts pos fits;
    }
