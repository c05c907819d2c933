-- ===== src/Disk/Links/Chain.antt =====
-- The pointers as a list of addresses, and what the two operations do to it.
use ci_cache.Base.{
  Bool, List, Option, [], arith, false, none, refl, some, subst, sym, true, ℕ, ◌++◌, ◌==◌, ◌||◌,
  ◌↔◌, ◌∷◌, ◌≡◌,
}
use ci_cache.Disk.Links.{Links, if_nil, link_front, update, write_at}

unfoldable pub has : ℕ → List ℕ → Bool
has q [] = false
has q (x ∷ xs) = (q == x) || has q xs

abbrev pub Distinct : List ℕ → Type 0
Distinct [] = Unit
Distinct (x ∷ xs) = (has x xs ≡ false) × Distinct xs

-- The first address, or `a` where there is none; the last, or `b`.
unfoldable pub first_or : List ℕ → Option ℕ → Option ℕ
first_or [] a = a
first_or (x ∷ xs) a = some x

unfoldable pub last_or : Option ℕ → List ℕ → Option ℕ
last_or b [] = b
last_or b (x ∷ xs) = last_or (some x) xs

-- The entries `xs` in this order, between `b` in front and `a` behind.
abbrev pub Seg : (prev next : ℕ → Option ℕ) → Option ℕ → List ℕ → Option ℕ → Type 0
Seg prev next b [] a = Unit
Seg prev next b (x ∷ xs) a = (prev x ≡ b) × (next x ≡ first_or xs a) × Seg prev next (some x) xs a

pub record IsChain (l : Links) (xs : List ℕ) : Type 0 where
  pub distinct : Distinct xs
  pub head : l.head ≡ first_or xs none
  pub tail : l.tail ≡ last_or none xs
  pub seg : Seg l.prev l.next none xs none

module _ (prev next : ℕ → Option ℕ) where
  -- A segment does not see writes to other entries.
  pub Seg-update_prev :
      (p : ℕ) (v b a : Option ℕ) (xs : List ℕ)
      → has p xs ≡ false
      → Seg prev next b xs a
      → Seg (update prev p v) next b xs a
  unfolding update has
  Seg-update_prev p v b a [] h s = tt
  Seg-update_prev p v b a (x ∷ xs) h s =
      (ground arith, s.1, Seg-update_prev p v (some x) a xs (ground arith) s.2)

  pub Seg-update_next :
      (p : ℕ) (v b a : Option ℕ) (xs : List ℕ)
      → has p xs ≡ false
      → Seg prev next b xs a
      → Seg prev (update next p v) b xs a
  unfolding update has
  Seg-update_next p v b a [] h s = tt
  Seg-update_next p v b a (x ∷ xs) h s =
      (s.0, ground arith, Seg-update_next p v (some x) a xs (ground arith) s.2)

  -- Another entry in front of the segment.
  pub Seg-write_prev :
      (b b' a : Option ℕ) (xs : List ℕ)
      → Distinct xs
      → Seg prev next b xs a
      → Seg (write_at prev (first_or xs none) b') next b' xs a
  unfolding write_at first_or update
  Seg-write_prev b b' a [] d s = tt
  Seg-write_prev b b' a (x ∷ xs) d s =
      (ground arith, s.1, Seg-update_prev x b' (some x) a xs d.0 s.2)

pub has-last_or :
    (y : ℕ) (ys : List ℕ) → (q : ℕ) × (last_or (some y) ys ≡ some q) × (has q (y ∷ ys) ≡ true)
unfolding last_or has
has-last_or y [] = (y, refl, ground arith)
has-last_or y (z ∷ zs) = let (q, e, h) = has-last_or z zs in (q, e, ground arith)

pub ne_of_has : (p q : ℕ) (xs : List ℕ) → has q xs ≡ true → has p xs ≡ false → (p == q) ≡ false
unfolding has
ne_of_has p q [] h k = ground arith
ne_of_has p q (x ∷ xs) h k = ground (arith, ne_of_has p q xs)

module _ (prev next : ℕ → Option ℕ) where
  -- Another entry behind the segment.
  pub Seg-write_next :
      (x : ℕ) (xs : List ℕ) (b a a' : Option ℕ)
      → Distinct (x ∷ xs)
      → Seg prev next b (x ∷ xs) a
      → Seg prev (write_at next (last_or (some x) xs) a') b (x ∷ xs) a'
  unfolding write_at first_or last_or update
  Seg-write_next x [] b a a' d s = (s.0, ground arith, tt)
  Seg-write_next x (y ∷ ys) b a a' d s =
      let (q, e, h) = has-last_or y ys in
      (
        s.0,
        rw e (ground (arith, ne_of_has x q (y ∷ ys) h d.0)),
        Seg-write_next y ys (some x) a a' d.1 s.2,
      )

pub Seg-append :
    (prev next : ℕ → Option ℕ) (xs ys : List ℕ) (b a : Option ℕ)
    → Seg prev next b (xs ++ ys) a
      ↔ (Seg prev next b xs (first_or ys a) × Seg prev next (last_or b xs) ys a)
unfolding first_or last_or
Seg-append prev next [] ys b a = (λ s. (tt, s), λ s. s.1)
Seg-append prev next (x ∷ []) ys b a = (λ s. ((s.0, s.1, tt), s.2), λ s. (s.0.0, s.0.1, s.1))
Seg-append prev next (x ∷ y ∷ xs) ys b a =
    let rest = Seg-append prev next (y ∷ xs) ys (some x) a in
    (λ s. let r = rest.0 s.2 in ((s.0, s.1, r.0), r.1), λ s. (s.0.0, s.0.1, rest.1 (s.0.2, s.1)))

pub has-append : (q : ℕ) (xs ys : List ℕ) → has q (xs ++ ys) ≡ (has q xs || has q ys)
unfolding has
has-append q [] ys = refl
has-append q (x ∷ xs) ys = ground (arith, has-append q xs ys)

pub Distinct-append :
    (xs ys : List ℕ) (q : ℕ) → Distinct (xs ++ ys) → has q xs ≡ true → has q ys ≡ false
unfolding has
Distinct-append [] ys q d h = ground arith
Distinct-append (x ∷ xs) ys q d h = ground (arith, has-append x xs ys, Distinct-append xs ys q d.1)

-- Where an address stands once in the middle.
pub Distinct-middle :
    (xs ys : List ℕ) (p : ℕ)
    → Distinct (xs ++ p ∷ ys)
    → (has p xs ≡ false) × (has p ys ≡ false) × Distinct (xs ++ ys)
unfolding has
Distinct-middle [] ys p d = (refl, d.0, d.1)
Distinct-middle (x ∷ xs) ys p d =
    let r = Distinct-middle xs ys p d.1 in
    (
      ground (arith, has-append x xs (p ∷ ys)),
      r.1,
      (ground (arith, has-append x xs (p ∷ ys), has-append x xs ys), r.2),
    )

tail-link_front : (p : ℕ) (xs : List ℕ) → if_nil (last_or none xs) (some p) ≡ last_or (some p) xs
unfolding last_or if_nil
tail-link_front p [] = refl
tail-link_front p (x ∷ xs) = let (q, e, h) = has-last_or x xs in rw e

-- The pointers after `linkFront`, for any fields of the two records.
Seg-front :
    (prev next : ℕ → Option ℕ) (p : ℕ) (xs : List ℕ)
    → has p xs ≡ false
    → Distinct xs
    → Seg prev next none xs none
    → Seg
        (write_at (update prev p none) (first_or xs none) (some p))
        (update next p (first_or xs none))
        none
        (p ∷ xs)
        none
unfolding has first_or
Seg-front prev next p xs h d s = (
  front_prev xs h,
  unfold update in ground arith,
  Seg-write_prev (update prev p none) (update next p (first_or xs none)) none (some p) none xs d (
      Seg-update_next (update prev p none) next p (first_or xs none) none none xs h
        (Seg-update_prev prev next p none none none xs h s)),
)
  where
    front_prev :
        (ys : List ℕ)
        → has p ys ≡ false
        → write_at (update prev p none) (first_or ys none) (some p) p ≡ none
    front_prev [] k = unfold write_at update in ground arith
    front_prev (y ∷ ys) k = unfold write_at update in ground arith

-- `linkFront` puts an entry that is not in the list in front of it.
pub link_front-IsChain :
    (p : ℕ) (l : Links) (xs : List ℕ)
    → has p xs ≡ false
    → IsChain l xs
    → IsChain (link_front p l) (p ∷ xs)
unfolding link_front first_or last_or
link_front-IsChain p l xs h c = record {
  distinct = (h, c.distinct);
  head = refl;
  tail = rw (c.tail) (tail-link_front p xs);
  seg =
      subst
        (λ q.
          Seg (write_at (update l.prev p none) q (some p)) (update l.next p q) none (p ∷ xs) none)
        (sym c.head) (Seg-front l.prev l.next p xs h c.distinct c.seg);
}
