-- ===== src/Disk/Links/Unlink.antt =====
-- `unlink` takes one entry out of the list.
use ci_cache.Base.{
  List, Option, [], ap, append-nil, ap₂, arith, false, none, refl, some, subst, sym, ℕ, ◌++◌, ◌∙◌,
  ◌∷◌, ◌≡◌,
}
use ci_cache.Disk.Links.{Links, bypass_next, bypass_prev, unlink, update, write_at}
use ci_cache.Disk.Links.Chain.{
  Distinct, Distinct-append, Distinct-middle, IsChain, Seg, Seg-append, Seg-update_next,
  Seg-update_prev, Seg-write_next, Seg-write_prev, first_or, has, has-append, has-last_or, last_or,
}

abbrev Avoids : Option ℕ → List ℕ → Type 0
Avoids none xs = Unit
Avoids (some q) xs = has q xs ≡ false

module _ (prev next : ℕ → Option ℕ) where
  Seg-frame_prev :
      (o v b a : Option ℕ) (xs : List ℕ)
      → Avoids o xs
      → Seg prev next b xs a
      → Seg (write_at prev o v) next b xs a
  unfolding write_at
  Seg-frame_prev none v b a xs h s = s
  Seg-frame_prev (some q) v b a xs h s = Seg-update_prev prev next q v b a xs h s

  Seg-frame_next :
      (o v b a : Option ℕ) (xs : List ℕ)
      → Avoids o xs
      → Seg prev next b xs a
      → Seg prev (write_at next o v) b xs a
  unfolding write_at
  Seg-frame_next none v b a xs h s = s
  Seg-frame_next (some q) v b a xs h s = Seg-update_next prev next q v b a xs h s

  Seg-write_last :
      (xs : List ℕ) (a a' : Option ℕ)
      → Distinct xs
      → Seg prev next none xs a
      → Seg prev (write_at next (last_or none xs) a') none xs a'
  unfolding last_or
  Seg-write_last [] a a' d s = tt
  Seg-write_last (x ∷ xs) a a' d s = Seg-write_next prev next x xs none a a' d s

Distinct-left : (xs ys : List ℕ) → Distinct (xs ++ ys) → Distinct xs
Distinct-left [] ys d = tt
Distinct-left (x ∷ xs) ys d = (ground (arith, has-append x xs ys), Distinct-left xs ys d.1)

Distinct-right : (xs ys : List ℕ) → Distinct (xs ++ ys) → Distinct ys
Distinct-right [] ys d = d
Distinct-right (x ∷ xs) ys d = Distinct-right xs ys d.1

first-Avoids : (xs ys : List ℕ) → Distinct (xs ++ ys) → Avoids (first_or ys none) xs
unfolding first_or has
first-Avoids xs [] d = tt
first-Avoids xs (y ∷ ys) d = (Distinct-middle xs ys y d).0

last-Avoids : (xs ys : List ℕ) → Distinct (xs ++ ys) → Avoids (last_or none xs) ys
unfolding last_or
last-Avoids [] ys d = tt
last-Avoids (x ∷ xs) ys d =
    let (q, e, h) = has-last_or x xs in rw e (Distinct-append (x ∷ xs) ys q d h)

pub ends :
    (prev next : ℕ → Option ℕ) (p : ℕ) (xs ys : List ℕ)
    → Seg prev next none (xs ++ p ∷ ys) none
    → Seg prev next none xs (some p)
      × ((prev p ≡ last_or none xs) × Seg prev next (some p) ys none)
      × (next p ≡ first_or ys none)
unfolding first_or
ends prev next p xs ys s =
    let r = (Seg-append prev next xs (p ∷ ys) none none).0 s in (r.0, (r.1.0, r.1.2), r.1.1)

-- The pointers after `unlink`, for any fields of the record.
Seg-unlink :
    (prev next : ℕ → Option ℕ) (p : ℕ) (xs ys : List ℕ)
    → Distinct (xs ++ p ∷ ys)
    → Seg prev next none (xs ++ p ∷ ys) none
    → Seg
        (update (write_at prev (first_or ys none) (last_or none xs)) p none)
        (update (write_at next (last_or none xs) (first_or ys none)) p none)
        none
        (xs ++ ys)
        none
Seg-unlink prev next p xs ys d s = (Seg-append prev' next' xs ys none none).1 (
  Seg-update_prev (write_at prev first last) next' p none none first xs m.0 (
      Seg-update_next (write_at prev first last) (write_at next last first) p none none first xs m.0
        (Seg-frame_prev prev (write_at next last first) first last none first xs
          (first-Avoids xs ys m.2)
          (Seg-write_last prev next xs (some p) first (Distinct-left xs ys m.2) parts.0))),
  Seg-update_prev (write_at prev first last) next' p none last none ys m.1 (
      Seg-update_next (write_at prev first last) (write_at next last first) p none last none ys m.1
        (Seg-frame_next (write_at prev first last) next last first last none ys
          (last-Avoids xs ys m.2)
          (Seg-write_prev prev next (some p) last none ys (Distinct-right xs ys m.2) parts.1.1))),
)
  where
    first : Option ℕ
    first = first_or ys none

    last : Option ℕ
    last = last_or none xs

    prev' : ℕ → Option ℕ
    prev' = update (write_at prev first last) p none

    next' : ℕ → Option ℕ
    next' = update (write_at next last first) p none

    m : (has p xs ≡ false) × (has p ys ≡ false) × Distinct (xs ++ ys)
    m = Distinct-middle xs ys p d

    parts :
        Seg prev next none xs (some p)
        × ((prev p ≡ last) × Seg prev next (some p) ys none)
        × (next p ≡ first)
    parts = ends prev next p xs ys s

-- A field of the list that is written only if a neighbour is nil.
abbrev choose : Option ℕ → Option ℕ → Option ℕ → Option ℕ
choose none v w = v
choose (some q) v w = w

bypass_next_lem :
    (p : ℕ) (l : Links) (b : Option ℕ)
    → l.prev p ≡ b
    → bypass_next p l
      ≡ record l { head = choose b (l.next p) l.head; next = write_at l.next b (l.next p) }
unfolding write_at bypass_next
bypass_next_lem p l none h = rw (h, bypass_next)
bypass_next_lem p l (some q) h = rw (h, bypass_next)

bypass_prev_lem :
    (p : ℕ) (l : Links) (a : Option ℕ)
    → l.next p ≡ a
    → bypass_prev p l
      ≡ record l { tail = choose a (l.prev p) l.tail; prev = write_at l.prev a (l.prev p) }
unfolding write_at bypass_prev
bypass_prev_lem p l none h = rw (h, bypass_prev)
bypass_prev_lem p l (some q) h = rw (h, bypass_prev)

write_same : (f : ℕ → Option ℕ) (o : Option ℕ) (p : ℕ) → write_at f o (f p) p ≡ f p
unfolding write_at update
write_same f none p = refl
write_same f (some q) p = ground arith

-- The list without the entry at `p`, by the entry's neighbours.
abbrev after_unlink : ℕ → Links → (b a : Option ℕ) → Links
after_unlink p l b a = record {
  head = choose b a l.head;
  tail = choose a b l.tail;
  prev = update (write_at l.prev a b) p none;
  next = update (write_at l.next b a) p none;
}

unlink_lem : (p : ℕ) (l : Links) → unlink p l ≡ after_unlink p l (l.prev p) (l.next p)
unfolding unlink
unlink_lem p l =
    let l' : Links = record l {
      head = choose (l.prev p) (l.next p) l.head;
      next = write_at l.next (l.prev p) (l.next p);
    } in
    let e : bypass_prev p (bypass_next p l) ≡ record l' {
      tail = choose (l.next p) (l.prev p) l.tail;
      prev = write_at l.prev (l.next p) (l.prev p);
    } =
      ap (bypass_prev p) (bypass_next_lem p l (l.prev p) refl)
      ∙ bypass_prev_lem p l' (l.next p) (write_same l.next (l.prev p) p) in
    ap {A = Links} (λ k. record k { prev = update k.prev p none; next = update k.next p none }) e

head-unlink :
    (p : ℕ) (xs ys : List ℕ)
    → choose (last_or none xs) (first_or ys none) (first_or (xs ++ p ∷ ys) none)
      ≡ first_or (xs ++ ys) none
unfolding last_or first_or
head-unlink p [] ys = refl
head-unlink p (x ∷ xs) ys = let (q, e, h) = has-last_or x xs in rw e

pub last_or-append :
    (b : Option ℕ) (xs ys : List ℕ) → last_or b (xs ++ ys) ≡ last_or (last_or b xs) ys
unfolding last_or
last_or-append b [] ys = refl
last_or-append b (x ∷ xs) ys = last_or-append (some x) xs ys

tail-unlink :
    (p : ℕ) (xs ys : List ℕ)
    → choose (first_or ys none) (last_or none xs) (last_or none (xs ++ p ∷ ys))
      ≡ last_or none (xs ++ ys)
unfolding first_or
tail-unlink p xs [] = rw append-nil
tail-unlink p xs (y ∷ ys) =
    rw (last_or-append none xs (p ∷ y ∷ ys), last_or-append none xs (y ∷ ys))
      (unfold last_or in refl)

-- `unlink` of an entry of the list takes it out, and leaves the others in their order.
pub unlink-IsChain :
    (p : ℕ) (l : Links) (xs ys : List ℕ)
    → IsChain l (xs ++ p ∷ ys)
    → IsChain (unlink p l) (xs ++ ys)
unlink-IsChain p l xs ys c =
    let at = ends l.prev l.next p xs ys c.seg in
    let e : unlink p l ≡ after_unlink p l (last_or none xs) (first_or ys none) =
      unlink_lem p l ∙ ap₂ (after_unlink p l) at.1.0 at.2 in
    subst (λ k. IsChain k (xs ++ ys)) (sym e)
      (record {
        distinct = (Distinct-middle xs ys p c.distinct).2;
        head = rw (c.head) (head-unlink p xs ys);
        tail = rw (c.tail) (tail-unlink p xs ys);
        seg = Seg-unlink l.prev l.next p xs ys c.distinct c.seg;
      })
