-- ===== src/Upload/Steps.antt =====
-- What must hold of the queue in every state, and what an offer does to it.
use ci_cache.Base.{
  Bool-cases, List, [], add64, ap, arith, false, half_word, if◌then◌else◌, inl, inr, length,
  length-append, ltb, refl, sle, sle_small, slt, slt_small, subst, sym, true, word, ℕ, ◌%◌, ◌++◌,
  ◌+◌, ◌<◌, ◌∙◌, ◌∷◌, ◌≡◌, ◌≤◌, ◌⊎◌,
}
use ci_cache.Upload.{
  Config, Item, Queue, claim, claimed_by, drop_one, init, offer, refused, size_of,
}

abbrev pub bytes_of : List Item → ℕ
bytes_of [] = 0
bytes_of (it ∷ its) = size_of it + bytes_of its

pub bytes_of-append : (xs ys : List Item) → bytes_of (xs ++ ys) ≡ bytes_of xs + bytes_of ys
bytes_of-append [] ys = omega arith
bytes_of-append (x ∷ xs) ys = omega (arith, bytes_of-append xs ys)

pub bytes_of-middle :
    (it : Item) (xs ys all : List Item)
    → all ≡ xs ++ it ∷ ys
    → bytes_of all ≡ bytes_of (xs ++ ys) + size_of it
bytes_of-middle it xs ys all h =
    omega (arith, ap bytes_of h, bytes_of-append xs (it ∷ ys), bytes_of-append xs ys)

pub length-middle :
    (it : Item) (xs ys all : List Item) → all ≡ xs ++ it ∷ ys → length all ≡ length (xs ++ ys) + 1
length-middle it xs ys all h =
    omega (arith, ap length h, length-append xs (it ∷ ys), length-append xs ys)

-- The bytes that are accounted for: claimed, in the channel, in flight, or about to be given back.
abbrev pub in_hand : Queue → ℕ
in_hand q = bytes_of q.claimed + bytes_of q.items + bytes_of q.flying + bytes_of q.flushed

-- The objects that the queue has accepted and that no upload has ended for.
abbrev pub waiting : Queue → ℕ
waiting q = length q.items + length q.flying

pub record IsConsistent (c : Config) (q : Queue) : Type 0 where
  pub bytes : q.queued ≡ in_hand q
  pub bounded : in_hand q ≤ c.queue_bytes
  pub slots : length q.items ≤ c.capacity
  -- `depth` runs behind by the offers that have sent and not counted, so that it may be negative.
  pub objects : (q.depth + q.uncounted) % word ≡ waiting q % word
  pub depth_fits : q.depth < word
  pub shut : q.closed ≡ true → (q.claimed ≡ []) × (q.uncounted ≡ 0)

pub init-IsConsistent : (c : Config) → IsConsistent c init
unfolding init
init-IsConsistent c = record {
  bytes = refl;
  bounded = omega arith;
  slots = omega arith;
  objects = refl;
  depth_fits = omega arith;
  shut = λ h. (refl, refl);
}

module _ (c : Config) (limited : 0 < c.queue_bytes) (bounds : c.queue_bytes < half_word) where
  -- A claim that is granted keeps the bytes within the bound, and adds to them.
  claim_cases :
      (size : ℕ) (q : Queue)
      → q.queued ≤ c.queue_bytes
      → size + c.queue_bytes < half_word
      → (claim c size q ≡ (q, false))
        ⊎ ((claim c size q ≡ (record q { queued = q.queued + size }, true))
            × (q.queued + size ≤ c.queue_bytes))
  unfolding claim
  claim_cases size q within small =
      let sum : add64 q.queued size ≡ q.queued + size = unfold add64 in omega arith in
      let some_limit : sle c.queue_bytes 0 ≡ false =
        sle_small c.queue_bytes 0 bounds (omega arith) ∙ ground arith in
      let test = slt_small c.queue_bytes (q.queued + size) bounds (omega arith) in
      elim (Bool-cases (ltb c.queue_bytes (q.queued + size))) [
        | inl over ↦ inl (rw (claim, some_limit, sum, test ∙ over) refl)
        | inr fits ↦ inr (rw (claim, some_limit, sum, test ∙ fits) refl, ground arith)
      ]

  pub drop_one-IsConsistent : (q : Queue) → IsConsistent c q → IsConsistent c (drop_one q)
  drop_one-IsConsistent q i = record {
    bytes = i.bytes;
    bounded = i.bounded;
    slots = i.slots;
    objects = i.objects;
    depth_fits = i.depth_fits;
    shut = i.shut;
  }

  claimed-IsConsistent :
      (it : Item) (q : Queue)
      → IsConsistent c q
      → q.closed ≡ false
      → q.queued + size_of it ≤ c.queue_bytes
      → IsConsistent c (record q { queued = q.queued + size_of it; claimed = it ∷ q.claimed })
  claimed-IsConsistent it q i up fits = record {
    bytes = omega (arith, i.bytes);
    bounded = omega (arith, i.bytes);
    slots = i.slots;
    objects = i.objects;
    depth_fits = i.depth_fits;
    shut = λ h. absurd (cc);
  }

  offer_cases :
      (it : Item) (q : Queue)
      → q.queued ≤ c.queue_bytes
      → size_of it + c.queue_bytes < half_word
      → ((offer c it q).0 ≡ q)
        ⊎ ((offer c it q).0 ≡ drop_one q)
        ⊎ ((q.closed ≡ false)
            × (q.queued + size_of it ≤ c.queue_bytes)
            × ((offer c it q).0
                ≡ record q { queued = q.queued + size_of it; claimed = it ∷ q.claimed }))
  unfolding offer
  offer_cases it q within small =
      let go = claimed_by it (claim c (size_of it) q) in
      elim (Bool-cases (slt (size_of it) c.min_size)) [
        | inl tiny ↦ inl (rw (offer, tiny) refl)
        | inr big ↦
            let is : offer c it q ≡ (if q.closed then (drop_one q, refused) else go) =
              rw (offer, big) refl in
            elim (Bool-cases q.closed) [
              | inl shut ↦ inr (
                  inl (ap (λ x. x.0) (is ∙ ap (λ b. if b then (drop_one q, refused) else go) shut)))
              | inr up ↦
                  let goes = is ∙ ap (λ b. if b then (drop_one q, refused) else go) up in
                  elim (claim_cases (size_of it) q within small) [
                    | inl no_room ↦ inr (inl (ap (λ x. x.0) (goes ∙ ap (claimed_by it) no_room)))
                    | inr (room, fits) ↦
                        inr (inr (up, fits, ap (λ x. x.0) (goes ∙ ap (claimed_by it) room)))
                  ]
            ]
      ]

  pub offer-IsConsistent :
      (it : Item) (q : Queue)
      → size_of it + c.queue_bytes < half_word
      → IsConsistent c q
      → IsConsistent c (offer c it q).0
  offer-IsConsistent it q small i =
      elim (offer_cases it q (omega (arith, i.bytes, i.bounded)) small) [
        | inl e ↦ subst (IsConsistent c) (sym e) i
        | inr o ↦ elim o [
          | inl e ↦ subst (IsConsistent c) (sym e) (drop_one-IsConsistent q i)
          | inr (up, fits, e) ↦ subst (IsConsistent c) (sym e) (claimed-IsConsistent it q i up fits)
        ]
      ]
