-- ===== src/Chain/Writes.antt =====
-- What `Put` of a chain returns, and what it leaves behind.
use ci_cache.Base.{
  Bool-cases, Bytes, List, Option-cases, Text, [], ap, arith, eqb, eqb_iff, if◌then◌else◌, inl, inr,
  insert, length, lookup, lookup-delete, lookup-insert, ltb, none, refl, suc, take, zero, ℕ, ◌+◌,
  ◌∙◌, ◌∷◌, ◌≡◌, ◌≤◌, ◌⊎◌,
}
use ci_cache.Tier.{Error, Meta, Reader, Tier, exists}
use ci_cache.Chain.{
  Body, Chain, System, World, buffer, fails_but, held, in_memory, is_small, meta_of, open_body,
  or_else, refused, spill, spilled, whole,
}
use ci_cache.Chain.Reads.{opened}
use ci_cache.Chain.Put.{put, put_buffered, put_held, put_to, tidy, write_behind_first, write_one}

pub take-all {ℓ} : {A : Type ℓ} (n : ℕ) (xs : List A) → length xs ≤ n → take n xs ≡ xs
take-all zero [] h = refl
take-all zero (x ∷ xs) h = ground arith
take-all (suc n) [] h = refl
take-all (suc n) (x ∷ xs) h = ap (λ l. x ∷ l) (take-all n xs (omega arith))

-- A spill fails and keeps nothing, or leaves one new file with the bytes.
spill-cases :
    {W : Type 0} (sys : System) (label : Error → Error) (r : Reader) (m : Meta) (w : World W)
    → ((e : Error) × (spill sys label r m w ≡ (w, refused e)))
      ⊎ (spill sys label r m w ≡ (
        record w { temps = insert (sys.temp_name w.temps) r.content w.temps },
        held (spilled (sys.temp_name w.temps) (record m { size = length r.content })),
      ))
unfolding spill
spill-cases sys label r m w = elim (Option-cases sys.no_temp) [
  | inr (e, h) ↦ inl (e, rw (spill, h) refl)
  | inl h ↦ elim (Option-cases (or_else r.broken (sys.no_write r.content))) [
    | inr (e, g) ↦ inl (label e, rw (spill, h, g) refl)
    | inl g ↦ inr (rw (spill, h, g) refl)
  ]
]

module _ {W : Type 0} (sys : System) (c : Chain W) (key : Text) where
  -- What tiers behind do leaves the temporary files alone.
  write_one-temps :
      (f : Body) (t : Tier W) (w : World W) → (write_one sys c key f t w).temps ≡ w.temps
  unfolding write_one
  write_one-temps f t w = elim (opened sys f w.temps) [
    | inr (e, h) ↦ rw (write_one, h) refl
    | inl (b, h) ↦ elim (Option-cases c.write_behind) [
      | inl g ↦ rw (write_one, h, g) refl
      | inr (o, g) ↦ rw (write_one, h, g) refl
    ]
  ]

  write_behind_first-temps :
      (f : Body) (ts : List (Tier W)) (w : World W)
      → (write_behind_first sys c key f ts w).temps ≡ w.temps
  unfolding write_behind_first
  write_behind_first-temps f [] w = refl
  write_behind_first-temps f (t ∷ ts) w =
      write_behind_first-temps f ts (write_one sys c key f t w) ∙ write_one-temps f t w

  put_held-temps :
      (f : Body) (t : Tier W) (ts : List (Tier W)) (w : World W)
      → (put_held sys c key f t ts w).0.temps ≡ w.temps
  unfolding put_held
  put_held-temps f t ts w = elim (opened sys f w.temps) [
    | inr (e, h) ↦ rw (put_held, h) refl
    | inl (b, h) ↦
        let out = t.put key (whole b) (meta_of f) w.store in
        elim (Bool-cases (fails_but exists out.1)) [
          | inl g ↦ rw (put_held, h, g) refl
          | inr g ↦ rw (put_held, h, g) (write_behind_first-temps f ts (record w { store = out.0 }))
        ]
  ]

  -- The first tier's answer is the outcome, if the body opens.
  pub put_held-first :
      (f : Body) (t : Tier W) (ts : List (Tier W)) (w : World W) (b : Bytes)
      → open_body sys f w.temps ≡ inl (whole b)
      → let a = (t.put key (whole b) (meta_of f) w.store).1 in
        (put_held sys c key f t ts w).1 ≡ (if fails_but exists a then a else none)
  unfolding put_held
  put_held-first f t ts w b h =
      elim (Bool-cases (fails_but exists (t.put key (whole b) (meta_of f) w.store).1)) [
        | inl g ↦ rw (put_held, h, g) refl
        | inr g ↦ rw (put_held, h, g) refl
      ]

  put_buffered-spilled :
      (p : Text) (m : Meta) (t : Tier W) (ts : List (Tier W)) (w : World W) (q : Text)
      → lookup q (put_buffered sys c key t ts (w, held (spilled p m))).0.temps
        ≡ (if eqb p q then none else lookup q w.temps)
  unfolding put_buffered tidy
  put_buffered-spilled p m t ts w q =
      let h = put_held-temps (spilled p m) t ts w in rw h (lookup-delete p q w.temps)

  module _ (fresh : (files : List (Text × Bytes)) → lookup (sys.temp_name files) files ≡ none) where
    spill_put-temps :
        (t : Tier W) (ts : List (Tier W)) (r : Reader) (m : Meta) (w : World W) (q : Text)
        → lookup q (put_buffered sys c key t ts (spill sys (λ e. e) r m w)).0.temps
          ≡ lookup q w.temps
    unfolding put_buffered
    spill_put-temps t ts r m w q = elim (spill-cases sys (λ e. e) r m w) [
      | inl (e, h) ↦ rw h refl
      | inr h ↦
          let p = sys.temp_name w.temps in
          let m' = record m { size = length r.content } in
          let v = record w { temps = insert p r.content w.temps } in
          rw h (
            put_buffered-spilled p m' t ts v q
            ∙ ground (arith, eqb_iff p q, lookup-insert p q r.content w.temps, fresh w.temps))
    ]

    memory_put-temps :
        (t : Tier W) (ts : List (Tier W)) (b : Bytes) (m : Meta) (w : World W)
        → (put_buffered sys c key t ts (w, held (in_memory b m))).0.temps ≡ w.temps
    unfolding put_buffered tidy
    memory_put-temps t ts b m w = put_held-temps (in_memory b m) t ts w

    buffer_put-temps :
        (t : Tier W) (ts : List (Tier W)) (r : Reader) (m : Meta) (w : World W) (q : Text)
        → lookup q (put_buffered sys c key t ts (buffer sys r m w)).0.temps ≡ lookup q w.temps
    unfolding buffer put_buffered
    buffer_put-temps t ts r m w q =
        let b = take (m.size + 1) r.content in
        let memory = ap (lookup q) (memory_put-temps t ts b (record m { size = length b }) w) in
        elim (Bool-cases (is_small m)) [
          | inr h ↦ rw (buffer, h) (spill_put-temps t ts r m w q)
          | inl h ↦ elim (Bool-cases (ltb m.size (length r.content))) [
            | inl g ↦ rw (buffer, h, g) memory
            | inr g ↦ elim (Option-cases r.broken) [
              | inl k ↦ rw (buffer, h, g, k) memory
              | inr (e, k) ↦ rw (buffer, h, g, k) refl
            ]
          ]
        ]

    put_to-temps :
        (r : Reader) (m : Meta) (ts : List (Tier W)) (w : World W) (q : Text)
        → lookup q (put_to sys c key r m ts w).0.temps ≡ lookup q w.temps
    unfolding put_to
    put_to-temps r m [] w q = refl
    put_to-temps r m (t ∷ []) w q = refl
    put_to-temps r m (t ∷ u ∷ us) w q = buffer_put-temps t (u ∷ us) r m w q

    -- If the system names a new temporary file as none that is there, then `Put` leaves the temporary files as they were, on every path, errors included.
    pub put-temps :
        (r : Reader) (m : Meta) (w : World W) (q : Text)
        → lookup q (put sys c key r m w).0.temps ≡ lookup q w.temps
    unfolding put
    put-temps r m w q = put_to-temps r m c.tiers w q
