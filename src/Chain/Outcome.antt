-- ===== src/Chain/Outcome.antt =====
-- What `Put` of a chain of several tiers returns, and which tiers it reaches.
use ci_cache.Base.{
  Bool, Bool-cases, Bytes, List, Text, [], ap, arith, eqb_refl, false, if◌then◌else◌, inl, inr,
  insert, length, lookup-insert, ltb, none, refl, some, take, true, ◌+◌, ◌∙◌, ◌∷◌, ◌≡◌, ◌≤◌,
}
use ci_cache.Tier.{Meta, Reader, Tier, exists}
use ci_cache.Chain.{
  Body, Chain, System, World, buffer, fails_but, held, in_memory, is_small, meta_of, open_body,
  spill, spilled, whole,
}
use ci_cache.Chain.Writes.{put_held-first, take-all}
use ci_cache.Chain.Reads.{opened}
use ci_cache.Chain.Put.{put, put_buffered, put_held, put_to, tidy, write_behind_first, write_one}

-- A system on which temporary files work.
pub record Works (sys : System) : Type 0 where
  pub creates : sys.no_temp ≡ none
  pub writes : (b : Bytes) → sys.no_write b ≡ none
  pub opens : (p : Text) → sys.no_open p ≡ none

abbrev pub measured : Reader → Meta → Meta
measured r m = record m { size = length r.content }

-- The body is held with all its bytes and their number, and no tier has changed.
record HeldWhole {W : Type 0} (sys : System) (r : Reader) (m : Meta) (w : World W) : Type 0 where
  body : Body
  then_temps : List (Text × Bytes)
  buffers : buffer sys r m w ≡ (record w { temps = then_temps }, held body)
  open_whole : open_body sys body then_temps ≡ inl (whole r.content)
  meta_whole : meta_of body ≡ measured r m

buffer-HeldWhole :
    {W : Type 0} (sys : System) (r : Reader) (m : Meta) (w : World W)
    → Works sys
    → r.broken ≡ none
    → (is_small m ≡ true → length r.content ≤ m.size)
    → HeldWhole sys r m w
unfolding buffer spill open_body
buffer-HeldWhole sys r m w works unbroken honest = elim (Bool-cases (is_small m)) [
  | inl h ↦
      let all : take (m.size + 1) r.content ≡ r.content =
        take-all (m.size + 1) r.content (omega (arith, honest h)) in
      let fits : ltb m.size (length r.content) ≡ false = ground (arith, honest h) in
      record {
        body = in_memory r.content (measured r m);
        then_temps = w.temps;
        buffers = rw (buffer, h, fits, unbroken, all) refl;
        open_whole = refl;
        meta_whole = refl;
      }
  | inr h ↦
      let p = sys.temp_name w.temps in
      record {
        body = spilled p (measured r m);
        then_temps = insert p r.content w.temps;
        buffers = rw (buffer, h, spill, works.creates, unbroken, works.writes r.content) refl;
        open_whole =
            rw (open_body, lookup-insert p p r.content w.temps, eqb_refl p, works.opens p) refl;
        meta_whole = refl;
      }
]

module _ {W : Type 0} (sys : System) (c : Chain W) (key : Text) (t u : Tier W)
    (us : List (Tier W)) where
  put_whole :
      (r : Reader) (m : Meta) (w : World W)
      → c.tiers ≡ t ∷ u ∷ us
      → (hw : HeldWhole sys r m w)
      → put sys c key r m w ≡ (
          let out = put_held sys c key hw.body t (u ∷ us) (record w { temps = hw.then_temps }) in
          (tidy hw.body out.0, out.1))
  unfolding put put_to put_buffered
  put_whole r m w h hw =
      ap (λ ts. put_to sys c key r m ts w) h ∙ ap (put_buffered sys c key t (u ∷ us)) hw.buffers

  -- If temporary files work, the body reads to its end, and the object is not longer than it is said to be, then `Put` of a chain of two or more tiers gives the first tier the whole object with its real size, and returns that tier's error, or none if that error is `ErrExists`, whatever the tiers behind do.
  pub put_outcome :
      (r : Reader) (m : Meta) (w : World W)
      → c.tiers ≡ t ∷ u ∷ us
      → Works sys
      → r.broken ≡ none
      → (is_small m ≡ true → length r.content ≤ m.size)
      → let a = (t.put key (whole r.content) (measured r m) w.store).1 in
        (put sys c key r m w).1 ≡ (if fails_but exists a then a else none)
  put_outcome r m w h works unbroken honest =
      let hw = buffer-HeldWhole sys r m w works unbroken honest in
      let v = record w { temps = hw.then_temps } in
      ap (λ x. x.1) (put_whole r m w h hw)
      ∙ put_held-first sys c key hw.body t (u ∷ us) v r.content hw.open_whole
      ∙ ap
          (λ n.
            let a = (t.put key (whole r.content) n w.store).1 in
            if fails_but exists a then a else none)
          hw.meta_whole

  module _ (offer : Tier W → Text → Meta → Bytes → W → W × Bool)
      (declines : (v : Tier W) (n : Meta) (b : Bytes) (s : W) → (offer v key n b s).0 ≡ s) where
    write_one-declined :
        (f : Body) (v : Tier W) (w : World W)
        → c.write_behind ≡ some offer
        → (write_one sys c key f v w).store ≡ w.store
    unfolding write_one
    write_one-declined f v w h = elim (opened sys f w.temps) [
      | inr (e, g) ↦ rw (write_one, g) refl
      | inl (b, g) ↦ rw (write_one, g, h) (declines v (meta_of f) b w.store)
    ]

    write_behind_first-declined :
        (f : Body) (ts : List (Tier W)) (w : World W)
        → c.write_behind ≡ some offer
        → (write_behind_first sys c key f ts w).store ≡ w.store
    unfolding write_behind_first
    write_behind_first-declined f [] w h = refl
    write_behind_first-declined f (v ∷ ts) w h =
        write_behind_first-declined f ts (write_one sys c key f v w) h ∙ write_one-declined f v w h

    put_held-declined :
        (f : Body) (w : World W) (b : Bytes)
        → c.write_behind ≡ some offer
        → open_body sys f w.temps ≡ inl (whole b)
        → (put_held sys c key f t (u ∷ us) w).0.store ≡ (t.put key (whole b) (meta_of f) w.store).0
    unfolding put_held
    put_held-declined f w b h g =
        let out = t.put key (whole b) (meta_of f) w.store in
        elim (Bool-cases (fails_but exists out.1)) [
          | inl k ↦ rw (put_held, g, k) refl
          | inr k ↦
              rw (put_held, g, k)
                (write_behind_first-declined f (u ∷ us) (record w { store = out.0 }) h)
        ]

    tidy-store : (f : Body) (w : World W) → (tidy f w).store ≡ w.store
    unfolding tidy
    tidy-store (in_memory b m) w = refl
    tidy-store (spilled p m) w = refl

    -- If temporary files work, the body reads to its end, and the object is not longer than it is said to be, then an object that write-behind declines reaches the first tier only, in a chain of two or more: none of the tiers behind is written inline.
    pub put_declined :
        (r : Reader) (m : Meta) (w : World W)
        → c.tiers ≡ t ∷ u ∷ us
        → c.write_behind ≡ some offer
        → Works sys
        → r.broken ≡ none
        → (is_small m ≡ true → length r.content ≤ m.size)
        → (put sys c key r m w).0.store ≡ (t.put key (whole r.content) (measured r m) w.store).0
    put_declined r m w h g works unbroken honest =
        let hw = buffer-HeldWhole sys r m w works unbroken honest in
        let v = record w { temps = hw.then_temps } in
        ap (λ x. x.0.store) (put_whole r m w h hw)
        ∙ tidy-store hw.body (put_held sys c key hw.body t (u ∷ us) v).0
        ∙ put_held-declined hw.body v r.content g hw.open_whole
        ∙ ap (λ n. (t.put key (whole r.content) n w.store).0) hw.meta_whole
