-- ===== src/Chain/Reads.antt =====
-- What a read through a chain answers, and what the next one does.
use ci_cache.Base.{Bytes, List, Option-cases, Text, inl, inr, lookup, none, refl, ◌≡◌, ◌⊎◌}
use ci_cache.Tier.Laws.{measured}
use ci_cache.Tier.{Error, Got, Meta, Reader, Tier, failed, found}
use ci_cache.Chain.{
  Body, Buffered, Chain, System, World, deliver, get, held, in_memory, meta_of, open_body, refused,
  spilled, whole,
}

-- The tier `t` gives what it has under `key` again, and what it can record and has accepted, with the
-- size that it received. It may refuse any write.
pub record Keeps {W : Type 0} (t : Tier W) (key : Text) : Type 1 where
  pub stable :
      (s : W) (r : Reader) (m : Meta)
      → (t.get key s).1 ≡ found r m
      → (t.get key (t.get key s).0).1 ≡ found r m
  -- What the tier can record: an entry's name and type have to survive its own format.
  pub recordable : Bytes → Meta → Type 0
  pub stored :
      (s : W) (b : Bytes) (m : Meta)
      → recordable b m
      → (t.put key (whole b) m s).1 ≡ none
      → (t.get key (t.put key (whole b) m s).0).1 ≡ found (whole b) (measured b m)

-- A body opens, with its bytes, or it does not.
pub opened :
    (sys : System) (f : Body) (temps : List (Text × Bytes))
    → ((b : Bytes) × (open_body sys f temps ≡ inl (whole b)))
      ⊎ ((e : Error) × (open_body sys f temps ≡ inr e))
unfolding open_body
opened sys (in_memory b m) temps = inl (b, refl)
opened sys (spilled p m) temps = elim (Option-cases (lookup p temps)) [
  | inl h ↦ inr (sys.no_file, rw (open_body, h) refl)
  | inr (b, h) ↦ elim (Option-cases (sys.no_open p)) [
    | inl g ↦ inl (b, rw (open_body, h, g) refl)
    | inr (e, g) ↦ inr (e, rw (open_body, h, g) refl)
  ]
]

module _ {W : Type 0} (sys : System) where
  deliver-store : (f : Body) (w : World W) → (deliver sys f w).0.store ≡ w.store
  unfolding deliver
  deliver-store (in_memory b m) w = refl
  deliver-store (spilled p m) w = elim (opened sys (spilled p m) w.temps) [
    | inr (e, h) ↦ rw (deliver, h) refl
    | inl (b, h) ↦ rw (deliver, h) refl
  ]

module _ {W : Type 0} (sys : System) (t : Tier W) (key : Text) where
  -- The last write was that of the fault's object into `t`.
  abbrev Stored : World W × Buffered → Type 0
  Stored (w, refused e) = Unit
  Stored (w, held f) =
      (b : Bytes)
      → open_body sys f w.temps ≡ inl (whole b)
      → (s : W) × (w.store ≡ (t.put key (whole b) (meta_of f) s).0)

  -- The object was written into `t` last, and if `t` can record it and took it, it is what `t` answers.
  abbrev pub IsWritten : Keeps t key → W → Reader → Meta → Type 0
  IsWritten k w r m =
      (s : W) × (b : Bytes) × (r ≡ whole b)
      × (w ≡ (t.put key (whole b) m s).0)
      × (k.recordable b m
          → (t.put key (whole b) m s).1 ≡ none
          → (t.get key w).1 ≡ found r (measured b m))

  -- The answer is what `t` answers from now on, or was written into it.
  abbrev Kept : Keeps t key → World W × Got → Type 0
  Kept l (w, failed e) = Unit
  Kept l (w, found r m) = ((t.get key w.store).1 ≡ found r m) ⊎ IsWritten l w.store r m
