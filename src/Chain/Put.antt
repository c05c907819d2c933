-- ===== src/Chain/Put.antt =====
-- engine/chain/chain.go, `Put`: the first tier decides, and the tiers behind it get what they can.
use ci_cache.Base.{List, Option, Text, [], delete, if◌then◌else◌, inl, inr, none, some, ◌∷◌}
use ci_cache.Base
use ci_cache.Tier.{Error, Meta, Reader, Tier, exists}
use ci_cache.Chain.{
  Body, Buffered, Chain, System, World, buffer, fails_but, held, in_memory, meta_of, no_tiers,
  open_body, put_in, refused, spilled,
}

module _ {W : Type 0} where
  -- The deferred removal of the temporary file.
  unfoldable pub tidy : Body → World W → World W
  tidy (in_memory b m) w = w
  tidy (spilled p m) w = record w { temps = Base.delete p w.temps }

module _ {W : Type 0} (sys : System) (c : Chain W) where
  -- A tier behind the first is offered the bytes, or written.
  unfoldable pub write_one : Text → Body → Tier W → World W → World W
  write_one key f t w = elim (open_body sys f w.temps) [
    | inr e ↦ w
    | inl r ↦ elim c.write_behind [
      | none ↦ put_in sys key r (meta_of f) t w
      | some offer ↦ record w { store = (offer t key (meta_of f) r.content w.store).0 }
    ]
  ]

  unfoldable pub write_behind_first : Text → Body → List (Tier W) → World W → World W
  write_behind_first key f [] w = w
  write_behind_first key f (t ∷ ts) w = write_behind_first key f ts (write_one key f t w)

  unfoldable pub put_held : Text → Body → Tier W → List (Tier W) → World W → World W × Option Error
  put_held key f t ts w = elim (open_body sys f w.temps) [
    | inr e ↦ (w, some e)
    | inl r ↦
        let (s, err) = t.put key r (meta_of f) w.store in
        let w' = record w { store = s } in
        let done = write_behind_first key f ts w' in
        if fails_but exists err then (w', err) else (done, none)
  ]

  unfoldable pub put_buffered :
      Text → Tier W → List (Tier W) → World W × Buffered → World W × Option Error
  put_buffered key t ts (w, refused e) = (w, some e)
  put_buffered key t ts (w, held f) = let (w', err) = put_held key f t ts w in (tidy f w', err)

  unfoldable pub put_to : Text → Reader → Meta → List (Tier W) → World W → World W × Option Error
  put_to key r m [] w = (w, some no_tiers)
  put_to key r m (t ∷ []) w = (put_in sys key r m t w, (t.put key r m w.store).1)
  put_to key r m (t ∷ u ∷ us) w = put_buffered key t (u ∷ us) (buffer sys r m w)

  unfoldable pub put : Text → Reader → Meta → World W → World W × Option Error
  unfolding put_to
  put key r m w = put_to key r m c.tiers w
