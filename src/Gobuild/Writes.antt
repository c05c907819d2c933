-- ===== src/Gobuild/Writes.antt =====
-- What a read answers after a write.
use ci_cache.Base.{
  Bytes, Option, Text, [], ap, arith, codes, false, inl, inr, length, none, refl, some, sym, true,
  ℕ, ◌∙◌, ◌≡◌, ◌≢◌, ◌⊎◌,
}
use ci_cache.Tier.{Error, Meta, Tier, errors_is, exists}
use ci_cache.Tier.Laws.{IsMap, measured, stream}
use ci_cache.Gobuild.{Cache, action_key, get, hit, meta_for, output_key, put, refuses, root}
use ci_cache.Gobuild.Record.{Action, FitsUnixNano, format_action, parse-format_action, valid_id}
use ci_cache.Gobuild.Reads.{get_hit}

-- The metadata of the object that `Put` writes.
abbrev pub output_meta : (size at : ℕ) → Meta
output_meta size at = record { size = size; mod_time = at; content_type = []; immutable = true }

abbrev pub record_meta : Text → ℕ → Meta
record_meta rec at = record {
  size = length rec;
  mod_time = at;
  content_type = codes "text/plain; charset=utf-8";
  immutable = false;
}

accepted :
    (e : Option Error)
    → refuses e ≡ false
    → (e ≡ none) ⊎ ((d : Error) × (e ≡ some d) × (errors_is d exists ≡ true))
accepted none h = inl refl
accepted (some d) h = inr (d, refl, ground arith)

module _ {W : Type 0} (t : Tier W) (c : Cache) (l : IsMap t) where
  -- A write to a key that is free, or of an object that is not immutable, is accepted only if it is made.
  accepted_write :
      (k : Text) (b : Bytes) (m : Meta) (w : W)
      → refuses (t.put k (stream b) m w).1 ≡ false
      → (m.immutable ≡ false) ⊎ (l.view w k ≡ none)
      → (t.put k (stream b) m w).1 ≡ none
  accepted_write k b m w h free = elim (accepted (t.put k (stream b) m w).1 h) [
    | inl e ↦ e
    | inr (d, e, is) ↦
        let (fixed, there) = l.taken k b m w d e is in
        elim free [ inl n ↦ cc | inr n ↦ absurd (ground (arith, n, there)) ]
  ]

  -- A `Put` that returns no error had valid ids, and both its writes were accepted.
  put_done :
      (now : ℕ) (id output : Text) (size at : ℕ) (b : Bytes) (w : W)
      → at ≢ 0
      → (put t now id output size at (stream b) w).1 ≡ none
      → let o = t.put (output_key root output) (stream b) (output_meta size at) w in
        let rec = format_action output at in
        let a = t.put (action_key root id) (stream rec) (record_meta rec at) o.0 in
        (valid_id id ≡ true)
        × (valid_id output ≡ true)
        × (refuses o.1 ≡ false)
        × (refuses a.1 ≡ false)
        × ((put t now id output size at (stream b) w).0 ≡ a.0)
  unfolding put
  put_done now id output size at b w set h = ground arith

  -- Over a tier from which what it can record and has accepted is read back with the size that it received, a `Put` that returns no error, of an output that the tier did not have, is answered by the next `Get` of the action: with the output id, the bytes, the number of them as the size, and the modification time that was given, if that is set and fits Unix nanoseconds, and if the write of the record did not evict the output.
  pub get-put_action :
      (now : ℕ) (id output : Text) (size at : ℕ) (b : Bytes) (w : W)
      → at ≢ 0
      → FitsUnixNano at
      → l.recordable (output_key root output) b (output_meta size at)
        × l.recordable
            (action_key root id)
            (format_action output at)
            (record_meta (format_action output at) at)
      → l.view w (output_key root output) ≡ none
      → (put t now id output size at (stream b) w).1 ≡ none
      → (let ko = output_key root output in
          l.view (put t now id output size at (stream b) w).0 ko
          ≡ l.view (t.put ko (stream b) (output_meta size at) w).0 ko)
      → (get t c id (put t now id output size at (stream b) w).0).1
        ≡ hit output (some (stream b)) (output_meta (length b) at)
  unfolding meta_for
  get-put_action now id output size at b w set instant fits free h stays =
      let (ok, valid, first, second, after) = put_done now id output size at b w set h in
      let ko = output_key root output in
      let ka = action_key root id in
      let m = output_meta size at in
      let rec = format_action output at in
      let n = record_meta rec at in
      let w1 = (t.put ko (stream b) m w).0 in
      let w2 = (t.put ka (stream rec) n w1).0 in
      let put1 = accepted_write ko b m w first (inr free) in
      let put2 = accepted_write ka rec n w1 second (inl refl) in
      let a : Action = record { output = output; mod_time = at } in
      let record_there : l.view w2 ka ≡ some (rec, measured rec n) =
        l.written ka rec n w1 fits.1 put2 in
      let output_there : l.view w2 ko ≡ some (b, measured b m) =
        ap (λ v. l.view v ko) (sym after) ∙ stays ∙ l.written ko b m w fits.0 put1 in
      ap (λ v. (get t c id v).1) after
      ∙ get_hit t c l id w2 rec (measured rec n) a b (measured b m) ok record_there
          (parse-format_action output at valid instant) valid output_there
