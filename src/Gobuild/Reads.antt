-- ===== src/Gobuild/Reads.antt =====
-- What a read answers when the tier behaves as a map.
use ci_cache.Base.{
  All, All-map, Bool-cases, Bytes, List, Text, [], ap, eqb, if◌then◌else◌, inl, inr, none, refl,
  some, true, ◌∙◌, ◌∷◌, ◌≡◌,
}
use ci_cache.Tier.{Meta, Tier, errors_is}
use ci_cache.Tier.Laws.{IsMap, stream}
use ci_cache.Gobuild.{
  Cache, action_key, answer_get, answer_read, bytes, delete_quietly, drop_dangling, get, get_if,
  hit, meta_for, miss, no_bytes, output_key, prefixes, prefixes_from, read_in, resolve, resolve_in,
  resolved, root,
}
use ci_cache.Gobuild.Record.{Action, parse_action, valid_id}

pub prefixes-first : (c : Cache) → (ps : List Text) × (prefixes c ≡ root ∷ ps)
unfolding prefixes
prefixes-first c = elim (Bool-cases (eqb c.legacy [])) [
  | inl h ↦ ([], rw (prefixes, h) refl)
  | inr h ↦ (c.legacy ∷ [], rw (prefixes, h) refl)
]

module _ {W : Type 0} (t : Tier W) (c : Cache) (l : IsMap t) where
  -- A record in the natural layout is the one that is read.
  pub resolve-root :
      (id : Text) (w : W) (b : Bytes) (m : Meta) (a : Action)
      → valid_id id ≡ true
      → l.view w (action_key root id) ≡ some (b, m)
      → parse_action b ≡ some a
      → valid_id a.output ≡ true
      → resolve t c id w ≡ ((t.get (action_key root id) w).0, resolved a root)
  unfolding resolve
  resolve-root id w b m a ok h parses valid =
      let (ps, first) = prefixes-first c in
      rw (ok, first, resolve_in, l.got (action_key root id) w b m h, parses, valid) refl

  read_in-root :
      (o : Text) (w : W) (b : Bytes) (m : Meta)
      → l.view w (output_key root o) ≡ some (b, m)
      → read_in t c o (prefixes_from c root) w
        ≡ ((t.get (output_key root o) w).0, bytes (stream b) m)
  unfolding read_in prefixes_from
  read_in-root o w b m h = rw (l.got (output_key root o) w b m h) refl

  pub get_hit :
      (id : Text) (w : W) (rec : Bytes) (n : Meta) (a : Action) (b : Bytes) (m : Meta)
      → valid_id id ≡ true
      → l.view w (action_key root id) ≡ some (rec, n)
      → parse_action rec ≡ some a
      → valid_id a.output ≡ true
      → l.view w (output_key root a.output) ≡ some (b, m)
      → (get t c id w).1 ≡ hit a.output (some (stream b)) (meta_for m a)
  unfolding get get_if
  get_hit id w rec n a b m ok h parses valid out =
      let k = action_key root id in
      let kept = l.got_keeps k (output_key root a.output) w ∙ out in
      ap (λ x. (answer_get t c id none x).1) (resolve-root id w rec n a ok h parses valid)
      ∙ ap (λ x. (answer_read t c id a root x).1) (read_in-root a.output (t.get k w).0 b m kept)

  -- Outputs that are in none of the layouts are not found, and looking for them changes nothing.
  read_in-none :
      (o : Text) (ps : List Text) (w : W)
      → All (λ p. l.view w (output_key p o) ≡ none) ps
      → (v : W) × (read_in t c o ps w ≡ (v, no_bytes)) × ((j : Text) → l.view v j ≡ l.view w j)
  unfolding read_in errors_is
  read_in-none o [] w h = (w, refl, λ j. refl)
  read_in-none o (p ∷ ps) w h =
      let k = output_key p o in
      let w' = (t.get k w).0 in
      let same = λ (j : Text). l.got_keeps k j w in
      let later =
        All-map (λ q. l.view w (output_key q o) ≡ none) (λ q. l.view w' (output_key q o) ≡ none)
          (λ q e. same (output_key q o) ∙ e) ps h.1 in
      let (v, none_read, kept) = read_in-none o ps w' later in
      (v, rw (read_in, l.missed k w h.0) none_read, λ j. kept j ∙ same j)

  -- A record whose output is in none of the layouts is answered as a miss, and the record is removed; nothing else is.
  pub get_dangling :
      (id : Text) (w : W) (rec : Bytes) (n : Meta) (a : Action)
      → valid_id id ≡ true
      → l.view w (action_key root id) ≡ some (rec, n)
      → parse_action rec ≡ some a
      → valid_id a.output ≡ true
      → All (λ p. l.view w (output_key p a.output) ≡ none) (prefixes_from c root)
      → ((get t c id w).1 ≡ miss)
        × ((j : Text)
            → l.view (get t c id w).0 j ≡ (if eqb (action_key root id) j then none else l.view w j))
  unfolding get get_if drop_dangling delete_quietly
  get_dangling id w rec n a ok h parses valid gone =
      let k = action_key root id in
      let w' = (t.get k w).0 in
      let same = λ (j : Text). l.got_keeps k j w in
      let still =
        All-map (λ q. l.view w (output_key q a.output) ≡ none)
          (λ q. l.view w' (output_key q a.output) ≡ none) (λ q e. same (output_key q a.output) ∙ e)
          (prefixes_from c root) gone in
      let (v, none_read, kept) = read_in-none a.output (prefixes_from c root) w' still in
      let answer : get t c id w ≡ ((t.delete k v).0, miss) =
        ap (answer_get t c id none) (resolve-root id w rec n a ok h parses valid)
        ∙ ap (answer_read t c id a root) none_read in
      (
        ap (λ x. x.1) answer,
        λ j.
            ap (λ x. l.view x.0 j) answer
            ∙ l.removed k j v
            ∙ ap (λ o. if eqb k j then none else o) (kept j ∙ same j),
      )
