-- ===== src/Bucket/Roundtrip.antt =====
-- engine/bucket/bucket.go: what `Put` has written is what `Get` reads.
use ci_cache.Base.{
  Bool, Bool-cases, Bytes, Option, Option-cases, Text, [], ap, arith, eqb, false, if◌then◌else◌,
  inl, inr, is_filled, length, lookup, ltb, none, refl, some, sym, true, ℕ, ◌<◌, ◌==◌, ◌∙◌, ◌∷◌,
  ◌≡◌, ◌⊎◌,
}
use ci_cache.Tier.{Error, Meta, Reader, found, wrap}
use ci_cache.Bucket.{
  Bucket, answered, get, get_answer, not_staged, put, put_answer, put_request, put_staged,
  spill_threshold, stage, staged,
}
use ci_cache.Bucket.Metadata.{
  IsTimeFormat, TimeFormat, equal_fold, lookup_fold, lookup_name, meta_from, meta_immutable,
  meta_mod_time, metadata_for, or_default, true_text, year_10000,
}
use ci_cache.Bucket.Requests.{ApiError, Head, PutInput, S3, UserData, object}

no_time :
    (b : Bool) → lookup_name (if b then (meta_immutable, true_text) ∷ [] else []) meta_mod_time ≡ []
unfolding lookup_name lookup lookup_fold equal_fold eqb
no_time true = refl
no_time false = refl

fixed_name :
    (b : Bool)
    → eqb
        (lookup_name (if b then (meta_immutable, true_text) ∷ [] else []) meta_immutable)
        true_text
      ≡ b
unfolding lookup_name lookup lookup_fold equal_fold eqb
fixed_name true = refl
fixed_name false = refl

timed_name :
    (v : Text) (b : Bool)
    → (lookup_name
          ((meta_mod_time, v) ∷ (if b then (meta_immutable, true_text) ∷ [] else []))
          meta_mod_time
        ≡ v)
      × (eqb
            (lookup_name
              ((meta_mod_time, v) ∷ (if b then (meta_immutable, true_text) ∷ [] else []))
              meta_immutable)
            true_text
          ≡ b)
unfolding lookup_name lookup lookup_fold equal_fold eqb
timed_name v true = (refl, refl)
timed_name v false = (refl, refl)

filled-eqb : (v : Text) → is_filled v ≡ true → eqb v [] ≡ false
unfolding eqb
filled-eqb [] h = cc
filled-eqb (c ∷ v) h = refl

-- The type that a store records: its own where none is sent.
abbrev pub stored_type : Option Text → Option Text → Option Text
stored_type none default = default
stored_type (some t) default = some t

type_back :
    (t : Text) (default : Option Text)
    → or_default (stored_type (if eqb t [] then none else some t) default) []
      ≡ (if eqb t [] then or_default default [] else t)
unfolding eqb
type_back [] default = refl
type_back (c ∷ t) default = refl

-- What is read, by the values of the two names, the time they give, and the type.
read_names :
    (c : TimeFormat) (md : UserData) (t : Option Text) (n : ℕ) (stored : Option ℕ)
    → (v : Text) (i : Bool) (at : ℕ) (type : Text) → lookup_name md meta_mod_time ≡ v
    → eqb (lookup_name md meta_immutable) true_text ≡ i
    → (let parsed = if eqb v [] then 0 else or_default (c.parse v) 0 in
        if parsed == 0 then or_default stored parsed else parsed)
      ≡ at
    → or_default t [] ≡ type
    → meta_from c md t (some n) stored
      ≡ record { size = n; mod_time = at; content_type = type; immutable = i }
unfolding meta_from
read_names c md t n stored v i at type p q r s = rw (meta_from, p, q, r, s) refl

-- The time that is read where none was sent.
time_unset :
    (c : TimeFormat) (at : Option ℕ)
    → let parsed = if eqb [] [] then 0 else or_default (c.parse []) 0 in
      (if parsed == 0 then or_default at parsed else parsed) ≡ or_default at 0
unfolding eqb
time_unset c at = refl

time_set :
    (c : TimeFormat) (at : Option ℕ) (n : ℕ)
    → IsTimeFormat c
    → n < year_10000
    → n == 0 ≡ false
    → let v = c.format n in
      let parsed = if eqb v [] then 0 else or_default (c.parse v) 0 in
      (if parsed == 0 then or_default at parsed else parsed) ≡ n
time_set c at n law early h =
    rw (filled-eqb (c.format n) (law.prints n), law.reads_back n early, h) refl

-- What a store answers for an object: its own modification time, and its own type where none was
-- sent.
abbrev pub head_of : PutInput → (type : Option Text) → (stored : Option ℕ) → Head
head_of sent type stored = record {
  metadata = sent.metadata;
  content_type = stored_type sent.content_type type;
  content_length = some sent.content_length;
  last_modified = stored;
}

-- A store that answers, for an object it has just accepted, the bytes and the metadata sent.
pub record Serves {W : Type 0} (api : S3 W) : Type 0 where
  pub type : PutInput → Option Text
  pub stored : PutInput → W → Option ℕ
  pub serves :
      (i : PutInput) (w : W)
      → (api.put_object i w).1 ≡ none
      → (api.get_object i.bucket i.key (api.put_object i w).0).1
        ≡ object (record { content = i.body; broken = none }) (head_of i (type i) (stored i w))

-- What is read of the metadata that was sent.
abbrev pub returned : Meta → (n : ℕ) → (type : Option Text) → (stored : Option ℕ) → Meta
returned m n type stored = record {
  size = n;
  mod_time = if m.mod_time == 0 then or_default stored 0 else m.mod_time;
  content_type = if eqb m.content_type [] then or_default type [] else m.content_type;
  immutable = m.immutable;
}

meta_from-put_request :
    (c : TimeFormat) (b : Bucket) (key : Text) (body : Bytes) (sum : Text) (m : Meta)
    (own : Option Text) (stored : Option ℕ)
    → IsTimeFormat c
    → m.mod_time < year_10000
    → answered c (head_of (put_request c b key body sum m) own stored)
      ≡ returned m (length body) own stored
unfolding put_request metadata_for
meta_from-put_request c b key body sum m own stored law early =
    let fixed : UserData = if m.immutable then (meta_immutable, true_text) ∷ [] else [] in
    let type : Option Text =
      stored_type (if eqb m.content_type [] then none else some m.content_type) own in
    let read_type = if eqb m.content_type [] then or_default own [] else m.content_type in
    elim (Bool-cases (m.mod_time == 0)) [
      | inl unset ↦
          rw (put_request, metadata_for, unset)
            (read_names c fixed type (length body) stored [] m.immutable (or_default stored 0)
              read_type (no_time m.immutable) (fixed_name m.immutable) (time_unset c stored)
              (type_back m.content_type own))
      | inr set ↦
          let v = c.format m.mod_time in
          rw (put_request, metadata_for, set)
            (read_names c ((meta_mod_time, v) ∷ fixed) type (length body) stored v m.immutable
              m.mod_time read_type (timed_name v m.immutable).0 (timed_name v m.immutable).1
              (time_set c stored m.mod_time law early set) (type_back m.content_type own))
    ]

module _ (digest : Bytes → Text) (temp_fails : Bytes → Option Error) where
  -- A body that was staged ended well, and is staged whole.
  stage-cases :
      (r : Reader)
      → ((e : Error) × (stage digest temp_fails r ≡ not_staged e))
        ⊎ (stage digest temp_fails r ≡ staged r.content (digest r.content))
  unfolding stage
  stage-cases r = elim (Option-cases r.broken) [
    | inr (e, h) ↦ elim (Bool-cases (ltb (length r.content) spill_threshold)) [
      | inl short ↦ inl (e, rw (stage, h, short) refl)
      | inr long ↦ elim (Option-cases (temp_fails r.content)) [
        | inl k ↦ inl (e, rw (stage, h, long, k) refl)
        | inr (d, k) ↦ inl (d, rw (stage, h, long, k) refl)
      ]
    ]
    | inl h ↦ elim (Bool-cases (ltb (length r.content) spill_threshold)) [
      | inl short ↦ inr (rw (stage, h, short) refl)
      | inr long ↦ elim (Option-cases (temp_fails r.content)) [
        | inl k ↦ inr (rw (stage, h, long, k) refl)
        | inr (d, k) ↦ inl (d, rw (stage, h, long, k) refl)
      ]
    ]
  ]

  module _ (c : TimeFormat) {W : Type 0} (api : S3 W) (b : Bucket) where
    put_answer-none : (e : Option ApiError) → put_answer c api b e ≡ none → e ≡ none
    put_answer-none none h = refl
    put_answer-none (some e) h = absurd (ground (arith, h))

    -- What a `Put` that returned no error has written is what `Get` reads of a store that answers what it has accepted: the bytes, their number, whether it is immutable, the modification time, up to the year 9999, or the store's own if none was set, and the content type, or the store's own if none was given.
    pub get-put_stored :
        (key : Text) (r : Reader) (m : Meta) (w : W) (s : Serves api)
        → IsTimeFormat c
        → m.mod_time < year_10000
        → (put c api b digest temp_fails key r m w).1 ≡ none
        → let sent = put_request c b key r.content (digest r.content) m in
          (get c api b key (put c api b digest temp_fails key r m w).0).1
          ≡ found
              (record { content = r.content; broken = none })
              (returned m (length r.content) (s.type sent) (s.stored sent w))
    unfolding put get put_request
    get-put_stored key r m w s law early ok = elim (stage-cases r) [
      | inl (e, h) ↦
          let fails : (put c api b digest temp_fails key r m w).1 ≡ some (wrap [] e) =
            rw (put, h) refl in
          absurd (cc)
      | inr h ↦
          let sent = put_request c b key r.content (digest r.content) m in
          let is : put c api b digest temp_fails key r m w
              ≡ put_staged c api b key m (staged r.content (digest r.content)) w =
            rw (put, h) refl in
          let took = put_answer-none (api.put_object sent w).1 (sym (ap (λ x. x.1) is) ∙ ok) in
          ap (λ x. (get c api b key x.0).1) is
          ∙ ap (get_answer c api b) (s.serves sent w took)
          ∙ ap (found (record { content = r.content; broken = none })) (
              meta_from-put_request c b key r.content (digest r.content) m (s.type sent)
                (s.stored sent w) law early)
    ]
