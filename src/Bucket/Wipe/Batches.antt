-- ===== src/Bucket/Wipe/Batches.antt =====
-- A flush, and a page of keys added to the batch.
use ci_cache.Base.{
  ==_iff, All, Bool, Bool-cases, List, Option, Text, [], add64, ap, append-nil, append_assoc, arith,
  eqb, false, inl, inr, length, length-append, none, refl, some, sym, word, ℕ, ◌++◌, ◌+◌, ◌<◌, ◌==◌,
  ◌||◌, ◌∙◌, ◌∷◌, ◌≡◌, ◌≢◌, ◌≤◌,
}
use ci_cache.Bucket.{Bucket, delete_batch, object_key}
use ci_cache.Bucket.Metadata.{or_default}
use ci_cache.Bucket.Requests.{Listed, Page, S3, deleted, page}
use ci_cache.Bucket.Wipe.{
  Wipe, add_all, flush, flush_full, flushed, next_token, note, unless_failed,
}

abbrev pub bytes_of : List Listed → ℕ
bytes_of [] = 0
bytes_of (o ∷ os) = or_default o.size 0 + bytes_of os

abbrev pub keys_of : List Listed → List Text
keys_of [] = []
keys_of (o ∷ os) = o.key ∷ keys_of os

abbrev pub keys_all : List Page → List Text
keys_all [] = []
keys_all (p ∷ ps) = keys_of p.contents ++ keys_all ps

-- The pages that a listing has from a token on, by what the store answers to each token.
pub data Listing (answer : Option Text → Page) : Option Text → List Page → Type 0 where
  last : (t : Option Text) → next_token (answer t) ≡ none → Listing answer t (answer t ∷ [])
  more :
      (t : Option Text) (u : Text) (ps : List Page)
      → next_token (answer t) ≡ some u
      → Listing answer (some u) ps
      → Listing answer t (answer t ∷ ps)

unfoldable pub mem : Text → List Text → Bool
mem k [] = false
mem k (j ∷ js) = eqb k j || mem k js

-- None of the keys `ks` is among `gone`.
abbrev pub Apart : (gone ks : List Text) → Type 0
Apart gone ks = All (λ k. mem k gone ≡ false) ks

-- A store that has deleted the keys `gone`, in this order. A token's page is as `answer` says as
-- long as no key from it on has been deleted, whatever was deleted before it; and a batch of up to
-- a thousand keys is deleted whole.
pub record Obeys {W : Type 0} (api : S3 W) (b : Bucket) (prefix : Text)
    (answer : Option Text → Page) : Type 0 where
  pub gone : W → List Text
  pub lists :
      (t : Option Text) (ps : List Page) (w : W)
      → Listing answer t ps
      → Apart (gone w) (keys_all ps)
      → (api.list_objects b.bucket (object_key b prefix) t delete_batch w).1 ≡ page (answer t)
  pub lists_keep :
      (t : Option Text) (w : W)
      → gone (api.list_objects b.bucket (object_key b prefix) t delete_batch w).0 ≡ gone w
  pub deletes :
      (ks : List Text) (w : W)
      → length ks ≤ delete_batch
      → ((api.delete_objects b.bucket ks w).1 ≡ deleted [])
        × (gone (api.delete_objects b.bucket ks w).0 ≡ gone w ++ ks)

==_ne : (a c : ℕ) → (a == c) ≡ false → a ≢ c
==_ne a c h = ground arith

-- What was seen so far is what was removed and what is pending, and a batch is never full.
pub record Tally (acc : Wipe) (n m : ℕ) : Type 0 where
  pub counted : acc.entries + length acc.pending ≡ n
  pub weighed : acc.removed + acc.pending_bytes ≡ m
  pub part : length acc.pending < delete_batch
  pub clear : length acc.pending ≡ 0 → acc.pending_bytes ≡ 0

module _ {W : Type 0} (api : S3 W) (b : Bucket) (prefix : Text) (answer : Option Text → Page)
    (o : Obeys api b prefix answer) where
  -- A flush of a batch that is not too large empties it.
  pub flush_lem :
      (acc : Wipe) (w : W)
      → length acc.pending ≤ delete_batch
      → acc.entries + length acc.pending < word
      → acc.removed + acc.pending_bytes < word
      → (length acc.pending ≡ 0 → acc.pending_bytes ≡ 0)
      → (v : W) × (acc' : Wipe) × (flush api b acc w ≡ (v, acc', none))
        × (acc'.entries ≡ acc.entries + length acc.pending)
        × (acc'.removed ≡ acc.removed + acc.pending_bytes)
        × (length acc'.pending ≡ 0)
        × (acc'.pending_bytes ≡ 0)
        × (o.gone v ++ acc'.pending ≡ o.gone w ++ acc.pending)
  unfolding flush
  flush_lem acc w batch n m clear = elim (Bool-cases (length acc.pending == 0)) [
    | inl none_left ↦
        let nil : length acc.pending ≡ 0 = ground arith in
        (
          w,
          acc,
          rw (flush, none_left) refl,
          omega (arith, nil),
          omega (arith, clear nil, nil),
          nil,
          clear nil,
          refl,
        )
    | inr some_left ↦
        let (done, removed) = o.deletes acc.pending w batch in
        let e : add64 acc.entries (length acc.pending) ≡ acc.entries + length acc.pending =
          unfold add64 in omega arith in
        let r : add64 acc.removed acc.pending_bytes ≡ acc.removed + acc.pending_bytes =
          unfold add64 in omega arith in
        (
          (api.delete_objects b.bucket acc.pending w).0,
          (flushed acc (deleted [])).0,
          rw (flush, some_left, done) refl,
          e,
          r,
          refl,
          refl,
          append-nil _ ∙ removed,
        )
  ]

  -- One more key: the batch grows, or is flushed when it is full.
  note_lem :
      (k : Listed) (acc : Wipe) (n m : ℕ) (w : W)
      → Tally acc n m
      → n + 1 < word
      → m + or_default k.size 0 < word
      → (v : W) × (acc' : Wipe) × (flush_full api b (note k acc) w ≡ (v, acc', none))
        × Tally acc' (n + 1) (m + or_default k.size 0)
        × (o.gone v ++ acc'.pending ≡ (o.gone w ++ acc.pending) ++ k.key ∷ [])
  unfolding flush_full note
  note_lem k acc n m w t hn hm =
      let acc1 = note k acc in
      let grown = sym (append_assoc (o.gone w) acc.pending (k.key ∷ [])) in
      let len = length-append acc.pending (k.key ∷ []) in
      let sum : add64 acc.pending_bytes (or_default k.size 0)
          ≡ acc.pending_bytes + or_default k.size 0 =
        unfold add64 in omega (arith, t.weighed) in
      elim (Bool-cases (length acc1.pending == delete_batch)) [
        | inr room ↦
            let other : length acc1.pending ≢ delete_batch =
              (==_ne (length acc1.pending) delete_batch room) in
            (
              w,
              acc1,
              rw (flush_full, room) refl,
              record {
                counted = omega (arith, t.counted, len);
                weighed = omega (arith, t.weighed, sum);
                part = omega (arith, t.part, len, other);
                clear = λ z. absurd (omega (arith, len, z));
              },
              grown,
            )
        | inl full ↦
            let is : length acc1.pending ≡ delete_batch =
              (==_iff (length acc1.pending) delete_batch).0 full in
            let (v, acc', e, c, r, p, z, kept) =
              flush_lem acc1 w (omega (arith, is)) (omega (arith, t.counted, len))
                (omega (arith, t.weighed, sum)) (λ z. absurd (omega (arith, is, z))) in
            (
              v,
              acc',
              rw (flush_full, full) e,
              record {
                counted = omega (arith, c, t.counted, len, p);
                weighed = omega (arith, r, t.weighed, sum, z);
                part = omega (arith, p);
                clear = λ q. z;
              },
              kept ∙ grown,
            )
      ]

  pub add_all-Tally :
      (os : List Listed) (acc : Wipe) (n m : ℕ) (w : W)
      → Tally acc n m
      → n + length os < word
      → m + bytes_of os < word
      → (v : W) × (acc' : Wipe) × (add_all api b os acc w ≡ (v, acc', none))
        × Tally acc' (n + length os) (m + bytes_of os)
        × (o.gone v ++ acc'.pending ≡ (o.gone w ++ acc.pending) ++ keys_of os)
  unfolding add_all
  add_all-Tally [] acc n m w t hn hm = (
    w,
    acc,
    refl,
    record {
      counted = omega (arith, t.counted);
      weighed = omega (arith, t.weighed);
      part = t.part;
      clear = t.clear;
    },
    sym (append-nil _),
  )
  add_all-Tally (k ∷ os) acc n m w t hn hm =
      let (w1, acc1, e, t1, one) = note_lem k acc n m w t (omega arith) (omega arith) in
      let (v, acc', rest, t', others) =
        add_all-Tally os acc1 (n + 1) (m + or_default k.size 0) w1 t1 (omega arith) (omega arith) in
      (
        v,
        acc',
        ap (unless_failed api b (add_all api b os)) e ∙ rest,
        record {
          counted = omega (arith, t'.counted);
          weighed = omega (arith, t'.weighed);
          part = t'.part;
          clear = t'.clear;
        },
        others
            ∙ ap (λ l. l ++ keys_of os) one
            ∙ append_assoc (o.gone w ++ acc.pending) (k.key ∷ []) (keys_of os),
      )
