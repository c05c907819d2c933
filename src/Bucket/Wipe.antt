-- ===== src/Bucket/Wipe.antt =====
-- engine/bucket/bucket.go, `DeletePrefix`: the listing is read page by page, and the keys are
-- deleted in batches across the pages. The loop over the pages has fuel.
pub mod Batches
pub mod Complete
mod Tests
use ci_cache.Base.{
  List, Option, Text, [], add64, codes, false, if◌then◌else◌, length, none, some, suc, zero, ℕ,
  ◌++◌, ◌==◌, ◌∷◌,
}
use ci_cache.Tier.{Error, other, wrap}
use ci_cache.Bucket.{Bucket, delete_batch, object_key}
use ci_cache.Bucket.Metadata.{or_default}
use ci_cache.Bucket.Requests.{
  DeleteOutput, Listed, Page, S3, batch_failed, deleted, list_failed, page,
}

-- The variables of `DeletePrefix`.
pub record Wipe : Type 0 where
  pub pending : List Text
  pub pending_bytes : ℕ
  pub entries : ℕ
  pub removed : ℕ

abbrev pub nothing_yet : Wipe
nothing_yet = record { pending = []; pending_bytes = 0; entries = 0; removed = 0 }

abbrev pub refused_keys : Error
refused_keys = other (codes "bucket: refused")

abbrev pub flushed : Wipe → DeleteOutput → Wipe × Option Error
flushed acc (batch_failed e) = (acc, some (wrap [] e.cause))
flushed acc (deleted (k ∷ ks)) = (acc, some refused_keys)
flushed acc (deleted []) = (
  record acc {
    pending = [];
    pending_bytes = 0;
    entries = add64 acc.entries (length acc.pending);
    removed = add64 acc.removed acc.pending_bytes;
  },
  none,
)

-- Another key for the batch.
unfoldable pub note : Listed → Wipe → Wipe
note o acc = record acc {
  pending = acc.pending ++ o.key ∷ [];
  pending_bytes = add64 acc.pending_bytes (or_default o.size 0);
}

-- Whether there is a next page, and its token.
unfoldable pub next_token : Page → Option Text
next_token p = if or_default p.truncated false then p.next else none

module _ {W : Type 0} (api : S3 W) (b : Bucket) where
  unfoldable pub flush : Wipe → W → W × Wipe × Option Error
  flush acc w =
      let (w', out) = api.delete_objects b.bucket acc.pending w in
      let (acc', err) = flushed acc out in
      if length acc.pending == 0 then (w, acc, none) else (w', acc', err)

  -- The flush when a batch is full.
  unfoldable pub flush_full : Wipe → W → W × Wipe × Option Error
  flush_full acc w = if length acc.pending == delete_batch then flush acc w else (w, acc, none)

  abbrev pub unless_failed :
      (Wipe → W → W × Wipe × Option Error) → W × Wipe × Option Error → W × Wipe × Option Error
  unless_failed go_on (w, acc, some e) = (w, acc, some e)
  unless_failed go_on (w, acc, none) = go_on acc w

  unfoldable pub add_all : List Listed → Wipe → W → W × Wipe × Option Error
  unfolding note flush_full flush
  add_all [] acc w = (w, acc, none)
  add_all (o ∷ os) acc w = unless_failed (add_all os) (flush_full (note o acc) w)

  -- The end of a round: the next page, or the last flush.
  unfoldable pub page_done :
      (Option Text → Wipe → W → Option (W × Wipe × Option Error))
      → Page
      → W × Wipe × Option Error
      → Option (W × Wipe × Option Error)
  page_done again p (w, acc, some e) = some (w, acc, some e)
  page_done again p (w, acc, none) = elim (next_token p) [
    | none ↦ some (flush acc w)
    | some t ↦ again (some t) acc w
  ]

  -- The loop over the pages, from a token on; none means that the fuel ran out.
  unfoldable pub pages :
      (fuel : ℕ) → (prefix : Text) → Option Text → Wipe → W → Option (W × Wipe × Option Error)
  unfolding add_all flush next_token page_done
  pages zero prefix token acc w = none
  pages (suc f) prefix token acc w =
      let (w1, out) = api.list_objects b.bucket (object_key b prefix) token delete_batch w in
      elim out [
        | list_failed e ↦ some (w1, acc, some (wrap [] e.cause))
        | page p ↦ page_done (pages f prefix) p (add_all p.contents acc w1)
      ]

  -- `DeletePrefix`: the state, the objects and bytes removed, and the error.
  unfoldable pub delete_prefix : (fuel : ℕ) → Text → W → Option (W × ℕ × ℕ × Option Error)
  unfolding pages
  delete_prefix fuel prefix w = elim (pages fuel prefix none nothing_yet w) [
    | none ↦ none
    | some (w', acc, err) ↦ some (w', acc.entries, acc.removed, err)
  ]
