-- ===== src/Bucket.antt =====
-- engine/bucket/bucket.go: the object store. The S3 client is a parameter, a function on the
-- store's state for each call, and so are the digest of a body, the format of a time, and what
-- fails when a large body is staged in a temporary file.
pub mod Metadata
pub mod Requests
pub mod Wipe
pub mod Roundtrip
mod Tests
use ci_cache.Base.{
  Bytes, Option, Text, [], eqb, if◌then◌else◌, length, ltb, none, some, ℕ, ◌*◌, ◌++◌, ◌^◌, ◌∷◌,
}
use ci_cache.Tier.{
  Error, Got, Meta, Reader, Stated, Tier, exists, failed, found, has, lacks, not_found, sentinel,
  wrap,
}
use ci_cache.Tier
use ci_cache.Bucket.Metadata.{TimeFormat, meta_from, metadata_for}
use ci_cache.Bucket.Requests.{
  ApiError, GetOutput, Head, HeadOutput, PutInput, S3, get_failed, head, head_failed, is_not_found,
  is_precondition_failed, list_failed, object, page,
}

pub record Bucket : Type 0 where
  pub bucket : Text
  pub prefix : Text

-- `objectKey`.
unfoldable pub object_key : Bucket → Text → Text
object_key b key = if eqb b.prefix [] then key else b.prefix ++ 47 ∷ key

-- `spillThreshold`.
abbrev pub spill_threshold : ℕ
spill_threshold = 8 * 2 ^ 20

-- `deleteBatch`.
abbrev pub delete_batch : ℕ
delete_batch = 1000

-- A body that was read whole, with its SHA-256, or the error.
pub data Staged : Type 0 where
  staged : Bytes → Text → Staged
  not_staged : Error → Staged

module _ (digest : Bytes → Text) (temp_fails : Bytes → Option Error) where
  -- `stage`: a short body stays in memory, and another goes through a temporary file.
  unfoldable pub stage : Reader → Staged
  stage r =
      let done = staged r.content (digest r.content) in
      elim r.broken [
        | some e ↦
            if ltb (length r.content) spill_threshold
            then not_staged e
            else elim (temp_fails r.content) [ some d ↦ not_staged d | none ↦ not_staged e ]
        | none ↦
            if ltb (length r.content) spill_threshold
            then done
            else elim (temp_fails r.content) [ some d ↦ not_staged d | none ↦ done ]
      ]

module _ (clock : TimeFormat) where
  -- The request of `Put`.
  unfoldable pub put_request : Bucket → Text → Bytes → Text → Meta → PutInput
  put_request b key body sum m = record {
    bucket = b.bucket;
    key = object_key b key;
    body = body;
    content_length = length body;
    checksum = sum;
    metadata = metadata_for clock m;
    content_type = if eqb m.content_type [] then none else some m.content_type;
    only_if_absent = m.immutable;
  }

  abbrev pub answered : Head → Meta
  answered h = meta_from clock h.metadata h.content_type h.content_length h.last_modified

  module _ {W : Type 0} (api : S3 W) (b : Bucket) where
    abbrev pub put_answer : Option ApiError → Option Error
    put_answer none = none
    put_answer (some e) =
        if is_precondition_failed e then some (sentinel exists) else some (wrap [] e.cause)

    abbrev pub put_staged : Text → Meta → Staged → W → W × Option Error
    put_staged key m (not_staged e) w = (w, some (wrap [] e))
    put_staged key m (staged body sum) w =
        let (w', err) = api.put_object (put_request b key body sum m) w in (w', put_answer err)

    unfoldable pub put :
        (digest : Bytes → Text)
        → (temp_fails : Bytes → Option Error) → Text
        → Reader
        → Meta
        → W
        → W × Option Error
    unfolding stage
    put digest temp_fails key r m w = put_staged key m (stage digest temp_fails r) w

    abbrev pub miss_or : ApiError → Error
    miss_or e = if is_not_found e then sentinel not_found else wrap [] e.cause

    abbrev pub get_answer : GetOutput → Got
    get_answer (object r h) = found r (answered h)
    get_answer (get_failed e) = failed (miss_or e)

    unfoldable pub get : Text → W → W × Got
    get key w = let (w', out) = api.get_object b.bucket (object_key b key) w in (w', get_answer out)

    abbrev stat_answer : HeadOutput → Stated
    stat_answer (head h) = Tier.has (answered h)
    stat_answer (head_failed e) = lacks (miss_or e)

    unfoldable pub stat : Text → W → W × Stated
    stat key w =
        let (w', out) = api.head_object b.bucket (object_key b key) w in (w', stat_answer out)

    abbrev delete_answer : Option ApiError → Option Error
    delete_answer none = none
    delete_answer (some e) = if is_not_found e then none else some (wrap [] e.cause)

    unfoldable pub delete : Text → W → W × Option Error
    delete key w =
        let (w', err) = api.delete_object b.bucket (object_key b key) w in (w', delete_answer err)

    -- `Reachable`.
    unfoldable pub reachable : W → W × Option Error
    reachable w =
        let (w', out) = api.list_objects b.bucket b.prefix none 1 w in
        (w', elim out [ page p ↦ none | list_failed e ↦ some (wrap [] e.cause) ])
