-- ===== src/Bucket/Requests.antt =====
-- What engine/bucket/bucket.go sends to an S3 store, and the answers it reads.
use ci_cache.Base.{Bool, Bytes, List, Option, Text, codes, eqb, ℕ, ◌==◌, ◌||◌}
use ci_cache.Tier.{Error, Reader}

-- An error of the client, by what the tier asks of it with errors.As: whether it is a typed
-- NoSuchKey or NotFound, the code of an API error (empty if it is none), and the status of an
-- HTTP response (0 if it is none).
pub record ApiError : Type 0 where
  pub typed_missing : Bool
  pub code : Text
  pub status : ℕ
  pub cause : Error

unfoldable pub is_not_found : ApiError → Bool
is_not_found e =
    e.typed_missing
    || (eqb e.code (codes "NoSuchKey") || eqb e.code (codes "NotFound"))
    || e.status == 404

unfoldable pub is_precondition_failed : ApiError → Bool
is_precondition_failed e = eqb e.code (codes "PreconditionFailed") || e.status == 412

-- User metadata.
abbrev pub UserData : Type 0
UserData = List (Text × Text)

pub record PutInput : Type 0 where
  pub bucket : Text
  pub key : Text
  pub body : Bytes
  pub content_length : ℕ
  pub checksum : Text
  pub metadata : UserData
  pub content_type : Option Text
  pub only_if_absent : Bool

pub record Head : Type 0 where
  pub metadata : UserData
  pub content_type : Option Text
  pub content_length : Option ℕ
  pub last_modified : Option ℕ

pub data GetOutput : Type 0 where
  object : Reader → Head → GetOutput
  get_failed : ApiError → GetOutput

pub data HeadOutput : Type 0 where
  head : Head → HeadOutput
  head_failed : ApiError → HeadOutput

pub record Listed : Type 0 where
  pub key : Text
  pub size : Option ℕ

-- A page, with the token of the next one unless it is the last.
pub record Page : Type 0 where
  pub contents : List Listed
  pub truncated : Option Bool
  pub next : Option Text

pub data ListOutput : Type 0 where
  page : Page → ListOutput
  list_failed : ApiError → ListOutput

-- The keys that a batch could not delete, or the failure of the whole batch.
pub data DeleteOutput : Type 0 where
  deleted : (errors : List Text) → DeleteOutput
  batch_failed : ApiError → DeleteOutput

pub record S3 (W : Type 0) : Type 0 where
  pub put_object : PutInput → W → W × Option ApiError
  pub get_object : (bucket key : Text) → W → W × GetOutput
  pub head_object : (bucket key : Text) → W → W × HeadOutput
  pub delete_object : (bucket key : Text) → W → W × Option ApiError
  pub delete_objects : (bucket : Text) → List Text → W → W × DeleteOutput
  pub list_objects : (bucket prefix : Text) → Option Text → (max : ℕ) → W → W × ListOutput
