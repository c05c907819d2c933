-- ===== src/Admin.antt =====
-- admin/rpc.go: the operations of the administrative API on the disk and on the bucket, which are
-- records of functions on a state, as the interfaces of admin/deps.go. Counters, the caller's
-- address and logging are not modelled.
pub mod Prefix
pub mod Wipes
pub mod Keys
mod Tests
use ci_cache.Base.{
  Bool, List, Option, Text, [], codes, eqb, if◌then◌else◌, none, not, sle, slt, some, ℕ, ◌==◌, ◌||◌,
  ◌∷◌,
}
use ci_cache.Tier.{
  Error, Listed, Meta, Page, Stated, errors_is, has, lacks, not_found, not_listed, page,
}
use ci_cache.Gomod.Names.Strings.{ends_with, split, trim_suffix}
use ci_cache.Admin.Prefix.{any_dots, is_bucket_prefix}

-- A deletion: the objects and bytes removed, and the error.
pub record Deleted : Type 0 where
  pub entries : ℕ
  pub bytes : ℕ
  pub error : Option Error

-- `DiskInfo`.
pub record DiskInfo (W : Type 0) : Type 0 where
  pub stat : Text → W → W × Stated
  pub delete : Text → W → W × Option Error
  pub delete_prefix : Text → W → W × Deleted
  pub invalidate : Text → W → W × Deleted
  pub list : (prefix token : Text) → (size : ℕ) → W → W × Page

-- `Deps`; the bucket may be nil.
pub record Deps (W : Type 0) : Type 0 where
  pub disk : DiskInfo W
  pub bucket : Option (Text → W → W × Deleted)

pub data Failure : Type 0 where
  invalid_argument : Text → Failure
  failed_precondition : Text → Failure
  internal : Error → Failure

pub data Result (A : Type 0) : Type 0 where
  ok : A → Result A
  err : Failure → Result A

-- `removed`.
pub record Removed : Type 0 where
  pub entries : ℕ
  pub bytes : ℕ

abbrev pub removed : Deleted → Removed
removed d = record { entries = d.entries; bytes = d.bytes }

abbrev pub nothing_deleted : Option Error → Deleted
nothing_deleted e = record { entries = 0; bytes = 0; error = e }

abbrev pub default_page_size : ℕ
default_page_size = 100

abbrev pub max_page_size : ℕ
max_page_size = 1000

-- The page size of `List`, of an int32 that is extended to an int64.
unfoldable pub page_size : ℕ → ℕ
page_size n =
    if sle n 0 then default_page_size else if slt max_page_size n then max_page_size else n

-- An entry of the answer of `List`, without a time of access if it is the zero time.
pub record Shown : Type 0 where
  pub key : Text
  pub size : ℕ
  pub last_access : Option ℕ
  pub immutable : Bool

abbrev pub shown : Listed → Shown
shown e = record {
  key = e.key;
  size = e.size;
  last_access = if e.last_access == 0 then none else some e.last_access;
  immutable = e.immutable;
}

abbrev pub shown_all : List Listed → List Shown
shown_all [] = []
shown_all (e ∷ es) = shown e ∷ shown_all es

module _ {W : Type 0} (d : Deps W) where
  abbrev pub one_deleted : Meta → Option Error → Deleted
  one_deleted m none = record { entries = 1; bytes = m.size; error = none }
  one_deleted m (some e) =
      if errors_is e not_found
      then record { entries = 1; bytes = m.size; error = none }
      else nothing_deleted (some e)

  abbrev pub delete_found : Meta → W × Option Error → W × Deleted
  delete_found m (w, e) = (w, one_deleted m e)

  abbrev pub delete_stated : Text → W × Stated → W × Deleted
  delete_stated key (w, has m) = delete_found m (d.disk.delete key w)
  delete_stated key (w, lacks e) =
      (w, nothing_deleted (if errors_is e not_found then none else some e))

  -- `deleteOne`.
  unfoldable pub delete_one : Text → W → W × Deleted
  delete_one key w = delete_stated key (d.disk.stat key w)

  abbrev pub answer_of : Deleted → Result Removed
  answer_of x = elim x.error [ none ↦ ok (removed x) | some e ↦ err (internal e) ]

  abbrev pub answered : W × Deleted → W × Result Removed
  answered (w, x) = (w, answer_of x)

  -- `WipeDisk`.
  unfoldable pub wipe_disk : Text → W → W × Result Removed
  unfolding delete_one
  wipe_disk target w =
      if eqb target []
      then (w, err (invalid_argument (codes "prefix_or_key is empty")))
      else if ends_with target (47 ∷ [])
      then answered (d.disk.delete_prefix target w)
      else answered (delete_one target w)

  abbrev pub wiped_disk : Deleted → W × Deleted → W × Result (Removed × Removed)
  wiped_disk x (w, y) =
      (w, elim y.error [ none ↦ ok (removed x, removed y) | some e ↦ err (internal e) ])

  -- The rest of `WipeBucket` after the bucket's deletion, by its error.
  abbrev pub after_bucket : Text → W → Deleted → Option Error → W × Result (Removed × Removed)
  after_bucket prefix w x (some e) = (w, err (internal e))
  after_bucket prefix w x none = wiped_disk x (d.disk.delete_prefix prefix w)

  abbrev pub wiped_bucket : Text → W × Deleted → W × Result (Removed × Removed)
  wiped_bucket prefix (w, x) = after_bucket prefix w x x.error

  abbrev pub wipe_accepted :
      Text → Option (Text → W → W × Deleted) → W → W × Result (Removed × Removed)
  wipe_accepted prefix none w = (w, err (failed_precondition (codes "no bucket is configured")))
  wipe_accepted prefix (some b) w = wiped_bucket prefix (b prefix w)

  -- `WipeBucket`.
  unfoldable pub wipe_bucket : Text → W → W × Result (Removed × Removed)
  wipe_bucket prefix w =
      if eqb prefix [] || eqb prefix (47 ∷ [])
      then (w, err (invalid_argument (codes "refusing to wipe the whole bucket")))
      else if not (is_bucket_prefix prefix)
      then (w, err (invalid_argument (codes "not a cache key prefix")))
      else if any_dots (split 47 (trim_suffix prefix (47 ∷ [])))
      then (w, err (invalid_argument (codes "a path to resolve")))
      else wipe_accepted prefix d.bucket w

  -- `Invalidate`.
  unfoldable pub invalidate : Text → W → W × Result Removed
  invalidate prefix w = answered (d.disk.invalidate prefix w)

  abbrev pub listed : W × Page → W × Result (List Shown × Text)
  listed (w, page es next) = (w, ok (shown_all es, next))
  listed (w, not_listed e) = (w, err (internal e))

  -- `List`.
  unfoldable pub list : (prefix token : Text) → (size : ℕ) → W → W × Result (List Shown × Text)
  unfolding page_size
  list prefix token size w = listed (d.disk.list prefix token (page_size size) w)
