-- ===== src/Disk/Store.antt =====
-- engine/disk/disk.go: the tier over a volume. What the operating system refuses is given for each
-- call, as is the clock and the address of a new entry. A temporary file of `Put` is not in the
-- tree before its rename, and is removed when a step before that fails.
pub mod Roundtrip
pub mod Sample
mod Tests
use ci_cache.Base.{
  Bool, Bytes, List, Option, Text, [], add64, codes, eqb, false, if◌then◌else◌, insert, is_some,
  leb, length, lookup, ltb, map, none, not, some, starts_with, take, true, ℕ, ◌&&◌, ◌++◌, ◌==◌,
  ◌||◌, ◌∷◌,
}
use mathlib.Core.Option
use ci_cache.Base
use ci_cache.Tier.{
  Error, Got, Meta, Reader, Stated, Tier, exists, failed, found, has, join, lacks, not_found, other,
  sentinel, wrap,
}
use ci_cache.Tier
use ci_cache.Disk.Header.{Header, Json, decode_header, encode_header, header_size}
use ci_cache.Disk.Index.{Entry, add_if_absent, remove, set, touch}
use ci_cache.Disk.Volume.{Disk, entries}

-- The bytes of a front-end's name that a directory may have.
abbrev pub is_plain : ℕ → Bool
is_plain c =
    (leb 97 c && leb c 122)
    || (leb 65 c && leb c 90)
    || (leb 48 c && leb c 57)
    || c == 45
    || c == 95

abbrev pub all_plain : Text → Bool
all_plain [] = true
all_plain (c ∷ s) = is_plain c && all_plain s

unfoldable pub first_segment : Text → Text
first_segment [] = []
first_segment (c ∷ s) = let rest = first_segment s in if c == 47 then [] else c ∷ rest

-- `frontendDir`.
unfoldable pub frontend_dir : Text → Text
unfolding first_segment
frontend_dir key =
    let seg = first_segment key in
    if eqb seg [] || ltb 64 (length seg)
    then codes "_"
    else if all_plain seg
    then seg
    else codes "_"

-- `pathFor`, with the volume's directory and the hexadecimal digest of a key.
unfoldable pub path_for : Text → (Text → Text) → Text → Text
path_for dir digest key =
    dir ++ 47 ∷ (frontend_dir key ++ 47 ∷ (take 2 (digest key) ++ 47 ∷ digest key))

-- `metaOf`.
unfoldable pub meta_of : Header → Meta
meta_of h = record {
  size = h.size;
  mod_time = h.mod_time;
  content_type = h.content_type;
  immutable = h.immutable;
}

-- What the operating system refuses during one call; a context that is done is one of these.
pub record Faults : Type 0 where
  pub cancelled : Option Error
  pub open_fails : Option Error
  pub unreadable : Bool
  -- The steps of `Put` before its body is copied, and those from then on.
  pub before_copy : List (Option Error)
  pub after_copy : List (Option Error)

unfoldable pub first_of : List (Option Error) → Option Error
first_of [] = none
first_of (none ∷ es) = first_of es
first_of (some e ∷ es) = some e

abbrev pub empty_key : Text → Option Error
empty_key [] = some (other (codes "disk: empty key"))
empty_key (c ∷ s) = none

abbrev pub no_meta : Meta
no_meta = record { size = 0; mod_time = 0; content_type = []; immutable = false }

abbrev pub stuck_error : Error
stuck_error = wrap [] (other (codes "disk: remove"))

-- `errors.Join` of an error that may be nil and another.
abbrev pub joined : Option Error → Error → Option Error
joined none e = some e
joined (some d) e = some (join d e)

abbrev pub header_error : Error
header_error = other (codes "disk: encode header")

-- The state that the tier and its collector share: `S` has the disk and whatever else the
-- collector keeps. Without a collector, `admit` accepts and `notify` does nothing.
pub record Host (S : Type 0) : Type 0 where
  pub disk : S → Disk
  pub with_disk : Disk → S → S
  pub admit : ℕ → S → S × Option Error
  pub notify : S → S

unfoldable pub entry_of : Text → Header → (at : ℕ) → Entry
entry_of key h at = record {
  key = key;
  frontend = frontend_dir key;
  size = h.size;
  on_disk = add64 header_size h.size;
  last_access = at;
  immutable = h.immutable;
}

abbrev pub header_for : Text → (size : ℕ) → Meta → Header
header_for key size m = record {
  key = key;
  size = size;
  mod_time = m.mod_time;
  content_type = m.content_type;
  immutable = m.immutable;
}

unfoldable pub encode_error : Option Bytes → Option Error
encode_error none = some header_error
encode_error (some b) = none

-- The header and body of the file, if it can be read and is that key's.
unfoldable pub readable : Json → (unreadable : Bool) → Text → Bytes → Option (Header × Bytes)
readable j bad key file = if bad then none else elim (decode_header j file) [
  | none ↦ none
  | some (h, rest) ↦ if eqb h.key key then some (h, rest) else none
]

-- What `Get` and `Stat` do up to the answer: the header and the body, or why there is none.
pub data Opened : Type 0 where
  opened : Header → Bytes → Opened
  not_opened : Error → Opened

module _ (j : Json) (path : Text → Text) (stuck : Text → Bool) where
  -- `observe`, with the address of the entry that it may add.
  unfoldable pub observe : Text → Header → (at : ℕ) → (p : ℕ) → Disk → Disk
  observe key h at p d =
      let (touched, known) = touch key at d.idx in
      if known
      then record d { idx = touched }
      else record d { idx = (add_if_absent p (entry_of key h at) d.idx).0 }

  -- `discard`.
  unfoldable pub discard : Text → Disk → Disk
  discard key d = record {
    idx = (remove key d.idx).0;
    files = if stuck (path key) then d.files else Base.delete (path key) d.files;
  }

  unfoldable pub open_object : Faults → Text → (at p : ℕ) → Disk → Disk × Opened
  open_object f key at p d =
      elim (first_of (f.cancelled ∷ Option.map (wrap []) f.open_fails ∷ [])) [
        | some e ↦ (d, not_opened e)
        | none ↦ elim (lookup (path key) d.files) [
          | none ↦ (d, not_opened (sentinel not_found))
          | some file ↦ elim (readable j f.unreadable key file) [
            | none ↦ (discard key d, not_opened (sentinel not_found))
            | some (h, body) ↦ (observe key h at p d, opened h body)
          ]
        ]
      ]

  abbrev answer_get : Disk × Opened → Disk × Got
  answer_get (d, not_opened e) = (d, failed e)
  answer_get (d, opened h body) =
      (d, found (record { content = take h.size body; broken = none }) (meta_of h))

  abbrev answer_stat : Disk × Opened → Disk × Stated
  answer_stat (d, not_opened e) = (d, lacks e)
  answer_stat (d, opened h body) = (d, Tier.has (meta_of h))

  unfoldable pub get : Faults → Text → (at p : ℕ) → Disk → Disk × Got
  unfolding open_object
  get f key at p d = answer_get (open_object f key at p d)

  unfoldable pub stat : Faults → Text → (at p : ℕ) → Disk → Disk × Stated
  unfolding open_object
  stat f key at p d = answer_stat (open_object f key at p d)

  -- `Delete`.
  unfoldable pub delete : Text → Disk → Disk × Option Error
  delete key d =
      let d' : Disk = record d { idx = (remove key d.idx).0 } in
      let there = is_some (lookup (path key) d.files) in
      if stuck (path key)
      then (d', if there then some stuck_error else none)
      else (record d' { files = Base.delete (path key) d.files }, none)

  -- The loop of `DeletePrefix` over a snapshot's keys: the disk, the objects and bytes removed, and
  -- the errors, joined as they come.
  unfoldable pub delete_each :
      (prefix : Text)
      → List Text
      → (entries freed : ℕ) → Option Error
      → Disk
      → Disk × ℕ × ℕ × Option Error
  delete_each prefix [] entries freed errs d = (d, entries, freed, errs)
  delete_each prefix (k ∷ ks) entries freed errs d =
      let (ix, was) = remove k d.idx in
      let d' : Disk = record d { idx = ix } in
      let gone : Disk = record d' { files = Base.delete (path k) d.files } in
      let skip = delete_each prefix ks entries freed errs d in
      let missing = delete_each prefix ks entries freed errs d' in
      if not (eqb prefix []) && not (starts_with k prefix) then skip else elim was [
        | none ↦ missing
        | some q ↦
            let kept = delete_each prefix ks entries freed (joined errs stuck_error) d' in
            let done =
              delete_each prefix ks (add64 entries 1) (add64 freed (ix.nodes q).on_disk) errs
                gone in
            if stuck (path k) && is_some (lookup (path k) d.files) then kept else done
      ]

  -- `DeletePrefix`, over the keys in the order in which Go happens to range over the map.
  unfoldable pub delete_prefix : Option Error → (prefix : Text) → Disk → Disk × ℕ × ℕ × Option Error
  unfolding delete_each
  delete_prefix cancelled prefix d = elim cancelled [
    | some e ↦ (d, 0, 0, some e)
    | none ↦ delete_each prefix (map (λ e. e.0) d.idx.m) 0 0 none d
  ]

  -- The rename of the file into place, and the entry in the index.
  unfoldable pub commit : Text → Header → Bytes → (at p : ℕ) → Disk → Disk
  commit key h file at p d = record {
    idx = set p (entry_of key h at) d.idx;
    files = insert (path key) file d.files;
  }

  module _ {S : Type 0} (host : Host S) where
    -- `Put` once the object is admitted.
    unfoldable pub write : Faults → Text → Reader → Meta → (at p : ℕ) → S → S × Option Error
    write f key r m at p s =
        let h = header_for key (length r.content) m in
        let placeholder = encode_error (encode_header j (header_for key 0 no_meta)) in
        elim (first_of (first_of f.before_copy ∷ placeholder ∷ r.broken ∷ [])) [
          | some e ↦ (s, some e)
          | none ↦ elim (encode_header j h) [
            | none ↦ (s, some header_error)
            | some b ↦ elim (first_of f.after_copy) [
              | some e ↦ (s, some e)
              | none ↦
                  let d = commit key h (b ++ r.content) at p (host.disk s) in
                  (host.notify (host.with_disk d s), none)
            ]
          ]
        ]

    abbrev admitted :
        Faults → Text → Reader → Meta → (at p : ℕ) → S × Option Error → S × Option Error
    admitted f key r m at p (s, some e) = (s, some e)
    admitted f key r m at p (s, none) = write f key r m at p s

    -- `Put`.
    unfoldable pub put : Faults → Text → Reader → Meta → (at p : ℕ) → S → S × Option Error
    unfolding write
    put f key r m at p s =
        let d = host.disk s in
        let touched : Disk = record d { idx = (touch key at d.idx).0 } in
        elim (first_of (f.cancelled ∷ empty_key key ∷ [])) [
          | some e ↦ (s, some e)
          | none ↦
              if m.immutable && is_some (lookup (path key) d.files)
              then (host.with_disk touched s, some (sentinel exists))
              else admitted f key r m at p (host.admit (add64 header_size m.size) s)
        ]
