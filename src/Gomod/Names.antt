-- ===== src/Gomod/Names.antt =====
-- frontend/gomod/cacher.go: the names that goproxy caches under, and how long each is believed.
pub mod Strings
pub mod Versions
use ci_cache.Base.{
  Bool, List, Option, Text, [], codes, eqb, false, if◌then◌else◌, is_digit, none, not, some,
  starts_with, true, ◌&&◌, ◌==◌, ◌||◌, ◌∷◌,
}
use ci_cache.Gomod.Names.Strings.{
  all_digits, contains, cut_byte, cut_last, ends_with, ext, split, trim_suffix,
}

pub data EntryKind : Type 0 where
  immutable ttl : EntryKind

-- The Boolean loop of `canonicalVersion` over the parts: no leading zero, and digits only.
unfoldable pub is_part : Text → Bool
is_part [] = false
is_part (c ∷ []) = is_digit c
is_part (c ∷ d ∷ s) = not (c == 48) && (is_digit c && all_digits (d ∷ s))

-- What is left of a version before its pre-release, if that is not an empty one.
abbrev pub before_pre_release : Text → Option (Text × Text) → Option Text
before_pre_release s none = some s
before_pre_release s (some (a, [])) = none
before_pre_release s (some (a, c ∷ r)) = some a

abbrev pub without_pre_release : Text → Option Text
without_pre_release s = before_pre_release s (cut_byte 45 s)

abbrev pub three_parts : List Text → Bool
three_parts (a ∷ b ∷ c ∷ []) = is_part a && (is_part b && is_part c)
three_parts _ = false

abbrev pub core_ok : Option Text → Bool
core_ok none = false
core_ok (some s) = not (contains 43 s) && three_parts (split 46 s)

abbrev pub after_v : Text → Bool
after_v [] = false
after_v (c ∷ s) = c == 118 && core_ok (without_pre_release s)

-- `canonicalVersion`.
unfoldable pub canonical_version : Text → Bool
unfolding is_part
canonical_version v = after_v (trim_suffix v (codes "+incompatible"))

-- The file part, of what is before and after the last "/@v/".
abbrev pub file_of : Option (Text × Text) → Option Text
file_of none = none
file_of (some (a, file)) = if eqb file [] || contains 47 file then none else some file

-- `cutModuleFile`.
unfoldable pub cut_module_file : Text → Option Text
cut_module_file name = file_of (cut_last (codes "/@v/") name)

abbrev pub is_module_ext : Text → Bool
is_module_ext e = eqb e (codes ".info") || (eqb e (codes ".mod") || eqb e (codes ".zip"))

abbrev pub file_kind : Option Text → EntryKind
file_kind none = ttl
file_kind (some base) =
    if is_module_ext (ext base) && canonical_version (trim_suffix base (ext base))
    then immutable
    else ttl

-- `classify`.
unfoldable pub classify : Text → EntryKind
unfolding cut_module_file
classify name =
    if starts_with name (codes "sumdb/")
    then if ends_with name (codes "/latest") then ttl else immutable
    else if ends_with name (codes "/@latest") || ends_with name (codes "/@v/list")
    then ttl
    else file_kind (cut_module_file name)

-- `contentType`.
unfoldable pub content_type_of : Text → Text
content_type_of name =
    if ends_with name (codes ".zip")
    then codes "application/zip"
    else if ends_with name (codes ".info") || ends_with name (codes "/@latest")
    then codes "application/json; charset=utf-8"
    else codes "text/plain; charset=utf-8"

abbrev pub is_segment : Text → Bool
is_segment s = not (eqb s [] || (eqb s (codes ".") || eqb s (codes "..")))

abbrev pub all_segments : List Text → Bool
all_segments [] = true
all_segments (s ∷ ss) = is_segment s && all_segments ss

-- `validName`: whether it returns no error.
unfoldable pub valid_name : Text → Bool
valid_name name =
    not (eqb name [])
    && (not (starts_with name (47 ∷ []) || ends_with name (47 ∷ []))
        && all_segments (split 47 name))
