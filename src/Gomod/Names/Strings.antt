-- ===== src/Gomod/Names/Strings.antt =====
-- What frontend/gomod/cacher.go uses of Go's strings and path packages.
pub mod Cuts
use ci_cache.Base.{
  Bool, List, Option, Text, [], false, if◌then◌else◌, is_digit, is_filled, is_some, none, not,
  reverse, some, true, ℕ, ◌&&◌, ◌==◌, ◌||◌, ◌∷◌,
}

unfoldable pub strip_prefix : Text → (p : Text) → Option Text
strip_prefix s [] = some s
strip_prefix [] (y ∷ p) = none
strip_prefix (x ∷ s) (y ∷ p) = let rest = strip_prefix s p in if x == y then rest else none

abbrev reversed : Option Text → Option Text
reversed none = none
reversed (some s) = some (reverse s)

unfoldable pub strip_suffix : Text → (p : Text) → Option Text
unfolding strip_prefix
strip_suffix s p = reversed (strip_prefix (reverse s) (reverse p))

-- `strings.HasSuffix`.
abbrev pub ends_with : Text → Text → Bool
ends_with s p = is_some (strip_suffix s p)

abbrev or_whole : Text → Option Text → Text
or_whole s none = s
or_whole s (some r) = r

-- `strings.TrimSuffix`.
abbrev pub trim_suffix : Text → Text → Text
trim_suffix s p = or_whole s (strip_suffix s p)

unfoldable pub contains : ℕ → Text → Bool
contains c [] = false
contains c (d ∷ s) = d == c || contains c s

abbrev cut_later : ℕ → Option (Text × Text) → Option (Text × Text)
cut_later d none = none
cut_later d (some (a, b)) = some (d ∷ a, b)

-- What is before and after the first byte `c`.
unfoldable pub cut_byte : ℕ → Text → Option (Text × Text)
cut_byte c [] = none
cut_byte c (d ∷ s) = let rest = cut_byte c s in if d == c then some ([], s) else cut_later d rest

abbrev cut_here : ℕ → (later : Option (Text × Text)) → (here : Option Text) → Option (Text × Text)
cut_here c (some (a, b)) here = some (c ∷ a, b)
cut_here c none none = none
cut_here c none (some r) = some ([], r)

-- What is before and after the last `sep`, by `strings.LastIndex`.
unfoldable pub cut_last : (sep : Text) → Text → Option (Text × Text)
unfolding strip_prefix
cut_last sep [] = none
cut_last sep (c ∷ s) = cut_here c (cut_last sep s) (strip_prefix (c ∷ s) sep)

abbrev onto_first : ℕ → List Text → List Text
onto_first c [] = (c ∷ []) ∷ []
onto_first c (p ∷ ps) = (c ∷ p) ∷ ps

-- `strings.Split` at a byte.
unfoldable pub split : ℕ → Text → List Text
split c [] = [] ∷ []
split c (d ∷ s) = let rest = split c s in if d == c then [] ∷ rest else onto_first d rest

-- `path.Ext`.
unfoldable pub ext : Text → Text
ext [] = []
ext (c ∷ s) =
    let e = ext s in if is_filled e then e else if c == 46 && not (contains 47 s) then c ∷ s else []

unfoldable pub all_digits : Text → Bool
all_digits [] = true
all_digits (c ∷ s) = is_digit c && all_digits s
