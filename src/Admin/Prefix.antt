-- ===== src/Admin/Prefix.antt =====
-- admin/rpc.go: which prefixes of the bucket may be wiped. The regular expression `bucketPrefix` is
-- read piece by piece between the slashes.
use ci_cache.Base.{
  Bool, List, Text, [], codes, eqb, false, is_digit, is_filled, leb, true, ℕ, ◌&&◌, ◌==◌, ◌||◌, ◌∷◌,
}
use ci_cache.Gomod.Names.Strings.{split}

abbrev pub is_lower : ℕ → Bool
is_lower c = leb 97 c && leb c 122

-- `[a-z0-9-]` and `[a-z0-9._=@-]`.
abbrev pub is_head_char : ℕ → Bool
is_head_char c = is_lower c || (is_digit c || c == 45)

abbrev pub is_segment_char : ℕ → Bool
is_segment_char c = is_head_char c || (c == 46 || (c == 95 || (c == 61 || c == 64)))

abbrev pub all_chars : (ℕ → Bool) → Text → Bool
all_chars p [] = true
all_chars p (c ∷ s) = p c && all_chars p s

-- `[a-z][a-z0-9-]*`.
abbrev pub is_head : Text → Bool
is_head [] = false
is_head (c ∷ s) = is_lower c && all_chars is_head_char s

-- `(/[a-z0-9._=@-]+)*/`, of the pieces after the first slash.
abbrev pub is_tail : List Text → Bool
is_tail [] = false
is_tail (p ∷ []) = eqb p []
is_tail (p ∷ q ∷ ps) = is_filled p && (all_chars is_segment_char p && is_tail (q ∷ ps))

abbrev pub is_pieces : List Text → Bool
is_pieces [] = false
is_pieces (p ∷ ps) = is_head p && is_tail ps

-- `bucketPrefix`.
unfoldable pub is_bucket_prefix : Text → Bool
is_bucket_prefix s = is_pieces (split 47 s)

-- The loop over the segments.
abbrev pub any_dots : List Text → Bool
any_dots [] = false
any_dots (s ∷ ss) = eqb s (codes ".") || (eqb s (codes "..") || any_dots ss)
