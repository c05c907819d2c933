-- ===== src/Gobuild/Record.antt =====
-- frontend/gobuild/gobuild.go: the ids and the action records.
use ci_cache.Base.{
  Bool, IsWord, List, Option, Text, [], ap, arith, fields, fields-two, format_int,
  format_int-IsWord, half_word, if◌then◌else◌, is_filled, leb, length, ltb, none, not, parse_int,
  parse_int-format_int, refl, some, true, word, ℕ, ◌%◌, ◌&&◌, ◌*◌, ◌++◌, ◌+◌, ◌-◌, ◌<◌, ◌==◌, ◌||◌,
  ◌∙◌, ◌∷◌, ◌≡◌, ◌≤◌,
}

-- The characters that `validID` lets through.
abbrev pub is_id_char : ℕ → Bool
is_id_char c =
    (leb 48 c && leb c 57)
    || (leb 97 c && leb c 122)
    || (leb 65 c && leb c 90)
    || c == 45
    || c == 95

abbrev pub all_id_chars : Text → Bool
all_id_chars [] = true
all_id_chars (c ∷ s) = is_id_char c && all_id_chars s

-- `validID`, as whether it returns nil.
unfoldable pub valid_id : Text → Bool
valid_id id = not (ltb (length id) 2) && (not (ltb 128 (length id)) && all_id_chars id)

-- `action`.
pub record Action : Type 0 where
  pub output : Text
  pub mod_time : ℕ

-- The Unix epoch, in nanoseconds since Go's zero time.
abbrev pub epoch : ℕ
epoch = 62_135_596_800 * 1_000_000_000

-- `UnixNano`, as an int64.
unfoldable pub unix_nano : ℕ → ℕ
unix_nano at = (at + 4 * word - epoch) % word

-- `time.Unix(ns/1e9, ns%1e9)`: the instant of an int64 of nanoseconds.
unfoldable pub from_unix_nano : ℕ → ℕ
from_unix_nano ns = if ltb ns half_word then epoch + ns else epoch - (word - ns)

-- `formatAction`.
unfoldable pub format_action : Text → ℕ → Text
format_action output at = output ++ 32 ∷ format_int (unix_nano at)

abbrev timed : Text → Option ℕ → Option Action
timed output none = none
timed output (some ns) = some (record { output = output; mod_time = from_unix_nano ns })

abbrev from_fields : List Text → Option Action
from_fields (output ∷ at ∷ []) = timed output (parse_int at)
from_fields _ = none

-- `parseAction`, with none for its errors.
unfoldable pub parse_action : Text → Option Action
parse_action data_read = from_fields (fields data_read)

-- The instants that fit Unix nanoseconds, which are those of the years 1678 to 2262.
abbrev pub FitsUnixNano : ℕ → Type 0
FitsUnixNano at = (epoch ≤ at + half_word) × (at < epoch + half_word)

from-unix_nano : (at : ℕ) → FitsUnixNano at → from_unix_nano (unix_nano at) ≡ at
unfolding from_unix_nano unix_nano
from-unix_nano at h = ground arith

id_chars-IsWord : (s : Text) → all_id_chars s ≡ true → IsWord s
id_chars-IsWord [] h = tt
id_chars-IsWord (c ∷ s) h = (ground arith, id_chars-IsWord s (ground arith))

valid_id-is_filled : (s : Text) → valid_id s ≡ true → is_filled s ≡ true
unfolding valid_id
valid_id-is_filled [] h = ground arith
valid_id-is_filled (c ∷ s) h = refl

unix_nano_bound : (at : ℕ) → unix_nano at < word
unfolding unix_nano
unix_nano_bound at = omega arith

-- An action record that is read again gives the output id and the instant that were written, if the id is a valid one and the instant fits Unix nanoseconds.
pub parse-format_action :
    (id : Text) (at : ℕ)
    → valid_id id ≡ true
    → FitsUnixNano at
    → parse_action (format_action id at) ≡ some (record { output = id; mod_time = at })
unfolding parse_action format_action valid_id
parse-format_action id at v h =
    let word = format_int-IsWord (unix_nano at) in
    ap from_fields (
      fields-two id (format_int (unix_nano at)) (id_chars-IsWord id (ground (arith, v))) word.0
        (valid_id-is_filled id v) word.1)
    ∙ ap (timed id) (parse_int-format_int (unix_nano at) (unix_nano_bound at))
    ∙ ap (λ n. some (record { output = id; mod_time = n })) (from-unix_nano at h)
