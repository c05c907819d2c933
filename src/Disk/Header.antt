-- ===== src/Disk/Header.antt =====
-- engine/disk/header.go: the header that each object's file begins with. encoding/json is a
-- parameter: what it writes for a header, if it can, and what it reads from bytes.
pub mod Roundtrip
use mathlib.Core.Option
use ci_cache.Base.{
  Bool, Bytes, Option, Text, [], if◌then◌else◌, length, ltb, map, none, slt, some, suc, take, zero,
  ℕ, ◌++◌, ◌+◌, ◌-◌, ◌==◌, ◌∷◌,
}

pub record Header : Type 0 where
  pub key : Text
  pub size : ℕ
  pub mod_time : ℕ
  pub content_type : Text
  pub immutable : Bool

pub record Json : Type 0 where
  pub marshal : Header → Option Bytes
  pub unmarshal : Bytes → Option Header

-- `headerSize`.
abbrev pub header_size : ℕ
header_size = 1024

unfoldable pub spaces : ℕ → Bytes
spaces zero = []
spaces (suc n) = 32 ∷ spaces n

-- `bytes.IndexByte(b, '\n')`, with none for -1.
unfoldable pub newline_at : Bytes → Option ℕ
newline_at [] = none
newline_at (c ∷ b) = let rest = Option.map suc (newline_at b) in if c == 10 then some 0 else rest

unfoldable pub drop : ℕ → Bytes → Bytes
drop zero b = b
drop (suc n) [] = []
drop (suc n) (c ∷ b) = drop n b

abbrev padded : Option Bytes → Option Bytes
padded none = none
padded (some b) =
    if ltb header_size (length b + 1)
    then none
    else some (b ++ 10 ∷ spaces (header_size - (length b + 1)))

-- The header read from the line, with the rest of the file; a negative size is refused.
abbrev checked : Option Header → Bytes → Option (Header × Bytes)
checked none rest = none
checked (some h) rest = if slt h.size 0 then none else some (h, rest)

abbrev line_header : Json → Option ℕ → Bytes → Option (Header × Bytes)
line_header j none file = none
line_header j (some i) file =
    if i == 0 then none else checked (j.unmarshal (take i file)) (drop header_size file)

-- `encodeHeader`, with none for its errors.
unfoldable pub encode_header : Json → Header → Option Bytes
unfolding spaces
encode_header j h = padded (j.marshal h)

-- `decodeHeader` of a file's bytes: the header and what is left to read, with none for
-- `errCorrupt`.
unfoldable pub decode_header : Json → Bytes → Option (Header × Bytes)
unfolding newline_at drop
decode_header j file =
    if ltb (length file) header_size
    then none
    else line_header j (newline_at (take header_size file)) file
