-- ===== src/Disk/Header/Roundtrip.antt =====
-- A header that was written is read back, and the body after it.
use mathlib.Core.Option
use ci_cache.Base.{
  All, Bool-cases, Bytes, Option-cases, [], ap, append_assoc, ap₂, arith, false, half_word,
  if◌then◌else◌, inl, inr, length, length-append, ltb, none, refl, slt, slt_small, some, subst, suc,
  sym, take, zero, ℕ, ◌++◌, ◌+◌, ◌-◌, ◌<◌, ◌==◌, ◌∙◌, ◌∷◌, ◌≡◌, ◌≤◌,
}
use ci_cache.Disk.Header.{
  Header, Json, checked, decode_header, drop, encode_header, header_size, line_header, newline_at,
  padded, spaces,
}

-- What the headers rely on of encoding/json: its output has no raw newline and is not empty.
-- It reads back only what is valid UTF-8, so that this is asked of one header at a time.
pub record IsJson (j : Json) : Type 0 where
  pub one_line : (h : Header) (b : Bytes) → j.marshal h ≡ some b → All (λ c. (c == 10) ≡ false) b
  pub not_empty : (h : Header) (b : Bytes) → j.marshal h ≡ some b → 0 < length b

abbrev pub ReadsBack : Json → Header → Type 0
ReadsBack j h = (b : Bytes) → j.marshal h ≡ some b → j.unmarshal b ≡ some h

length-spaces : (n : ℕ) → length (spaces n) ≡ n
unfolding spaces
length-spaces zero = refl
length-spaces (suc n) = ap suc (length-spaces n)

take-append : (b c : Bytes) (n : ℕ) → n ≡ length b → take n (b ++ c) ≡ b
take-append [] c zero h = refl
take-append [] c (suc n) h = absurd (omega arith)
take-append (x ∷ b) c zero h = absurd (omega arith)
take-append (x ∷ b) c (suc n) h = ap (λ l. x ∷ l) (take-append b c n (omega arith))

drop-append : (b c : Bytes) (n : ℕ) → n ≡ length b → drop n (b ++ c) ≡ c
unfolding drop
drop-append [] c zero h = refl
drop-append [] c (suc n) h = absurd (omega arith)
drop-append (x ∷ b) c zero h = absurd (omega arith)
drop-append (x ∷ b) c (suc n) h = drop-append b c n (omega arith)

newline_at-append :
    (b c : Bytes) → All (λ x. (x == 10) ≡ false) b → newline_at (b ++ 10 ∷ c) ≡ some (length b)
unfolding newline_at
newline_at-append [] c h = refl
newline_at-append (x ∷ b) c h =
    rw (newline_at, h.0) (ap (Option.map suc) (newline_at-append b c h.1))

abbrev as_written : Bytes → Bytes
as_written line = line ++ 10 ∷ spaces (header_size - (length line + 1))

length-as_written :
    (line : Bytes) → length line + 1 ≤ header_size → length (as_written line) ≡ header_size
length-as_written line h =
    let n = header_size - (length line + 1) in
    omega (arith, length-append line (10 ∷ spaces n), length-spaces n)

not_below : (a b : ℕ) → b ≤ a → ltb a b ≡ false
not_below a b h = ground arith

not_first : (a : ℕ) → 0 < a → (a == 0) ≡ false
not_first a h = ground arith

not_negative : (a : ℕ) → a < half_word → slt a 0 ≡ false
not_negative a h = slt_small a 0 h (omega arith) ∙ not_below a 0 (omega arith)

module _ (j : Json) (h : Header) (line body : Bytes) where
  decode_line :
      All (λ c. (c == 10) ≡ false) line
      → 0 < length line
      → length line + 1 ≤ header_size
      → j.unmarshal line ≡ some h
      → h.size < half_word
      → decode_header j (as_written line ++ body) ≡ some (h, body)
  unfolding decode_header
  decode_line one filled fits reads small =
      let b = as_written line in
      let file = b ++ body in
      let rest = 10 ∷ spaces (header_size - (length line + 1)) in
      let len = length-as_written line fits in
      let enough : ltb (length file) header_size ≡ false =
        not_below (length file) header_size (omega (arith, length-append b body, len)) in
      let head : take header_size file ≡ b = take-append b body header_size (sym len) in
      let at : newline_at b ≡ some (length line) = newline_at-append line _ one in
      let line_read : take (length line) file ≡ line =
        ap (take (length line)) (append_assoc line rest body)
        ∙ take-append line (rest ++ body) (length line) refl in
      let body_left : drop header_size file ≡ body = drop-append b body header_size (sym len) in
      let first : (length line == 0) ≡ false = not_first (length line) filled in
      let positive = not_negative h.size small in
      ap (λ t. if t then none else line_header j (newline_at (take header_size file)) file) enough
      ∙ ap (λ o. line_header j (newline_at o) file) head
      ∙ ap (λ o. line_header j o file) at
      ∙ ap
          (λ t.
            if t
            then none
            else checked (j.unmarshal (take (length line) file)) (drop header_size file))
          first
      ∙ ap₂ (λ l r. checked (j.unmarshal l) r) line_read body_left
      ∙ ap (λ o. checked o body) reads
      ∙ ap (λ t. if t then none else some (h, body)) positive

encoded :
    (j : Json) (h : Header) (b line : Bytes)
    → j.marshal h ≡ some line
    → encode_header j h ≡ some b
    → (length line + 1 ≤ header_size) × (as_written line ≡ b)
unfolding encode_header
encoded j h b line m e =
    let e' = ap padded (sym m) ∙ e in
    elim (Bool-cases (ltb header_size (length line + 1))) [
      | inl over ↦ absurd (ground (arith, over, e'))
      | inr fits ↦ (ground (arith, fits), ground (arith, fits, e'))
    ]

-- The header of a file is read back, with the body, if the JSON of a header is one line and not empty, that of this one reads back, and its size is an int64 that is not negative; and it takes exactly `headerSize` bytes.
pub decode-encode_header :
    (j : Json) (h : Header) (b body : Bytes)
    → IsJson j
    → ReadsBack j h
    → h.size < half_word
    → encode_header j h ≡ some b
    → (length b ≡ header_size) × (decode_header j (b ++ body) ≡ some (h, body))
unfolding encode_header
decode-encode_header j h b body laws back small e = elim (Option-cases (j.marshal h)) [
  | inl n ↦ absurd (ground (arith, ap padded (sym n) ∙ e))
  | inr (line, m) ↦
      let (fits, is) = encoded j h b line m e in
      subst (λ b. (length b ≡ header_size) × (decode_header j (b ++ body) ≡ some (h, body))) is
        (
          length-as_written line fits,
          decode_line j h line body (laws.one_line h line m) (laws.not_empty h line m) fits
              (back line m) small,
        )
]
