-- ===== src/Base/Decimal.antt =====
-- Decimal numerals of Go's strconv, and strings.Fields. A string is split at ASCII white space;
-- the white space beyond ASCII is not modelled.
use Prim.Native.Nat.{ℕ, zero, suc, ◌+◌, ◌-◌, ◌*◌, ◌/◌, ◌%◌, ◌<◌}
use mathlib.Core.Path.{◌≡◌, refl, sym, ap, ◌∙◌}
use mathlib.Core.Logic.{inl, inr}
use mathlib.Core.Bool.{Bool, true, false, ◌&&◌, ◌||◌}
use mathlib.Core.Option.{Option, none, some}
use mathlib.Core.List.{List, [], ◌∷◌, ◌++◌, append_assoc, append-nil}
use native.Mathlib.Omega.{arith}
use ci_cache.Base.Tests.{ltb, leb, ◌==◌, if◌then◌else◌, Bool-cases}
use ci_cache.Base.Strings.{Text}
use ci_cache.Base.Lists.{All, All-append}
use ci_cache.Base.Int64.{word, half_word}

-- The digits of a number; more fuel than the number is enough.
unfoldable pub digits : (fuel n : ℕ) → Text
digits zero n = []
digits (suc f) n =
    let more = digits f (n / 10) ++ (48 + n % 10) ∷ [] in if ltb n 10 then (48 + n) ∷ [] else more

abbrev pub is_digit : ℕ → Bool
is_digit c = leb 48 c && leb c 57

unfoldable pub read_digits : (acc : ℕ) → Text → Option ℕ
read_digits acc [] = some acc
read_digits acc (c ∷ s) =
    let rest = read_digits (acc * 10 + (c - 48)) s in if is_digit c then rest else none

abbrev then_read : Option ℕ → Text → Option ℕ
then_read none s = none
then_read (some a) s = read_digits a s

read_digits-append :
    (acc : ℕ) (s u : Text) → read_digits acc (s ++ u) ≡ then_read (read_digits acc s) u
unfolding read_digits
read_digits-append acc [] u = refl
read_digits-append acc (c ∷ s) u =
    let ih = read_digits-append (acc * 10 + (c - 48)) s u in
    elim (Bool-cases (is_digit c)) [ inl h ↦ rw h ih | inr h ↦ rw h refl ]

read_digits-last : (a d : ℕ) → d < 10 → read_digits a ((48 + d) ∷ []) ≡ some (a * 10 + d)
unfolding read_digits
read_digits-last a d h = ground arith

pub read_digits-digits : (fuel n : ℕ) → n < fuel → read_digits 0 (digits fuel n) ≡ some n
unfolding digits
read_digits-digits zero n h = elim h [ ]
read_digits-digits (suc f) n h = elim (Bool-cases (ltb n 10)) [
  | inl small ↦ rw (digits, small) (read_digits-last 0 n (ground arith) ∙ ap some (omega arith))
  | inr large ↦
      let ih = read_digits-digits f (n / 10) (ground arith) in
      let last = read_digits-last (n / 10) (n % 10) (omega arith) in
      rw (digits, large)
        (read_digits-append 0 (digits f (n / 10)) ((48 + n % 10) ∷ [])
          ∙ ap (λ o. then_read o ((48 + n % 10) ∷ [])) ih
          ∙ last
          ∙ ap some (omega arith))
]

pub digits-All : (fuel n : ℕ) → All (λ c. is_digit c ≡ true) (digits fuel n)
unfolding digits
digits-All zero n = tt
digits-All (suc f) n = elim (Bool-cases (ltb n 10)) [
  | inl small ↦ rw (digits, small) (ground arith, tt)
  | inr large ↦
      rw (digits, large)
        (All-append (λ c. is_digit c ≡ true) (digits f (n / 10)) ((48 + n % 10) ∷ [])
          (digits-All f (n / 10)) (ground arith, tt))
]

-- `strconv.FormatInt(n, 10)`.
unfoldable pub format_int : (n : ℕ) → Text
format_int n = if ltb n half_word then digits (suc n) n else 45 ∷ digits (suc (word - n)) (word - n)

abbrev in_range : Bool → Option ℕ → Option ℕ
in_range negative none = none
in_range false (some n) = if ltb n half_word then some n else none
in_range true (some n) = if leb n half_word then some ((word - n) % word) else none

abbrev read_unsigned : Text → Option ℕ
read_unsigned [] = none
read_unsigned (c ∷ s) = read_digits 0 (c ∷ s)

-- `strconv.ParseInt(s, 10, 64)`, with none for its errors.
unfoldable pub parse_int : Text → Option ℕ
parse_int [] = none
parse_int (c ∷ s) =
    if c == 43
    then in_range false (read_unsigned s)
    else if c == 45
    then in_range true (read_unsigned s)
    else in_range false (read_unsigned (c ∷ s))

-- Whether a text is not empty.
abbrev pub is_filled : Text → Bool
is_filled [] = false
is_filled (c ∷ s) = true

is_filled-append : (s : Text) (c : ℕ) → is_filled (s ++ c ∷ []) ≡ true
is_filled-append [] c = refl
is_filled-append (x ∷ s) c = refl

is_filled-digits : (f n : ℕ) → is_filled (digits (suc f) n) ≡ true
unfolding digits
is_filled-digits f n = elim (Bool-cases (ltb n 10)) [
  | inl small ↦ rw (digits, small) refl
  | inr large ↦ rw (digits, large) (is_filled-append (digits f (n / 10)) (48 + n % 10))
]

read_unsigned_lem : (s : Text) → is_filled s ≡ true → read_unsigned s ≡ read_digits 0 s
read_unsigned_lem [] h = ground arith
read_unsigned_lem (c ∷ s) h = refl

parse_int-unsigned :
    (s : Text)
    → is_filled s ≡ true
    → All (λ c. is_digit c ≡ true) s
    → parse_int s ≡ in_range false (read_digits 0 s)
unfolding parse_int
parse_int-unsigned [] h a = ground arith
parse_int-unsigned (c ∷ s) h a =
    let plus : (c == 43) ≡ false = ground arith in
    let minus : (c == 45) ≡ false = ground arith in rw (parse_int, plus, minus) refl

-- A number that is read again is the number that was printed.
pub parse_int-format_int : (n : ℕ) → n < word → parse_int (format_int n) ≡ some n
unfolding format_int
parse_int-format_int n h = elim (Bool-cases (ltb n half_word)) [
  | inl positive ↦
      rw (format_int, positive)
        (parse_int-unsigned (digits (suc n) n) (is_filled-digits n n) (digits-All (suc n) n)
          ∙ ap (in_range false) (read_digits-digits (suc n) n (omega arith))
          ∙ ap (λ b. if b then some n else none) positive)
  | inr negative ↦
      let m = word - n in
      let small : leb m half_word ≡ true = ground arith in
      let back : (word - m) % word ≡ n = ground arith in
      rw (format_int, negative)
        (unfold parse_int in
          ap (in_range true) (
            read_unsigned_lem (digits (suc m) m) (is_filled-digits m m)
            ∙ read_digits-digits (suc m) m (omega arith))
          ∙ ap (λ b. if b then some ((word - m) % word) else none) small
          ∙ ap some back)
]

-- White space of ASCII.
abbrev pub is_space : ℕ → Bool
is_space c = c == 32 || (leb 9 c && leb c 13)

abbrev flush : Text → List Text → List Text
flush [] ws = ws
flush (c ∷ s) ws = (c ∷ s) ∷ ws

unfoldable pub fields_from : (word_so_far : Text) → Text → List Text
fields_from w [] = flush w []
fields_from w (c ∷ s) = elim (is_space c) [
  | true ↦ flush w (fields_from [] s)
  | false ↦ fields_from (w ++ c ∷ []) s
]

-- `strings.Fields`.
unfoldable pub fields : Text → List Text
unfolding fields_from
fields s = fields_from [] s

abbrev pub IsWord : Text → Type 0
IsWord s = All (λ c. is_space c ≡ false) s

fields_from-word : (w s u : Text) → IsWord s → fields_from w (s ++ u) ≡ fields_from (w ++ s) u
unfolding fields_from
fields_from-word w [] u h = ap (λ v. fields_from v u) (sym (append-nil w))
fields_from-word w (c ∷ s) u h =
    rw (fields_from, h.0)
      (fields_from-word (w ++ c ∷ []) s u h.1
        ∙ ap (λ v. fields_from v u) (append_assoc w (c ∷ []) s))

flush-filled : (s : Text) (ws : List Text) → is_filled s ≡ true → flush s ws ≡ s ∷ ws
flush-filled [] ws h = ground arith
flush-filled (c ∷ s) ws h = refl

-- Two words with a space between them are two fields.
pub fields-two :
    (s u : Text)
    → IsWord s
    → IsWord u
    → is_filled s ≡ true
    → is_filled u ≡ true
    → fields (s ++ 32 ∷ u) ≡ s ∷ u ∷ []
unfolding fields fields_from
fields-two s u hs hu fs fu =
    let second : fields_from [] u ≡ u ∷ [] =
      ap (fields_from []) (sym (append-nil u))
      ∙ fields_from-word [] u [] hu
      ∙ flush-filled u [] fu in
    fields_from-word [] s (32 ∷ u) hs
    ∙ flush-filled s (fields_from [] u) fs
    ∙ ap (λ ws. s ∷ ws) second

digit-not_space : (c : ℕ) → is_digit c ≡ true → is_space c ≡ false
digit-not_space c h = ground arith

digits-IsWord : (s : Text) → All (λ c. is_digit c ≡ true) s → IsWord s
digits-IsWord [] h = tt
digits-IsWord (c ∷ s) h = (digit-not_space c h.0, digits-IsWord s h.1)

pub format_int-IsWord : (n : ℕ) → IsWord (format_int n) × (is_filled (format_int n) ≡ true)
unfolding format_int
format_int-IsWord n = elim (Bool-cases (ltb n half_word)) [
  | inl positive ↦
      rw (format_int, positive)
        (digits-IsWord (digits (suc n) n) (digits-All (suc n) n), is_filled-digits n n)
  | inr negative ↦
      let m = word - n in
      rw (format_int, negative)
        ((refl, digits-IsWord (digits (suc m) m) (digits-All (suc m) m)), refl)
]
