-- ===== src/Wire/Sample.antt =====
-- Timestamps, reads and kinds of errors for the tests of the two sides of the wire.
use ci_cache.Base.{
  All, Bytes, List, Text, [], ap, arith, codes, false, length, none, refl, suc, zero, ℕ, ◌∷◌, ◌≡◌,
  ◌≤◌,
}
use ci_cache.Wire.{IsReads, IsStamps, Kinds, Stamps, chunk_size, joined_bytes}

unfoldable pub ticks : ℕ → Text
ticks zero = []
ticks (suc n) = 49 ∷ ticks n

length-ticks : (n : ℕ) → length (ticks n) ≡ n
unfolding ticks
length-ticks zero = refl
length-ticks (suc n) = ap suc (length-ticks n)

-- An instant as as many strokes.
abbrev pub strokes : Stamps
strokes = record { stamp = ticks; time = length }

pub strokes-IsStamps : IsStamps strokes
strokes-IsStamps = record { reads_back = λ at h. length-ticks at }

-- Byte by byte.
abbrev pub single : Bytes → List Bytes
single [] = []
single (x ∷ b) = (x ∷ []) ∷ single b

single_whole : (b : Bytes) → joined_bytes (single b) ≡ b
single_whole [] = refl
single_whole (x ∷ b) = ap (λ s. x ∷ s) (single_whole b)

single_small : (b : Bytes) → All (λ c. length c ≤ chunk_size) (single b)
single_small [] = tt
single_small (x ∷ b) = (omega arith, single_small b)

pub single-IsReads : IsReads single
single-IsReads = record { whole = single_whole; small = single_small }

-- No error is of a context or of Connect.
abbrev pub no_kinds : Kinds
no_kinds = record {
  is_canceled = λ e. false;
  is_deadline = λ e. false;
  rpc_of = λ e. none;
  text = λ e. codes "error";
}
