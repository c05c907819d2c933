-- ===== src/Disk/Negatives.antt =====
-- engine/disk/index.go and disk.go, the negative entries: keys that an upstream is known not to
-- have, each with the instant at which that answer expires.
pub mod Laws
mod Tests
use ci_cache.Base.{
  Bool, List, Text, [], add64, delete, false, if◌then◌else◌, insert, lookup, ltb, none, not, sle,
  some, starts_with, true, ℕ, ◌+◌, ◌∷◌,
}
use ci_cache.Base
use ci_cache.Disk.Index.{Index}

abbrev pub Negatives : Type 0
Negatives = List (Text × ℕ)

-- `putNegative`.
unfoldable pub put_negative : Text → (until : ℕ) → Index → Index
put_negative key until ix = record ix { neg = insert key until ix.neg }

-- `PutNegative`, with the clock at `now`. Instants are numbers: a duration is less than 293 years,
-- so that `Add` is exact for every clock up to the end of `time.Time`.
unfoldable pub remember_missing : (now : ℕ) → Text → (ttl : ℕ) → Index → Index
remember_missing now key ttl ix = if sle ttl 0 then ix else put_negative key (now + ttl) ix

-- `getNegative`.
unfoldable pub get_negative : Text → (now : ℕ) → Index → Index × Bool
get_negative key now ix = elim (lookup key ix.neg) [
  | none ↦ (ix, false)
  | some until ↦
      if not (ltb now until)
      then (record ix { neg = Base.delete key ix.neg }, false)
      else (ix, true)
]

-- A range over the map that deletes and counts the entries that satisfy `p`.
unfoldable pub sweep : (Text → ℕ → Bool) → Negatives → Negatives × ℕ
sweep p [] = ([], 0)
sweep p ((k, until) ∷ m) =
    let (m', n) = sweep p m in if p k until then (m', add64 n 1) else ((k, until) ∷ m', n)

abbrev pub has_expired : ℕ → Text → ℕ → Bool
has_expired now k until = not (ltb now until)

-- `expireNegatives` and `invalidatePrefix`.
unfoldable pub expire_negatives : (now : ℕ) → Index → Index × ℕ
expire_negatives now ix = let (m, n) = sweep (has_expired now) ix.neg in (record ix { neg = m }, n)

unfoldable pub invalidate_prefix : Text → Index → Index × ℕ
invalidate_prefix prefix ix =
    let (m, n) = sweep (λ k until. starts_with k prefix) ix.neg in (record ix { neg = m }, n)
