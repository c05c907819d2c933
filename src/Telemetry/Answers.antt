-- ===== src/Telemetry/Answers.antt =====
-- Calls of a tier, and what their answers add to the totals.
use ci_cache.Base.{
  Bool, Bool-cases, List, Option, Text, [], eqb, if◌then◌else◌, inl, inr, none, not, refl, some,
  word, ℕ, ◌%◌, ◌&&◌, ◌∷◌, ◌≡◌,
}
use ci_cache.Tier.{
  Error, Got, Meta, Reader, Stated, Tier, errors_is, exists, failed, found, no_space, not_found,
}
use ci_cache.Telemetry.{TierSnapshot, read_outcome, write_outcome}
use ci_cache.Telemetry.Counts.{Tally, both, no_tally, read_tally, write_tally}

pub data Call : Type 0 where
  gets : (key : Text) → Call
  puts : (key : Text) → Reader → Meta → Call
  stats : (key : Text) → Call
  deletes : (key : Text) → Call

pub data Answer : Type 0 where
  got : Got → Answer
  put_by : (consumed : ℕ) → Option Error → Answer
  stated : Stated → Answer
  deleted : Option Error → Answer

abbrev pub bit : Bool → ℕ
bit b = if b then 1 else 0

-- What an answer adds to the totals, and an answer to a write of which the tier has read so much.
abbrev pub got_tally : Got → Tally
got_tally (found r m) = record no_tally { gets = 1; hits = 1 }
got_tally (failed e) = record no_tally {
  gets = 1;
  misses = bit (errors_is e not_found);
  errors = bit (not (errors_is e not_found) && not (errors_is e no_space));
  dropped = bit (not (errors_is e not_found) && errors_is e no_space);
}

abbrev pub put_tally : ℕ → Option Error → Tally
put_tally n none = record no_tally { puts = 1; bytes_written = n }
put_tally n (some e) = record no_tally {
  puts = 1;
  errors = bit (not (errors_is e exists) && not (errors_is e no_space));
  dropped = bit (not (errors_is e exists) && errors_is e no_space);
  bytes_written = n;
}

abbrev pub tally_of : Answer → Tally
tally_of (got a) = got_tally a
tally_of (put_by n e) = put_tally n e
tally_of (stated a) = no_tally
tally_of (deleted e) = no_tally

pub read_outcome-tally : (a : Got) → read_tally (read_outcome a) ≡ got_tally a
unfolding read_outcome eqb
read_outcome-tally (found r m) = refl
read_outcome-tally (failed e) = elim (Bool-cases (errors_is e not_found)) [
  | inl p ↦ rw p refl
  | inr p ↦ elim (Bool-cases (errors_is e no_space)) [
    | inl q ↦ rw (p, q) refl
    | inr q ↦ rw (p, q) refl
  ]
]

pub write_outcome-tally :
    (n : ℕ) (e : Option Error) → write_tally n (write_outcome e) ≡ put_tally n e
unfolding write_outcome eqb
write_outcome-tally n none = refl
write_outcome-tally n (some e) = elim (Bool-cases (errors_is e exists)) [
  | inl p ↦ rw p refl
  | inr p ↦ elim (Bool-cases (errors_is e no_space)) [
    | inl q ↦ rw (p, q) refl
    | inr q ↦ rw (p, q) refl
  ]
]

abbrev pub total : List Answer → Tally
total [] = no_tally
total (a ∷ bs) = both (tally_of a) (total bs)

abbrev pub answered : {V A : Type 0} → (A → Answer) → V × A → V × Answer
answered f (v, a) = (v, f a)

module _ {V : Type 0} (consumed : Text → Reader → Meta → V → ℕ) (t : Tier V) where
  abbrev pub serve : Call → V → V × Answer
  serve (gets key) v = answered got (t.get key v)
  serve (puts key r m) v = answered (put_by (consumed key r m v)) (t.put key r m v)
  serve (stats key) v = answered stated (t.stat key v)
  serve (deletes key) v = answered deleted (t.delete key v)

  abbrev pub run : List Call → V → V × List Answer
  run [] v = (v, [])
  run (c ∷ cs) v = let (v', a) = serve c v in let (v'', bs) = run cs v' in (v'', a ∷ bs)

-- A snapshot shows a tally, modulo 2^64.
pub record Shows (s : TierSnapshot) (t : Tally) : Type 0 where
  pub gets : s.gets ≡ t.gets % word
  pub hits : s.hits ≡ t.hits % word
  pub misses : s.misses ≡ t.misses % word
  pub errors : s.errors ≡ t.errors % word
  pub puts : s.puts ≡ t.puts % word
  pub dropped : s.dropped ≡ t.dropped % word
  pub bytes_read : s.bytes_read ≡ t.bytes_read % word
  pub bytes_written : s.bytes_written ≡ t.bytes_written % word
