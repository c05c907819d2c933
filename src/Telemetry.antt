-- ===== src/Telemetry.antt =====
-- telemetry/recorder.go and telemetry/tier.go: the counters of the process, and a tier whose calls
-- are counted. A map from pairs of names is a function into Option. How long a call takes, and how
-- much of a body the tier reads, are parameters of the state that the call finds. The recorder's
-- lock makes each of its methods one step.
pub mod Counts
pub mod Answers
pub mod Wrapped
mod Tests
use ci_cache.Base.{
  Bool, List, Option, Text, [], add64, codes, delete, eqb, false, if◌then◌else◌, insert, lookup,
  none, some, true, ℕ, ◌&&◌, ◌∷◌,
}
use ci_cache.Tier.{
  Error, Got, Meta, Reader, Tier, errors_is, exists, failed, found, no_space, not_found,
}

abbrev pub outcome_hit : Text
outcome_hit = codes "hit"

abbrev pub outcome_miss : Text
outcome_miss = codes "miss"

abbrev pub outcome_error : Text
outcome_error = codes "error"

abbrev pub outcome_dropped : Text
outcome_dropped = codes "dropped"

-- `tierCounts`.
pub record TierCounts : Type 0 where
  pub get : List (Text × ℕ)
  pub put : List (Text × ℕ)
  pub bytes_read : ℕ
  pub bytes_written : ℕ

pub record OpCounts : Type 0 where
  pub count : ℕ
  pub total : ℕ

-- `Recorder`, without a hook.
pub record Recorder : Type 0 where
  pub tiers : (frontend tier : Text) → Option TierCounts
  pub ops : (frontend tier op : Text) → Option OpCounts

-- `NewRecorder`.
abbrev pub new_recorder : Recorder
new_recorder = record { tiers = λ f n. none; ops = λ f n op. none }

abbrev pub new_counts : TierCounts
new_counts = record { get = []; put = []; bytes_read = 0; bytes_written = 0 }

abbrev pub counts_or_new : Option TierCounts → TierCounts
counts_or_new none = new_counts
counts_or_new (some c) = c

-- `counts`.
abbrev pub counts : (frontend tier : Text) → Recorder → TierCounts
counts frontend tier rec = counts_or_new (rec.tiers frontend tier)

abbrev pub store : (frontend tier : Text) → TierCounts → Recorder → Recorder
store frontend tier c rec = record rec {
  tiers = λ f n. if eqb frontend f && eqb tier n then some c else rec.tiers f n;
}

abbrev pub number : Option ℕ → ℕ
number none = 0
number (some n) = n

-- `m[outcome]++`.
unfoldable pub increment : Text → List (Text × ℕ) → List (Text × ℕ)
increment outcome m = insert outcome (add64 (number (lookup outcome m)) 1) m

-- `Get` and `Put` of the recorder.
unfoldable pub record_get : (frontend tier outcome : Text) → Recorder → Recorder
unfolding increment
record_get frontend tier outcome rec =
    let c = counts frontend tier rec in
    store frontend tier (record c { get = increment outcome c.get }) rec

unfoldable pub record_put : (frontend tier outcome : Text) → Recorder → Recorder
unfolding increment
record_put frontend tier outcome rec =
    let c = counts frontend tier rec in
    store frontend tier (record c { put = increment outcome c.put }) rec

-- `Bytes`.
unfoldable pub record_bytes : (frontend tier : Text) → (written : Bool) → ℕ → Recorder → Recorder
record_bytes frontend tier written n rec =
    let c = counts frontend tier rec in
    if written
    then store frontend tier (record c { bytes_written = add64 c.bytes_written n }) rec
    else store frontend tier (record c { bytes_read = add64 c.bytes_read n }) rec

abbrev pub observed : ℕ → Option OpCounts → OpCounts
observed d none = record { count = 1; total = d }
observed d (some c) = record { count = add64 c.count 1; total = add64 c.total d }

-- `Observe`.
unfoldable pub observe : (frontend tier op : Text) → ℕ → Recorder → Recorder
observe frontend tier op d rec = record rec {
  ops = λ f n o.
      if eqb frontend f && (eqb tier n && eqb op o)
      then some (observed d (rec.ops frontend tier op))
      else rec.ops f n o;
}

-- `sum`.
abbrev pub sum : List (Text × ℕ) → ℕ
sum [] = 0
sum ((o, v) ∷ m) = add64 v (sum m)

-- The totals of `TierSnapshot`.
pub record TierSnapshot : Type 0 where
  pub gets : ℕ
  pub hits : ℕ
  pub misses : ℕ
  pub errors : ℕ
  pub puts : ℕ
  pub dropped : ℕ
  pub bytes_read : ℕ
  pub bytes_written : ℕ

unfoldable pub tier_snapshot : TierCounts → TierSnapshot
tier_snapshot c = record {
  gets = sum c.get;
  hits = number (lookup outcome_hit c.get);
  misses = number (lookup outcome_miss c.get);
  errors = add64 (number (lookup outcome_error c.get)) (number (lookup outcome_error c.put));
  puts = sum c.put;
  dropped = add64 (number (lookup outcome_dropped c.get)) (number (lookup outcome_dropped c.put));
  bytes_read = c.bytes_read;
  bytes_written = c.bytes_written;
}

-- The outcomes of a read and of a write.
unfoldable pub read_outcome : Got → Text
read_outcome (found r m) = outcome_hit
read_outcome (failed e) =
    if errors_is e not_found
    then outcome_miss
    else if errors_is e no_space
    then outcome_dropped
    else outcome_error

unfoldable pub write_outcome : Option Error → Text
write_outcome none = outcome_miss
write_outcome (some e) =
    if errors_is e exists
    then outcome_hit
    else if errors_is e no_space
    then outcome_dropped
    else outcome_error

module _ {W : Type 0} (took : (op key : Text) → W → ℕ) (consumed : Text → Reader → Meta → W → ℕ)
    (t : Tier W) (frontend : Text) where
  abbrev pub after_get : ℕ → Recorder → W × Got → (W × Recorder) × Got
  after_get d rec (w, got) = (
    (
      w,
      record_get frontend t.name (read_outcome got) (observe frontend t.name (codes "get") d rec),
    ),
    got,
  )

  abbrev pub after_put : (d read : ℕ) → Recorder → W × Option Error → (W × Recorder) × Option Error
  after_put d read rec (w, e) = (
    (
      w,
      record_put frontend t.name (write_outcome e)
          (record_bytes frontend t.name true read (observe frontend t.name (codes "put") d rec)),
    ),
    e,
  )

  abbrev pub after : {A : Type 0} → (op : Text) → ℕ → Recorder → W × A → (W × Recorder) × A
  after op d rec (w, a) = ((w, observe frontend t.name op d rec), a)

  -- `WrapTier`, of a recorder that is not nil.
  unfoldable pub wrap_tier : Tier (W × Recorder)
  unfolding record_get record_put record_bytes observe read_outcome write_outcome
  wrap_tier = record {
    name = t.name;
    get = λ key s. after_get (took (codes "get") key s.0) s.1 (t.get key s.0);
    put = λ key r m s.
        after_put (took (codes "put") key s.0) (consumed key r m s.0) s.1 (t.put key r m s.0);
    stat = λ key s. after (codes "stat") (took (codes "stat") key s.0) s.1 (t.stat key s.0);
    delete = λ key s. after (codes "delete") (took (codes "delete") key s.0) s.1 (t.delete key s.0);
  }

-- `Close` of the reader that `Get` hands back, which has counted what was read of it.
unfoldable pub close :
    (frontend tier : Text) → (read : ℕ) → (closed : Bool) → Recorder → Bool × Recorder
unfolding record_bytes
close frontend tier read closed rec =
    (true, if closed then rec else record_bytes frontend tier false read rec)
