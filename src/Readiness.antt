-- ===== src/Readiness.antt =====
-- server/server.go: what a replica answers to the probes of its readiness. The state has, beside
-- the fields of `readiness`, the clock, how many probes run the checks, how many wait for that run
-- and how many of them are yet to read its answer, and how many runs there have been. A step is
-- what one probe does under the lock, or the clock. The clock never goes back.
pub mod Runs
mod Tests
use ci_cache.Base.{
  Bool, Option, Text, codes, false, if◌then◌else◌, ltb, none, some, true, ℕ, ◌+◌, ◌-◌, ◌<◌,
}
use ci_cache.Tier.{Error, join, wrap}

pub record Readiness : Type 0 where
  pub now : ℕ
  pub checked_at : Option ℕ
  pub err : Option Error
  pub inflight : Bool
  pub running : ℕ
  pub waiting : ℕ
  pub woken : ℕ
  pub runs : ℕ

unfoldable pub init : Readiness
init = record {
  now = 0;
  checked_at = none;
  err = none;
  inflight = false;
  running = 0;
  waiting = 0;
  woken = 0;
  runs = 0;
}

pub data Probed : Type 0 where
  answered : Option Error → Probed
  waits : Probed
  runs_checks : Probed

-- Whether the answer is young enough, by `ttl`.
abbrev pub is_fresh : ℕ → ℕ → Option ℕ → Bool
is_fresh ttl now none = false
is_fresh ttl now (some at) = ltb (now - at) ttl

-- `check`, up to the first unlock.
unfoldable pub enter : (ttl : ℕ) → Readiness → Readiness × Probed
enter ttl s =
    if is_fresh ttl s.now s.checked_at
    then (s, answered s.err)
    else if s.inflight
    then (record s { waiting = s.waiting + 1 }, waits)
    else (record s { inflight = true; running = s.running + 1; runs = s.runs + 1 }, runs_checks)

abbrev pub named : Text → Option Error → Option Error
named name none = none
named name (some e) = some (wrap name e)

-- `errors.Join` of the errors of the two halves.
abbrev pub joined : Option Error → Option Error → Option Error
joined none e = e
joined (some d) none = some d
joined (some d) (some b) = some (join d b)

-- `run`, by what the checks that there are answer.
unfoldable pub run_result : (disk bucket : Option Error) → Option Error
run_result disk bucket = joined (named (codes "disk") disk) (named (codes "bucket") bucket)

-- `check`, after the checks: the answer is kept, and the probes that wait are woken.
unfoldable pub finish : (disk bucket : Option Error) → Readiness → Readiness
unfolding run_result
finish disk bucket s = record s {
  err = run_result disk bucket;
  checked_at = some s.now;
  inflight = false;
  running = s.running - 1;
  waiting = 0;
  woken = s.woken + s.waiting;
}

-- What a probe that has waited does: it reads the answer that is kept.
unfoldable pub read : Readiness → Readiness × Option Error
read s = (record s { woken = s.woken - 1 }, s.err)

pub data Step (ttl : ℕ) : Readiness → Readiness → Type 0 where
  enters : (s : Readiness) → Step ttl s (enter ttl s).0
  finishes :
      (disk bucket : Option Error) (s : Readiness)
      → 0 < s.running
      → Step ttl s (finish disk bucket s)
  reads : (s : Readiness) → 0 < s.woken → Step ttl s (read s).0
  passes : (d : ℕ) (s : Readiness) → Step ttl s (record s { now = s.now + d })

pub data Reach (ttl : ℕ) : Readiness → Type 0 where
  start : Reach ttl init
  next : (s r : Readiness) → Reach ttl s → Step ttl s r → Reach ttl r
