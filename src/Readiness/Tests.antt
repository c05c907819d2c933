-- ===== src/Readiness/Tests.antt =====
-- Probes that arrive together, and the answers that they get.
use ci_cache.Base.{codes, none, refl, some, ◌+◌, ◌≡◌}
use ci_cache.Tier.{Error, other}
use ci_cache.Readiness.{Readiness, answered, enter, finish, init, read, run_result, waits}

all : Unit {0}
unfolding init enter finish read run_result
all = tt

-- Two probes arrive, one runs the checks, and the bucket is down.
abbrev first : Readiness
first = (enter 5 init).0

abbrev second : Readiness
second = (enter 5 first).0

abbrev down : Error
down = other (codes "down")

abbrev ended : Readiness
ended = finish none (some down) second

abbrev later : Readiness
later = record ended { now = ended.now + 3 }

second_waits : (enter 5 first).1 ≡ waits
unfolding all
second_waits = refl

third_answered : (enter 5 later).1 ≡ answered (run_result none (some down))
unfolding all
third_answered = refl

ready : run_result none none ≡ none
unfolding all
ready = refl
