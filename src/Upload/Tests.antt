-- ===== src/Upload/Tests.antt =====
-- A run of the queue, and its theorems at it.
use ci_cache.Base.{
  [], add64, arith, codes, none, refl, sle, slt, some, sub64, true, word, ◌+◌, ◌-◌, ◌<◌, ◌↔◌, ◌∷◌,
  ◌≡◌,
}
use ci_cache.Upload.Drain.{IsClosing, Run, Work, drains, ends, stays, steps_left, takes, works}
use ci_cache.Upload.{
  Config, Item, Queue, Reach, claim, close, closes, count, counts, halt, init, landed, lands,
  launch, launches, leave, next, offer, offers, receive, receives, refused, send, sends, settled,
  start, stop_report, unflushed,
}
use ci_cache.Upload.Steps.{IsConsistent, waiting}
use ci_cache.Upload.Interleavings.{Reach-IsConsistent, stop_reports}

abbrev config : Config
config = record { min_size = 1; capacity = 1; queue_bytes = 5; concurrency = 1 }

abbrev item : Item
item = record {
  key = codes "go/a";
  meta = record { size = 0; mod_time = 7; content_type = []; immutable = true };
  body = 1 ∷ 2 ∷ 3 ∷ [];
}

abbrev launched : Queue
launched = launch config init

abbrev offered : Queue
offered = (offer config item launched).0

abbrev sent : Queue
sent = (send config item [] offered).0

-- The worker is done before the offer has counted, so that the depth is -1 in between.
abbrev received : Queue
received = receive item [] sent

abbrev early : Queue
early = landed item [] received

abbrev counted : Queue
counted = count early

abbrev drained : Queue
drained = close counted

run : Unit {0}
unfolding init offer claim send count receive landed settled close launch halt leave stop_report
    add64 sub64 slt sle
run = tt

too_much : (offer config item offered).1 ≡ refused
unfolding run
too_much = refl

below_zero : early.depth ≡ word - 1
unfolding run
below_zero = refl

drained-Reach : Reach config drained
unfolding run
drained-Reach =
    next counted drained
      (next early counted
        (next received early
          (next sent received
            (next offered sent
              (next launched offered (next init launched start (launches init refl))
                (offers item launched (omega arith)))
              (sends item [] [] offered refl))
            (receives item [] sent refl (omega arith)))
          (lands item [] [] received refl))
        (counts early (omega arith)))
      (closes counted refl refl)

Reach-IsConsistent_example : IsConsistent config drained
Reach-IsConsistent_example = Reach-IsConsistent config (omega arith) (omega arith) drained-Reach

stop_reports_example : (stop_report drained ≡ none) ↔ (waiting drained ≡ 0)
stop_reports_example =
    stop_reports config (omega arith) (omega arith) drained-Reach (unfold run in refl)
      (unfold run in omega arith)

-- The offer has counted before the worker takes the object, and the queue is closed meanwhile.
abbrev shut : Queue
shut = close (count sent)

shut-Reach : Reach config shut
unfolding run
shut-Reach =
    next (count sent) shut
      (next sent (count sent)
        (next offered sent
          (next launched offered (next init launched start (launches init refl))
            (offers item launched (omega arith)))
          (sends item [] [] offered refl))
        (counts sent (omega arith)))
      (closes (count sent) refl refl)

shut-IsClosing : IsClosing shut
unfolding run
shut-IsClosing = record { shut = refl; started = refl; unhalted = refl }

-- A halted worker leaves the object in the queue, and `Stop` reports it.
abandoned : stop_report (leave (halt shut)) ≡ some unflushed
unfolding run
abandoned = refl

two_steps : Run 2 shut (landed item [] (receive item [] shut))
unfolding run
two_steps =
    works 1 shut (receive item [] shut) (landed item [] (receive item [] shut))
      (takes item [] shut refl (omega arith))
      (works 0 (receive item [] shut) (landed item [] (receive item [] shut))
        (landed item [] (receive item [] shut)) (ends item [] [] (receive item [] shut) refl)
        (stays (landed item [] (receive item [] shut))))

drains_example :
    let r = landed item [] (receive item [] shut) in
    (2 + steps_left r ≡ steps_left shut)
    × (0 < steps_left r → (s : Queue) × Work r s)
    × (steps_left r ≡ 0 → (r.queued ≡ 0) × (stop_report r ≡ none))
drains_example =
    drains config (omega arith) (omega arith) (omega arith) shut-Reach shut-IsClosing two_steps
