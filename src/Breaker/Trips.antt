-- ===== src/Breaker/Trips.antt =====
-- When the circuit opens, and when it closes.
use ci_cache.Base.{
  All, All-append_left, All-append_right, Bool-cases, List, Option, [], add64, arith, false,
  half_word, if◌then◌else◌, inl, inr, length, refl, sle_small, suc, true, ℕ, ◌*◌, ◌++◌, ◌+◌, ◌<◌,
  ◌∙◌, ◌∷◌, ◌≡◌, ◌≤◌,
}
use native.Mathlib.Decide.{dec_lt}
use ci_cache.Tier.{Error}
use ci_cache.Breaker.{
  Breaker, Event, Setting, allow, allowed, apply, apply_all, defaults, healthy, init, note, noted,
  on_event, on_events, threshold, window,
}
use ci_cache.Breaker.Invariant.{
  InRange, IsValid, allow-IsValid, init-IsValid, note-IsValid, step_in_range,
}

-- `n` failures in a row, the clock at `now` for each.
abbrev Failures : List (ℕ × Option Error) → Type 0
Failures = All (λ o. healthy o.1 ≡ false)

unfoldable pub note_all : List (ℕ × Option Error) → Breaker → Breaker
note_all [] b = b
note_all ((now, err) ∷ os) b = note_all os (note b now err)

-- One failure of a valid breaker opens the circuit at the threshold, and is counted below it.
note_failure :
    (b : Breaker) (now : ℕ) (err : Option Error)
    → IsValid b
    → healthy err ≡ false
    → (b.consecutive + 1 < b.threshold
        → note b now err ≡ record b { consecutive = b.consecutive + 1 })
      × (b.consecutive + 1 ≡ b.threshold
          → note b now err
            ≡ record b { consecutive = 0; open_until = now + b.window; trips = add64 b.trips 1 })
unfolding note
note_failure b now err v f = (
  ground (arith, step_in_range b v, sle_small b.threshold (b.consecutive + 1)),
  ground (arith, step_in_range b v, sle_small b.threshold (b.consecutive + 1)),
)

note_all_below :
    (os : List (ℕ × Option Error)) (b : Breaker)
    → IsValid b
    → Failures os
    → b.consecutive + length os < b.threshold
    → note_all os b ≡ record b { consecutive = b.consecutive + length os }
unfolding note_all
note_all_below [] b v f h = ground arith
note_all_below ((now, err) ∷ os) b v f h =
    let e : note b now err ≡ record b { consecutive = b.consecutive + 1 } =
      (note_failure b now err v f.0).0 (omega arith) in
    let b' : Breaker = record b { consecutive = b.consecutive + 1 } in
    rw e (ground (arith, note_all_below os b' (omega arith) f.1 (omega arith)))

note_all-append :
    (os ps : List (ℕ × Option Error)) (b : Breaker)
    → note_all (os ++ ps) b ≡ note_all ps (note_all os b)
unfolding note_all
note_all-append [] ps b = refl
note_all-append ((now, err) ∷ os) ps b = note_all-append os ps (note b now err)

-- Failures in a row that do not reach the threshold are only counted. The one that reaches it opens the circuit for the window from the clock of that failure on, counts one trip, and starts the count again.
pub note_all-trips :
    (os : List (ℕ × Option Error)) (now : ℕ) (err : Option Error) (b : Breaker)
    → IsValid b
    → Failures (os ++ (now, err) ∷ [])
    → b.consecutive + length os + 1 ≡ b.threshold
    → (note_all os b ≡ record b { consecutive = b.consecutive + length os })
      × (note_all (os ++ (now, err) ∷ []) b
          ≡ record b { consecutive = 0; open_until = now + b.window; trips = add64 b.trips 1 })
unfolding note_all
note_all-trips os now err b v f h = (below, last)
  where
    below : note_all os b ≡ record b { consecutive = b.consecutive + length os }
    below = note_all_below os b v (All-append_left _ os _ f) (omega arith)

    last :
        note_all (os ++ (now, err) ∷ []) b
        ≡ record b { consecutive = 0; open_until = now + b.window; trips = add64 b.trips 1 }
    last =
        rw (note_all-append, below)
          ((note_failure (record b { consecutive = b.consecutive + length os }) now err
              (omega arith) (All-append_right _ os _ f).0).1
            (omega arith))

-- When the window has passed, a request is let through again and the count starts at 0; before that it is not, and nothing changes.
pub allow_window :
    (b : Breaker) (now later : ℕ) (err : Option Error)
    → IsValid b
    → 0 < b.window
    → healthy err ≡ false
    → b.consecutive + 1 ≡ b.threshold
    → (later < now + b.window → allow (note b now err) later ≡ (note b now err, false))
      × (now + b.window ≤ later
          → allow (note b now err) later
            ≡ (record (note b now err) { open_until = 0; consecutive = 0 }, true))
unfolding allow
allow_window b now later err v w f h = ground (arith, (note_failure b now err v f).1 h)

abbrev failures : List Event → ℕ
failures [] = 0
failures (allowed now ∷ es) = failures es
failures (noted now err ∷ es) = if healthy err then failures es else suc (failures es)

note-healthy :
    (b : Breaker) (now : ℕ) (err : Option Error)
    → healthy err ≡ true
    → note b now err ≡ record b { consecutive = 0 }
unfolding note
note-healthy b now err h = ground arith

-- The failures that a breaker has used up: those of its trips, and those that it has counted.
abbrev used_up : Breaker → ℕ
used_up b = b.trips * b.threshold + b.consecutive

-- What one event does to the threshold, the trips and the failures used up.
record Paid (e : Event) (b : Breaker) : Type 0 where
  valid : IsValid (on_event e b)
  same_threshold : (on_event e b).threshold ≡ b.threshold
  paid : used_up (on_event e b) ≤ used_up b + failures (e ∷ [])
  once : (on_event e b).trips ≤ b.trips + 1

allowed-Paid : (now : ℕ) (b : Breaker) → IsValid b → Paid (allowed now) b
unfolding on_event
allowed-Paid now b v = record {
  valid = allow-IsValid b now v;
  same_threshold = unfold allow in ground arith;
  paid = unfold allow in ground arith;
  once = unfold allow in ground arith;
}

add64_one : (a : ℕ) → a + 1 < half_word → add64 a 1 ≡ a + 1
unfolding add64
add64_one a h = omega arith

noted-Paid :
    (now : ℕ) (err : Option Error) (b : Breaker)
    → IsValid b
    → b.trips + 1 < half_word
    → Paid (noted now err) b
unfolding on_event
noted-Paid now err b v t = elim (Bool-cases (healthy err)) [
  | inl good ↦
      let e = note-healthy b now err good in
      record {
        valid = note-IsValid b now err v;
        same_threshold = rw e;
        paid = rw (e, good) (omega arith);
        once = rw e (omega arith);
      }
  | inr bad ↦ elim (dec_lt (b.consecutive + 1) b.threshold) [
    | yes more ↦
        let e = (note_failure b now err v bad).0 more in
        record {
          valid = note-IsValid b now err v;
          same_threshold = rw e;
          paid = rw (e, bad) (omega arith);
          once = rw e (omega arith);
        }
    | no last ↦
        let e = (note_failure b now err v bad).1 (omega arith) in
        let one = add64_one b.trips (omega arith) in
        record {
          valid = note-IsValid b now err v;
          same_threshold = rw e;
          paid = rw (e, bad, one) (omega arith);
          once = rw (e, one) (omega arith);
        }
  ]
]

on_event-Paid : (e : Event) (b : Breaker) → IsValid b → b.trips + 1 < half_word → Paid e b
on_event-Paid (allowed now) b v t = allowed-Paid now b v
on_event-Paid (noted now err) b v t = noted-Paid now err b v t

failures-cons : (e : Event) (es : List Event) → failures (e ∷ es) ≡ failures (e ∷ []) + failures es
failures-cons (allowed now) es = omega arith
failures-cons (noted now err) es = ground arith

on_events-paid :
    (es : List Event) (b : Breaker)
    → IsValid b
    → b.trips + length es < half_word
    → (used_up (on_events es b) ≤ used_up b + failures es)
      × ((on_events es b).threshold ≡ b.threshold)
unfolding on_events
on_events-paid [] b v t = (omega arith, refl)
on_events-paid (e ∷ es) b v t =
    let p = on_event-Paid e b v (omega arith) in
    let rest = on_events-paid es (on_event e b) p.valid (omega (arith, p.once)) in
    (omega (arith, p.paid, rest.0, failures-cons e es), rest.1 ∙ p.same_threshold)

apply-counts :
    (o : Setting) (b : Breaker)
    → ((apply o b).trips ≡ b.trips) × ((apply o b).consecutive ≡ b.consecutive)
unfolding apply
apply-counts (threshold n) b = ground arith
apply-counts (window d) b = ground arith

init-trips :
    (opts : List Setting) (b : Breaker)
    → ((apply_all opts b).trips ≡ b.trips) × ((apply_all opts b).consecutive ≡ b.consecutive)
unfolding apply_all apply
init-trips [] b = (refl, refl)
init-trips (o ∷ os) b =
    let rest = init-trips os (apply o b) in
    (rest.0 ∙ (apply-counts o b).0, rest.1 ∙ (apply-counts o b).1)

init-fresh : (opts : List Setting) → ((init opts).trips ≡ 0) × (used_up (init opts) ≡ 0)
unfolding init
init-fresh opts =
    let fresh = init-trips opts defaults in (fresh.0, rw (fresh.0, fresh.1) (omega arith))

-- However the calls of concurrent requests interleave, a new breaker opens at most once for each `threshold` failures that it is told of.
pub trips-le-failures :
    (opts : List Setting) (es : List Event)
    → All InRange opts
    → length es < half_word
    → (on_events es (init opts)).trips * (on_events es (init opts)).threshold ≤ failures es
trips-le-failures opts es h l =
    let fresh = init-fresh opts in
    omega (
      arith,
      (on_events-paid es (init opts) (init-IsValid opts h) (omega (arith, fresh.0))).0,
      fresh.1,
    )
