-- ===== src/Breaker.antt =====
-- agent/breaker/breaker.go: the circuit breaker round a tier. An instant is a number of nanoseconds
-- since Go's zero time, so that 0 is the zero time; an operation is given the readings of the
-- clock that it makes, in order. Descriptors are not modelled.
pub mod Invariant
pub mod Answers
pub mod Trips
mod Tests
use ci_cache.Base.{
  Bool, List, Option, Text, [], add64, false, if◌then◌else◌, ltb, none, not, sle, slt, some, true,
  ℕ, ◌*◌, ◌+◌, ◌==◌, ◌||◌, ◌∷◌,
}
use ci_cache.Tier.{
  Error, Got, Meta, Reader, Sentinel, Stated, Tier, errors_is, exists, failed, found, has, lacks,
  not_found, sentinel,
}

pub record Breaker : Type 0 where
  pub threshold : ℕ
  pub window : ℕ
  pub consecutive : ℕ
  pub open_until : ℕ
  pub drops : ℕ
  pub bypassed : ℕ
  pub trips : ℕ

abbrev pub default_threshold : ℕ
default_threshold = 5

abbrev pub default_window : ℕ
default_window = 30 * 1_000_000_000

pub data Setting : Type 0 where
  threshold window : ℕ → Setting

unfoldable pub apply : Setting → Breaker → Breaker
apply (threshold n) b = if slt 0 n then record b { threshold = n } else b
apply (window d) b = if slt 0 d then record b { window = d } else b

apply_all : List Setting → Breaker → Breaker
apply_all [] b = b
apply_all (o ∷ os) b = apply_all os (apply o b)

abbrev defaults : Breaker
defaults = record {
  threshold = default_threshold;
  window = default_window;
  consecutive = 0;
  open_until = 0;
  drops = 0;
  bypassed = 0;
  trips = 0;
}

-- `New`.
unfoldable pub init : List Setting → Breaker
unfolding apply_all apply
init opts = apply_all opts defaults

-- `Open` at the instant `now`.
unfoldable pub is_open : Breaker → ℕ → Bool
is_open b now = ltb now b.open_until

unfoldable pub allow : Breaker → ℕ → Breaker × Bool
allow b now =
    if b.open_until == 0
    then (b, true)
    else if ltb now b.open_until
    then (b, false)
    else (record b { open_until = 0; consecutive = 0 }, true)

unfoldable pub healthy : Option Error → Bool
healthy none = true
healthy (some e) = errors_is e not_found || errors_is e exists

-- `record`, with the clock at `now`.
unfoldable pub note : Breaker → ℕ → Option Error → Breaker
note b now err =
    if healthy err
    then record b { consecutive = 0 }
    else let n = add64 b.consecutive 1 in
      if sle b.threshold n
      then record b { consecutive = 0; open_until = now + b.window; trips = add64 b.trips 1 }
      else record b { consecutive = n }

unfoldable pub bypass : Breaker → Breaker
bypass b = record b { bypassed = add64 b.bypassed 1 }

unfoldable pub drop : Breaker → Breaker
drop b = record b { drops = add64 b.drops 1 }

abbrev pub got_error : Got → Option Error
got_error (found r m) = none
got_error (failed e) = some e

abbrev pub stat_error : Stated → Option Error
stat_error (has m) = none
stat_error (lacks e) = some e

-- A failure becomes a miss; a miss passes as it is.
unfoldable pub soften : Got → Got
soften (found r m) = found r m
soften (failed e) = if errors_is e not_found then failed e else failed (sentinel not_found)

unfoldable pub soften_stat : Stated → Stated
soften_stat (has m) = has m
soften_stat (lacks e) = if errors_is e not_found then lacks e else lacks (sentinel not_found)

-- Whether an outcome is an error other than `s`.
unfoldable pub failed_but : Sentinel → Option Error → Bool
failed_but s none = false
failed_but s (some e) = not (errors_is e s)

module _ {W : Type 0} (t : Tier W) where
  -- `start` is the clock at `allow`, `end` the clock at `record`.
  unfoldable pub get : (start end : ℕ) → Text → Breaker × W → (Breaker × W) × Got
  get start end key (b, w) =
      let (b', called) = allow b start in
      if called
      then (let (w', r) = t.get key w in ((note b' end (got_error r), w'), soften r))
      else ((bypass b', w), failed (sentinel not_found))

  unfoldable pub put :
      (start end : ℕ) → Text → Reader → Meta → Breaker × W → (Breaker × W) × Option Error
  put start end key r m (b, w) =
      let (b', called) = allow b start in
      if called
      then (let (w', err) = t.put key r m w in
          let b'' = note b' end err in
          ((if failed_but exists err then drop b'' else b'', w'), none))
      else ((drop (bypass b'), w), none)

  unfoldable pub stat : (start end : ℕ) → Text → Breaker × W → (Breaker × W) × Stated
  stat start end key (b, w) =
      let (b', called) = allow b start in
      if called
      then (let (w', r) = t.stat key w in ((note b' end (stat_error r), w'), soften_stat r))
      else ((bypass b', w), lacks (sentinel not_found))

  unfoldable pub delete : (start end : ℕ) → Text → Breaker × W → (Breaker × W) × Option Error
  delete start end key (b, w) =
      let (b', called) = allow b start in
      if called
      then (let (w', err) = t.delete key w in
          let b'' = note b' end err in
          ((if failed_but not_found err then drop b'' else b'', w'), none))
      else ((drop (bypass b'), w), none)

-- A request with the clock readings made while it is served.
pub data Request : Type 0 where
  get_request : (start end : ℕ) → Text → Request
  put_request : (start end : ℕ) → Text → Reader → Meta → Request
  stat_request : (start end : ℕ) → Text → Request
  delete_request : (start end : ℕ) → Text → Request

abbrev pub started : Request → ℕ
started (get_request start end key) = start
started (put_request start end key r m) = start
started (stat_request start end key) = start
started (delete_request start end key) = start

module _ {W : Type 0} (t : Tier W) where
  unfoldable pub serve : Request → Breaker × W → Breaker × W
  serve (get_request start end key) s = (get t start end key s).0
  serve (put_request start end key r m) s = (put t start end key r m s).0
  serve (stat_request start end key) s = (stat t start end key s).0
  serve (delete_request start end key) s = (delete t start end key s).0

  unfoldable pub serve_all : List Request → Breaker × W → Breaker × W
  serve_all [] s = s
  serve_all (q ∷ qs) s = serve_all qs (serve q s)

-- Requests run at once, so their calls of `allow` and `record` come in any order.
pub data Event : Type 0 where
  allowed : ℕ → Event
  noted : ℕ → Option Error → Event

unfoldable pub on_event : Event → Breaker → Breaker
on_event (allowed now) b = (allow b now).0
on_event (noted now err) b = note b now err

unfoldable pub on_events : List Event → Breaker → Breaker
on_events [] b = b
on_events (e ∷ es) b = on_events es (on_event e b)
