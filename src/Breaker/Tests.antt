-- ===== src/Breaker/Tests.antt =====
-- Runs of the breaker, and its theorems at concrete inputs.
use ci_cache.Base.{
  List, [], add64, arith, codes, none, refl, sle, slt, some, true, word, ℕ, ◌%◌, ◌+◌, ◌∷◌, ◌≡◌,
}
use ci_cache.Tier.{
  Error, Meta, Reader, Tier, errors_is, failed, found, has, lacks, not_found, other,
}
use ci_cache.Breaker.{
  Breaker, Request, Setting, allow, bypass, delete, delete_request, drop, failed_but, get,
  get_request, healthy, init, note, put, put_request, serve, serve_all, soften, soften_stat, stat,
  stat_request, threshold, window,
}
use ci_cache.Breaker.Invariant.{IsValid}
use ci_cache.Breaker.Trips.{note_all, note_all-trips}
use ci_cache.Breaker.Answers.{reads_soft, serve_all_open, writes_soft}

abbrev down : Error
down = other (codes "connection refused")

-- A tier that is down, and counts its calls.
abbrev broken_tier : Tier ℕ
broken_tier = record {
  name = codes "remote";
  get = λ key n. (n + 1, failed down);
  put = λ key r m n. (n + 1, some down);
  stat = λ key n. (n + 1, lacks down);
  delete = λ key n. (n + 1, some down);
}

abbrev object : Meta
object = record { size = 2; mod_time = 7; content_type = []; immutable = true }

abbrev body : Reader
body = record { content = 1 ∷ 2 ∷ []; broken = none }

abbrev requests : List Request
requests =
    get_request 1 2 (codes "a")
    ∷ put_request 3 4 (codes "a") body object
    ∷ stat_request 5 6 (codes "a")
    ∷ delete_request 7 8 (codes "a")
    ∷ []

abbrev opts : List Setting
opts = threshold 2 ∷ window 100 ∷ []

program : Unit {0}
unfolding init serve_all serve get put stat delete allow note healthy add64 slt sle bypass drop
    soften soften_stat failed_but errors_is
program = tt

-- The second failure opens the circuit, and the tier is called twice in all.
outage :
    serve_all broken_tier requests (init opts, 0)
    ≡ (record (init opts) { open_until = 104; drops = 2; bypassed = 2; trips = 1 }, 2)
unfolding program
outage = refl

abbrev closed : Breaker
closed = record {
  threshold = 2;
  window = 100;
  consecutive = 0;
  open_until = 0;
  drops = 0;
  bypassed = 0;
  trips = 0;
}

abbrev opened : Breaker
opened = record closed { open_until = 104; trips = 1 }

reads_soft_example :
    let got = (get broken_tier 1 2 (codes "a") (closed, 0)).1 in
    let stated = (stat broken_tier 1 2 (codes "a") (closed, 0)).1 in
    ((e : Error) → got ≡ failed e → errors_is e not_found ≡ true)
    × ((r : Reader) (m : Meta) → got ≡ found r m → failed down ≡ found r m)
    × ((e : Error) → stated ≡ lacks e → errors_is e not_found ≡ true)
    × ((m : Meta) → stated ≡ has m → lacks down ≡ has m)
reads_soft_example = reads_soft broken_tier 1 2 (codes "a") closed 0

writes_soft_example :
    let (s, e) = put broken_tier 1 2 (codes "a") body object (opened, 0) in
    let (s', e') = delete broken_tier 1 2 (codes "a") (opened, 0) in
    (e ≡ none) × (s.0.drops ≡ 1) × (e' ≡ none) × (s'.0.drops ≡ 1)
unfolding program
writes_soft_example = writes_soft broken_tier 1 2 (codes "a") opened 0 body object

serve_all_open_example :
    let s = serve_all broken_tier requests (opened, 0) in
    (s.1 ≡ 0) × (s.0.open_until ≡ 104) × (s.0.bypassed % word ≡ 4)
serve_all_open_example = serve_all_open broken_tier requests opened 0 (omega arith)

closed-IsValid : IsValid closed
closed-IsValid = omega arith

note_all-trips_example :
    (note_all ((1, some down) ∷ []) closed ≡ record closed { consecutive = 1 })
    × (note_all ((1, some down) ∷ (4, some down) ∷ []) closed ≡ opened)
unfolding program
note_all-trips_example =
    note_all-trips ((1, some down) ∷ []) 4 (some down) closed closed-IsValid (refl, (refl, tt)) refl
