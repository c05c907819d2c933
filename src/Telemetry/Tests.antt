-- ===== src/Telemetry/Tests.antt =====
-- Runs of a counted tier.
use ci_cache.Base.{
  List, Text, [], add64, codes, eqb, false, insert, length, lookup, none, refl, true, ℕ, ◌&&◌, ◌∷◌,
  ◌≡◌,
}
use ci_cache.Tier.{Meta, Reader, errors_is}
use ci_cache.Tier.Laws.{stream}
use ci_cache.Tier.Sample.{Objects, memory}
use ci_cache.Telemetry.{TierSnapshot, close, counts, new_recorder, tier_snapshot, wrap_tier}
use ci_cache.Telemetry.Answers.{Call, Shows, gets, puts, run, stats, total}
use ci_cache.Telemetry.Wrapped.{counted}

abbrev go : Text
go = codes "go/build"

abbrev took_one : (op key : Text) → Objects → ℕ
took_one op key w = 1

abbrev whole : Text → Reader → Meta → Objects → ℕ
whole key r m w = length r.content

abbrev kept : Meta
kept = record { size = 2; mod_time = 7; content_type = []; immutable = true }

abbrev calls : List Call
calls =
    gets (codes "a")
    ∷ puts (codes "a") (stream (1 ∷ 2 ∷ [])) kept
    ∷ gets (codes "a")
    ∷ stats (codes "a")
    ∷ puts (codes "a") (stream (1 ∷ 2 ∷ [])) kept
    ∷ []

abbrev shown : TierSnapshot
shown = tier_snapshot (
    counts go memory.name
      (run (λ key r m s. whole key r m s.0) (wrap_tier took_one whole memory go) calls
        ([], new_recorder)).0.1)

shown_totals :
    (shown.gets ≡ 2)
    × (shown.hits ≡ 1)
    × (shown.misses ≡ 1)
    × (shown.puts ≡ 2)
    × (shown.errors ≡ 0)
    × (shown.bytes_written ≡ 4)
unfolding tier_snapshot wrap_tier eqb lookup insert add64 errors_is
shown_totals = (refl, refl, refl, refl, refl, refl)

-- A second `Close` counts nothing.
closed_twice :
    let first = close go memory.name 5 false new_recorder in
    (tier_snapshot (counts go memory.name (close go memory.name 5 first.0 first.1).1)).bytes_read
    ≡ 5
unfolding tier_snapshot close eqb lookup add64
closed_twice = refl

counted_example :
    let s =
      run
        (λ key r m s. whole key r m s.0)
        (wrap_tier took_one whole memory go)
        calls
        ([], new_recorder) in
    let p = run whole memory calls [] in
    (s.0.0 ≡ p.0)
    × (s.1 ≡ p.1)
    × Shows (tier_snapshot (counts go memory.name s.0.1)) (total p.1)
    × ((g k : Text) → (eqb go g && eqb memory.name k) ≡ false → s.0.1.tiers g k ≡ none)
counted_example = counted took_one whole memory go calls []
