-- ===== src/Telemetry/Wrapped.antt =====
-- A run of calls of a tier, counted and not.
use ci_cache.Base.{
  List, Text, [], add64, ap, ap₂, arith, codes, eqb, eqb_refl, false, lookup, none, refl, subst,
  sym, true, ℕ, ◌&&◌, ◌∙◌, ◌∷◌, ◌≡◌,
}
use ci_cache.Tier.{Meta, Reader, Tier}
use ci_cache.Telemetry.{
  Recorder, TierCounts, counts, increment, new_counts, new_recorder, observe, read_outcome,
  record_bytes, record_get, record_put, store, tier_snapshot, wrap_tier, write_outcome,
}
use ci_cache.Telemetry.Counts.{
  Grows, Grows-none, Grows-trans, IsCounts, Tally, both, no_tally, read-Grows, read-IsCounts,
  read_tally, with_read, with_write, write-Grows, write-IsCounts, write_tally,
}
use ci_cache.Telemetry.Answers.{
  Call, Shows, deletes, gets, puts, read_outcome-tally, run, serve, stats, tally_of, total,
  write_outcome-tally,
}

-- From `rec` to `rec'` the counters of one front-end in one tier grow by a tally, and no others change.
record Recorded (f n : Text) (rec : Recorder) (t : Tally) (rec' : Recorder) : Type 0 where
  grown : Grows (counts f n rec) t (counts f n rec')
  fits : IsCounts (counts f n rec')
  others : (g k : Text) → (eqb f g && eqb n k) ≡ false → rec'.tiers g k ≡ rec.tiers g k

Recorded-trans :
    {f n : Text} {r s u : Recorder} {t v : Tally}
    → Recorded f n r t s
    → Recorded f n s v u
    → Recorded f n r (both t v) u
Recorded-trans h i = record {
  grown = Grows-trans h.grown i.grown;
  fits = i.fits;
  others = λ g k e. i.others g k e ∙ h.others g k e;
}

counts-store : (f n : Text) (c : TierCounts) (rec : Recorder) → counts f n (store f n c rec) ≡ c
counts-store f n c rec = rw (eqb_refl f, eqb_refl n) refl

store-others :
    (f n g k : Text) (c : TierCounts) (rec : Recorder)
    → (eqb f g && eqb n k) ≡ false
    → (store f n c rec).tiers g k ≡ rec.tiers g k
store-others f n g k c rec h = rw h refl

store-Recorded :
    (f n : Text) (rec : Recorder) (t : Tally) (c : TierCounts)
    → Grows (counts f n rec) t c
    → IsCounts c
    → Recorded f n rec t (store f n c rec)
store-Recorded f n rec t c h i = record {
  grown = subst (Grows (counts f n rec) t) (sym (counts-store f n c rec)) h;
  fits = subst IsCounts (sym (counts-store f n c rec)) i;
  others = λ g k e. store-others f n g k c rec e;
}

get-Recorded :
    (f n o op : Text) (d : ℕ) (rec : Recorder)
    → IsCounts (counts f n rec)
    → Recorded f n rec (read_tally o) (record_get f n o (observe f n op d rec))
unfolding record_get observe
get-Recorded f n o op d rec i =
    let c = counts f n rec in
    let r =
      store-Recorded f n rec (read_tally o) (with_read o c) (read-Grows o c i)
        (read-IsCounts o c i) in
    record { grown = r.grown; fits = r.fits; others = r.others }

put-Recorded :
    (f n o op : Text) (d read : ℕ) (rec : Recorder)
    → IsCounts (counts f n rec)
    → Recorded f n rec
        (write_tally read o)
        (record_put f n o (record_bytes f n true read (observe f n op d rec)))
unfolding record_put record_bytes observe
put-Recorded f n o op d read rec i =
    let c = counts f n rec in
    let first : TierCounts = record c { bytes_written = add64 c.bytes_written read } in
    let between = store f n first rec in
    let put_in : TierCounts → TierCounts = λ x. record x { put = increment o x.put } in
    let now : counts f n (store f n (put_in (counts f n between)) between) ≡ with_write read o c =
      counts-store f n (put_in (counts f n between)) between
      ∙ ap put_in (counts-store f n first rec) in
    record {
      grown = subst (Grows c (write_tally read o)) (sym now) (write-Grows read o c i);
      fits = subst IsCounts (sym now) (write-IsCounts read o c i);
      others = λ g k e. rw e refl;
    }

observe-Recorded :
    (f n op : Text) (d : ℕ) (rec : Recorder)
    → IsCounts (counts f n rec)
    → Recorded f n rec no_tally (observe f n op d rec)
unfolding observe
observe-Recorded f n op d rec i = record {
  grown = Grows-none (counts f n rec) i;
  fits = i;
  others = λ g k e. refl;
}

module _ {W : Type 0} (took : (op key : Text) → W → ℕ) (consumed : Text → Reader → Meta → W → ℕ)
    (t : Tier W) (frontend : Text) where
  abbrev seen : Text → Reader → Meta → W × Recorder → ℕ
  seen key r m s = consumed key r m s.0

  serve-wrap_tier :
      (c : Call) (w : W) (rec : Recorder)
      → IsCounts (counts frontend t.name rec)
      → let s = serve seen (wrap_tier took consumed t frontend) c (w, rec) in
        let p = serve consumed t c w in
        (s.0.0 ≡ p.0) × (s.1 ≡ p.1) × Recorded frontend t.name rec (tally_of p.1) s.0.1
  unfolding wrap_tier
  serve-wrap_tier (gets key) w rec i =
      let a = (t.get key w).1 in
      let d = took (codes "get") key w in
      let o = read_outcome a in
      let next = record_get frontend t.name o (observe frontend t.name (codes "get") d rec) in
      (
        refl,
        refl,
        subst (λ u. Recorded frontend t.name rec u next) (read_outcome-tally a)
            (get-Recorded frontend t.name o (codes "get") d rec i),
      )
  serve-wrap_tier (puts key r m) w rec i =
      let e = (t.put key r m w).1 in
      let d = took (codes "put") key w in
      let n = consumed key r m w in
      let o = write_outcome e in
      let next =
        record_put frontend t.name o
          (record_bytes frontend t.name true n (observe frontend t.name (codes "put") d rec)) in
      (
        refl,
        refl,
        subst (λ u. Recorded frontend t.name rec u next) (write_outcome-tally n e)
            (put-Recorded frontend t.name o (codes "put") d n rec i),
      )
  serve-wrap_tier (stats key) w rec i = (
    refl,
    refl,
    observe-Recorded frontend t.name (codes "stat") (took (codes "stat") key w) rec i,
  )
  serve-wrap_tier (deletes key) w rec i = (
    refl,
    refl,
    observe-Recorded frontend t.name (codes "delete") (took (codes "delete") key w) rec i,
  )

  run-wrap_tier :
      (cs : List Call) (w : W) (rec : Recorder)
      → IsCounts (counts frontend t.name rec)
      → let s = run seen (wrap_tier took consumed t frontend) cs (w, rec) in
        let p = run consumed t cs w in
        (s.0.0 ≡ p.0) × (s.1 ≡ p.1) × Recorded frontend t.name rec (total p.1) s.0.1
  run-wrap_tier [] w rec i = (
    refl,
    refl,
    record { grown = Grows-none (counts frontend t.name rec) i; fits = i; others = λ g k e. refl },
  )
  run-wrap_tier (c ∷ cs) w rec i =
      let first = serve-wrap_tier c w rec i in
      let next = (serve seen (wrap_tier took consumed t frontend) c (w, rec)).0 in
      let later = run-wrap_tier cs next.0 next.1 first.2.fits in
      let states = ap (λ v. run consumed t cs v) first.0 in
      (
        later.0 ∙ ap (λ p. p.0) states,
        ap₂ ◌∷◌ first.1 (later.1 ∙ ap (λ p. p.1) states),
        Recorded-trans first.2 (
            subst
              (λ bs.
                Recorded frontend t.name next.1 (total bs)
                  (run seen (wrap_tier took consumed t frontend) cs next).0.1)
              (ap (λ p. p.1) states) later.2),
      )

  -- A tier that is counted answers every sequence of calls as the tier itself, and leaves it in the same state; what a new recorder then shows of that front-end and tier is, modulo 2^64, the number of reads and of writes, of reads that were found and of those that were absent, of reads and writes that failed and of those for which there was no space, and of the bytes that the tier read of the bodies; a write of what exists is no failure, and no bytes of a read are counted before its reader is closed. It shows nothing of any other.
  pub counted :
      (cs : List Call) (w : W)
      → let s = run seen (wrap_tier took consumed t frontend) cs (w, new_recorder) in
        let p = run consumed t cs w in
        (s.0.0 ≡ p.0)
        × (s.1 ≡ p.1)
        × Shows (tier_snapshot (counts frontend t.name s.0.1)) (total p.1)
        × ((g k : Text) → (eqb frontend g && eqb t.name k) ≡ false → s.0.1.tiers g k ≡ none)
  unfolding tier_snapshot add64 lookup
  counted cs w =
      let fresh : IsCounts new_counts = record {
        get_fits = tt;
        put_fits = tt;
        read_fits = omega arith;
        written_fits = omega arith;
      } in
      let r = run-wrap_tier cs w new_recorder fresh in
      let g = r.2.grown in
      (
        r.0,
        r.1,
        record {
          gets = omega (arith, g.gets);
          hits = omega (arith, g.hits);
          misses = omega (arith, g.misses);
          errors = omega (arith, g.errors);
          puts = omega (arith, g.puts);
          dropped = omega (arith, g.dropped);
          bytes_read = omega (arith, g.bytes_read);
          bytes_written = omega (arith, g.bytes_written);
        },
        r.2.others,
      )
