-- ===== src/Telemetry/Counts.antt =====
-- What one record adds to the totals of a snapshot.
use ci_cache.Base.{
  All, Bool-cases, List, Text, [], add64, ap, arith, eqb, eqb_iff, false, if◌then◌else◌, inl, inr,
  insert, lookup, lookup-insert, refl, some, true, word, ℕ, ◌%◌, ◌+◌, ◌<◌, ◌∙◌, ◌∷◌, ◌≡◌,
}
use ci_cache.Telemetry.{
  TierCounts, increment, number, outcome_dropped, outcome_error, outcome_hit, outcome_miss, sum,
  tier_snapshot,
}

-- Amounts that totals grow by.
pub record Tally : Type 0 where
  pub gets : ℕ
  pub hits : ℕ
  pub misses : ℕ
  pub errors : ℕ
  pub puts : ℕ
  pub dropped : ℕ
  pub bytes_read : ℕ
  pub bytes_written : ℕ

abbrev pub no_tally : Tally
no_tally = record {
  gets = 0;
  hits = 0;
  misses = 0;
  errors = 0;
  puts = 0;
  dropped = 0;
  bytes_read = 0;
  bytes_written = 0;
}

-- How often an outcome is this one.
abbrev pub one_if : Text → Text → ℕ
one_if o p = if eqb o p then 1 else 0

-- The totals of `c'` are those of `c` and the tally, modulo 2^64.
pub record Grows (c : TierCounts) (t : Tally) (c' : TierCounts) : Type 0 where
  pub gets : (tier_snapshot c').gets ≡ ((tier_snapshot c).gets + t.gets) % word
  pub hits : (tier_snapshot c').hits ≡ ((tier_snapshot c).hits + t.hits) % word
  pub misses : (tier_snapshot c').misses ≡ ((tier_snapshot c).misses + t.misses) % word
  pub errors : (tier_snapshot c').errors ≡ ((tier_snapshot c).errors + t.errors) % word
  pub puts : (tier_snapshot c').puts ≡ ((tier_snapshot c).puts + t.puts) % word
  pub dropped : (tier_snapshot c').dropped ≡ ((tier_snapshot c).dropped + t.dropped) % word
  pub bytes_read :
      (tier_snapshot c').bytes_read ≡ ((tier_snapshot c).bytes_read + t.bytes_read) % word
  pub bytes_written :
      (tier_snapshot c').bytes_written ≡ ((tier_snapshot c).bytes_written + t.bytes_written) % word

abbrev pub both : Tally → Tally → Tally
both t u = record {
  gets = t.gets + u.gets;
  hits = t.hits + u.hits;
  misses = t.misses + u.misses;
  errors = t.errors + u.errors;
  puts = t.puts + u.puts;
  dropped = t.dropped + u.dropped;
  bytes_read = t.bytes_read + u.bytes_read;
  bytes_written = t.bytes_written + u.bytes_written;
}

pub Grows-trans :
    {c d e : TierCounts} {t u : Tally} → Grows c t d → Grows d u e → Grows c (both t u) e
Grows-trans g h = record {
  gets = omega (arith, g.gets, h.gets);
  hits = omega (arith, g.hits, h.hits);
  misses = omega (arith, g.misses, h.misses);
  errors = omega (arith, g.errors, h.errors);
  puts = omega (arith, g.puts, h.puts);
  dropped = omega (arith, g.dropped, h.dropped);
  bytes_read = omega (arith, g.bytes_read, h.bytes_read);
  bytes_written = omega (arith, g.bytes_written, h.bytes_written);
}

-- The numbers of a map fit an int64.
abbrev pub Fits : List (Text × ℕ) → Type 0
Fits m = All (λ e. e.1 < word) m

lookup-Fits : (o : Text) (m : List (Text × ℕ)) → Fits m → number (lookup o m) < word
unfolding lookup
lookup-Fits o [] h = omega arith
lookup-Fits o ((p, v) ∷ m) h = ground (arith, lookup-Fits o m h.1)

insert-Fits : (o : Text) (v : ℕ) (m : List (Text × ℕ)) → v < word → Fits m → Fits (insert o v m)
unfolding insert
insert-Fits o v [] fits h = (fits, tt)
insert-Fits o v ((p, w) ∷ m) fits h = elim (Bool-cases (eqb p o)) [
  | inl same ↦ rw same (fits, h.1)
  | inr differs ↦ rw differs (h.0, insert-Fits o v m fits h.1)
]

pub increment-Fits : (o : Text) (m : List (Text × ℕ)) → Fits m → Fits (increment o m)
unfolding increment add64
increment-Fits o m h = insert-Fits o _ m (omega arith) h

sum-Fits : (m : List (Text × ℕ)) → sum m < word
unfolding add64
sum-Fits [] = omega arith
sum-Fits ((o, v) ∷ m) = omega arith

insert-same :
    (o p : Text) (x v : ℕ) (m : List (Text × ℕ))
    → eqb p o ≡ true
    → insert o x ((p, v) ∷ m) ≡ (o, x) ∷ m
unfolding insert
insert-same o p x v m h = rw h refl

insert-other :
    (o p : Text) (x v : ℕ) (m : List (Text × ℕ))
    → eqb p o ≡ false
    → insert o x ((p, v) ∷ m) ≡ (p, v) ∷ insert o x m
unfolding insert
insert-other o p x v m h = rw h refl

lookup-head :
    (o p : Text) (v : ℕ) (m : List (Text × ℕ))
    → lookup o ((p, v) ∷ m) ≡ (if eqb p o then some v else lookup o m)
unfolding lookup
lookup-head o p v m = refl

pub sum-increment : (o : Text) (m : List (Text × ℕ)) → sum (increment o m) ≡ (sum m + 1) % word
unfolding increment insert lookup add64
sum-increment o [] = refl
sum-increment o ((p, v) ∷ m) = elim (Bool-cases (eqb p o)) [
  | inl same ↦
      let at : lookup o ((p, v) ∷ m) ≡ some v = lookup-head o p v m ∙ rw same refl in
      ap (λ l. sum (insert o (add64 (number l) 1) ((p, v) ∷ m))) at
      ∙ ap sum (insert-same o p (add64 v 1) v m same)
      ∙ omega arith
  | inr differs ↦
      let at : lookup o ((p, v) ∷ m) ≡ lookup o m = lookup-head o p v m ∙ rw differs refl in
      let x : ℕ = add64 (number (lookup o m)) 1 in
      ap (λ l. sum (insert o (add64 (number l) 1) ((p, v) ∷ m))) at
      ∙ ap sum (insert-other o p x v m differs)
      ∙ omega (arith, sum-increment o m)
]

pub number-increment :
    (o p : Text) (m : List (Text × ℕ))
    → Fits m
    → number (lookup p (increment o m)) ≡ (number (lookup p m) + one_if o p) % word
unfolding increment add64
number-increment o p m h = elim (Bool-cases (eqb o p)) [
  | inl same ↦
      let at : lookup o m ≡ lookup p m = ap (λ q. lookup q m) ((eqb_iff o p).0 same) in
      rw (lookup-insert o p (add64 (number (lookup o m)) 1) m, same, at) refl
  | inr differs ↦
      rw (lookup-insert o p (add64 (number (lookup o m)) 1) m, differs)
        (omega (arith, lookup-Fits p m h))
]

-- What the recorder keeps fits an int64.
pub record IsCounts (c : TierCounts) : Type 0 where
  pub get_fits : Fits c.get
  pub put_fits : Fits c.put
  pub read_fits : c.bytes_read < word
  pub written_fits : c.bytes_written < word

pub Grows-none : (c : TierCounts) → IsCounts c → Grows c no_tally c
unfolding tier_snapshot add64
Grows-none c i = record {
  gets = omega (arith, sum-Fits c.get);
  hits = omega (arith, lookup-Fits outcome_hit c.get i.get_fits);
  misses = omega (arith, lookup-Fits outcome_miss c.get i.get_fits);
  errors = omega arith;
  puts = omega (arith, sum-Fits c.put);
  dropped = omega arith;
  bytes_read = omega (arith, i.read_fits);
  bytes_written = omega (arith, i.written_fits);
}

-- What a read adds to the totals, and what a write adds of which the tier has read so much.
abbrev pub read_tally : Text → Tally
read_tally o = record no_tally {
  gets = 1;
  hits = one_if o outcome_hit;
  misses = one_if o outcome_miss;
  errors = one_if o outcome_error;
  dropped = one_if o outcome_dropped;
}

abbrev pub write_tally : ℕ → Text → Tally
write_tally n o = record no_tally {
  puts = 1;
  errors = one_if o outcome_error;
  dropped = one_if o outcome_dropped;
  bytes_written = n;
}

abbrev pub with_read : Text → TierCounts → TierCounts
with_read o c = record c { get = increment o c.get }

abbrev pub with_write : ℕ → Text → TierCounts → TierCounts
with_write n o c = record c { put = increment o c.put; bytes_written = add64 c.bytes_written n }

pub read-Grows : (o : Text) (c : TierCounts) → IsCounts c → Grows c (read_tally o) (with_read o c)
unfolding tier_snapshot add64
read-Grows o c i =
    let n = Grows-none c i in
    record {
      gets = sum-increment o c.get;
      hits = number-increment o outcome_hit c.get i.get_fits;
      misses = number-increment o outcome_miss c.get i.get_fits;
      errors = omega (arith, number-increment o outcome_error c.get i.get_fits);
      puts = n.puts;
      dropped = omega (arith, number-increment o outcome_dropped c.get i.get_fits);
      bytes_read = n.bytes_read;
      bytes_written = n.bytes_written;
    }

pub write-Grows :
    (n : ℕ) (o : Text) (c : TierCounts) → IsCounts c → Grows c (write_tally n o) (with_write n o c)
unfolding tier_snapshot add64
write-Grows n o c i =
    let same = Grows-none c i in
    record {
      gets = same.gets;
      hits = same.hits;
      misses = same.misses;
      errors = omega (arith, number-increment o outcome_error c.put i.put_fits);
      puts = sum-increment o c.put;
      dropped = omega (arith, number-increment o outcome_dropped c.put i.put_fits);
      bytes_read = same.bytes_read;
      bytes_written = refl;
    }

pub read-IsCounts : (o : Text) (c : TierCounts) → IsCounts c → IsCounts (with_read o c)
read-IsCounts o c i = record {
  get_fits = increment-Fits o c.get i.get_fits;
  put_fits = i.put_fits;
  read_fits = i.read_fits;
  written_fits = i.written_fits;
}

pub write-IsCounts : (n : ℕ) (o : Text) (c : TierCounts) → IsCounts c → IsCounts (with_write n o c)
unfolding add64
write-IsCounts n o c i = record {
  get_fits = i.get_fits;
  put_fits = increment-Fits o c.put i.put_fits;
  read_fits = i.read_fits;
  written_fits = omega arith;
}
