-- ===== src/Breaker/Answers.antt =====
-- What a caller of the breaker sees.
use ci_cache.Base.{
  All, List, Option, Text, [], add64, arith, if◌then◌else◌, length, none, not, refl, true, word, ℕ,
  ◌%◌, ◌+◌, ◌<◌, ◌||◌, ◌∙◌, ◌∷◌, ◌≡◌,
}
use ci_cache.Tier.{
  Error, Meta, Reader, Tier, errors_is, exists, failed, found, has, lacks, not_found,
}
use ci_cache.Breaker.{
  Breaker, Request, allow, bypass, delete, delete_request, drop, failed_but, get, get_request, note,
  put, put_request, serve, serve_all, soften, soften_stat, started, stat, stat_request,
}

-- The answer to a read: a miss, or what the tier answered.
module _ {W : Type 0} (t : Tier W) (start end : ℕ) (key : Text) (b : Breaker) (w : W) where
  -- A read through the breaker fails only by a miss, and an object or metadata that it returns is the wrapped tier's answer.
  pub reads_soft :
      ((e : Error) → (get t start end key (b, w)).1 ≡ failed e → errors_is e not_found ≡ true)
      × ((r : Reader) (m : Meta)
          → (get t start end key (b, w)).1 ≡ found r m
          → (t.get key w).1 ≡ found r m)
      × ((e : Error) → (stat t start end key (b, w)).1 ≡ lacks e → errors_is e not_found ≡ true)
      × ((m : Meta) → (stat t start end key (b, w)).1 ≡ has m → (t.stat key w).1 ≡ has m)
  unfolding get stat soften soften_stat errors_is
  reads_soft = (λ e. ground arith, λ r m. ground arith, λ e. ground arith, λ m. ground arith)

  allow-drops : (now : ℕ) → (allow b now).0.drops ≡ b.drops
  unfolding allow
  allow-drops now = ground arith

  note-drops : (c : Breaker) (now : ℕ) (err : Option Error) → (note c now err).drops ≡ c.drops
  unfolding note
  note-drops c now err = ground arith

  -- A write or a delete through the breaker returns no error, and counts a drop exactly when the tier was not called, or failed by an error other than `ErrExists` (a write) or `ErrNotFound` (a delete).
  pub writes_soft :
      (r : Reader) (m : Meta)
      → ((put t start end key r m (b, w)).1 ≡ none)
        × ((put t start end key r m (b, w)).0.0.drops ≡ (
            if not (allow b start).1 || failed_but exists (t.put key r m w).1
            then add64 b.drops 1
            else b.drops))
        × ((delete t start end key (b, w)).1 ≡ none)
        × ((delete t start end key (b, w)).0.0.drops ≡ (
            if not (allow b start).1 || failed_but not_found (t.delete key w).1
            then add64 b.drops 1
            else b.drops))
  unfolding put delete drop bypass
  writes_soft r m =
      let d = allow-drops start in
      let p = note-drops (allow b start).0 end (t.put key r m w).1 in
      let q = note-drops (allow b start).0 end (t.delete key w).1 in
      (ground arith, ground (arith, d, p), ground arith, ground (arith, d, q))

module _ {W : Type 0} (t : Tier W) where
  serve_open :
      (q : Request) (b : Breaker) (w : W)
      → started q < b.open_until
      → ((serve t q (b, w)).1 ≡ w)
        × ((serve t q (b, w)).0.open_until ≡ b.open_until)
        × ((serve t q (b, w)).0.bypassed ≡ add64 b.bypassed 1)
  unfolding serve get put stat delete allow drop bypass
  serve_open (get_request start end key) b w h = ground arith
  serve_open (put_request start end key r m) b w h = ground arith
  serve_open (stat_request start end key) b w h = ground arith
  serve_open (delete_request start end key) b w h = ground arith

  -- While the circuit is open, requests of any kind and number that start before it ends never reach the wrapped tier: its state stays as it was, each is counted as bypassed, and the circuit stays open as long as it was.
  pub serve_all_open :
      (qs : List Request) (b : Breaker) (w : W)
      → All (λ q. started q < b.open_until) qs
      → ((serve_all t qs (b, w)).1 ≡ w)
        × ((serve_all t qs (b, w)).0.open_until ≡ b.open_until)
        × ((serve_all t qs (b, w)).0.bypassed % word ≡ (b.bypassed + length qs) % word)
  unfolding serve_all add64
  serve_all_open [] b w h = (refl, refl, omega arith)
  serve_all_open (q ∷ qs) b w h =
      let s = serve t q (b, w) in
      let one = serve_open q b w h.0 in
      let rest = serve_all_open qs s.0 s.1 (rw (one.1) (h.1)) in
      (rest.0 ∙ one.0, rest.1 ∙ one.1, omega (arith, rest.2, one.2))
