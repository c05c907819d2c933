-- ===== src/Breaker/Invariant.antt =====
-- The bookkeeping of the breaker under every operation.
use ci_cache.Base.{
  All, Bool, List, Option, Text, [], add64, arith, false, half_word, if◌then◌else◌, refl, sle_small,
  slt, true, word, ℕ, ◌+◌, ◌<◌, ◌∙◌, ◌∷◌, ◌≡◌,
}
use ci_cache.Tier.{Error, Meta, Reader, Tier, exists, not_found}
use ci_cache.Breaker.{
  defaults, Breaker, Request, Setting, allow, apply, apply_all, bypass, delete, delete_request,
  drop, failed_but, get, get_request, got_error, init, note, put, put_request, serve, serve_all,
  stat, stat_error, stat_request, threshold, window,
}

pub record IsValid (b : Breaker) : Type 0 where
  pub threshold_pos : 0 < b.threshold
  pub threshold_fits : b.threshold < half_word
  pub below : b.consecutive < b.threshold

-- One more failure, in range.
pub step_in_range :
    (b : Breaker)
    → IsValid b
    → (add64 b.consecutive 1 ≡ b.consecutive + 1) × (b.consecutive + 1 < half_word)
unfolding add64
step_in_range b v = (ground arith, omega arith)

pub allow-IsValid : (b : Breaker) (now : ℕ) → IsValid b → IsValid (allow b now).0
unfolding allow
allow-IsValid b now v = ground arith

pub note-IsValid :
    (b : Breaker) (now : ℕ) (err : Option Error) → IsValid b → IsValid (note b now err)
unfolding note
note-IsValid b now err v =
    ground (arith, step_in_range b v, sle_small b.threshold (b.consecutive + 1))

pub soft_reset :
    (b : Breaker) → IsValid b → IsValid (bypass b) × IsValid (drop b) × IsValid (drop (bypass b))
unfolding bypass drop
soft_reset b v = ground arith

module _ {W : Type 0} (t : Tier W) (start end : ℕ) (key : Text) (b : Breaker) (w : W)
    (v : IsValid b) where
  outcome-IsValid : (err : Option Error) → IsValid (note (allow b start).0 end err)
  outcome-IsValid err = note-IsValid (allow b start).0 end err (allow-IsValid b start v)

  drop-IsValid :
      (s : Bool) (err : Option Error)
      → let b' = note (allow b start).0 end err in IsValid (if s then drop b' else b')
  drop-IsValid true err = (soft_reset _ (outcome-IsValid err)).1
  drop-IsValid false err = outcome-IsValid err

  pub get-IsValid : IsValid (get t start end key (b, w)).0.0
  unfolding get
  get-IsValid = ground (
    arith,
    outcome-IsValid (got_error (t.get key w).1),
    soft_reset (allow b start).0 (allow-IsValid b start v),
  )

  pub stat-IsValid : IsValid (stat t start end key (b, w)).0.0
  unfolding stat
  stat-IsValid = ground (
    arith,
    outcome-IsValid (stat_error (t.stat key w).1),
    soft_reset (allow b start).0 (allow-IsValid b start v),
  )

  pub put-IsValid : (r : Reader) (m : Meta) → IsValid (put t start end key r m (b, w)).0.0
  unfolding put
  put-IsValid r m = ground (
    arith,
    drop-IsValid (failed_but exists (t.put key r m w).1) (t.put key r m w).1,
    soft_reset (allow b start).0 (allow-IsValid b start v),
  )

  pub delete-IsValid : IsValid (delete t start end key (b, w)).0.0
  unfolding delete
  delete-IsValid = ground (
    arith,
    drop-IsValid (failed_but not_found (t.delete key w).1) (t.delete key w).1,
    soft_reset (allow b start).0 (allow-IsValid b start v),
  )

abbrev pub InRange : Setting → Type 0
InRange (threshold n) = n < word
InRange (window d) = d < word

slt_pos : (n : ℕ) → n < word → slt 0 n ≡ true → (0 < n) × (n < half_word)
unfolding slt
slt_pos n h p = ground arith

apply-IsValid :
    (o : Setting) (b : Breaker) → IsValid b → InRange o → b.consecutive ≡ 0 → IsValid (apply o b)
unfolding apply
apply-IsValid (threshold n) b v h e = ground (arith, slt_pos n h)
apply-IsValid (window d) b v h e = ground arith

apply-consecutive : (o : Setting) (b : Breaker) → (apply o b).consecutive ≡ b.consecutive
unfolding apply
apply-consecutive (threshold n) b = ground arith
apply-consecutive (window d) b = ground arith

apply_all-IsValid :
    (opts : List Setting) (b : Breaker)
    → IsValid b
    → All InRange opts
    → b.consecutive ≡ 0
    → IsValid (apply_all opts b)
unfolding apply_all
apply_all-IsValid [] b v h e = v
apply_all-IsValid (o ∷ os) b v h e =
    apply_all-IsValid os (apply o b) (apply-IsValid o b v h.0 e) h.1 (apply-consecutive o b ∙ e)

pub init-IsValid : (opts : List Setting) → All InRange opts → IsValid (init opts)
unfolding init
init-IsValid opts h = apply_all-IsValid opts defaults (omega arith) h refl

module _ {W : Type 0} (t : Tier W) where
  serve-IsValid : (q : Request) (b : Breaker) (w : W) → IsValid b → IsValid (serve t q (b, w)).0
  unfolding serve
  serve-IsValid (get_request start end key) b w v = get-IsValid t start end key b w v
  serve-IsValid (put_request start end key r m) b w v = put-IsValid t start end key b w v r m
  serve-IsValid (stat_request start end key) b w v = stat-IsValid t start end key b w v
  serve-IsValid (delete_request start end key) b w v = delete-IsValid t start end key b w v

  serve_all-keeps :
      (qs : List Request) (b : Breaker) (w : W) → IsValid b → IsValid (serve_all t qs (b, w)).0
  unfolding serve_all
  serve_all-keeps [] b w v = v
  serve_all-keeps (q ∷ qs) b w v =
      serve_all-keeps qs (serve t q (b, w)).0 (serve t q (b, w)).1 (serve-IsValid q b w v)

-- A breaker built with any settings that are int64 values has a positive threshold that its count is below, and no sequence of requests changes that, whatever the tier answers and the clock reads.
pub serve_all-IsValid :
    {W : Type 0} (t : Tier W) (opts : List Setting) (qs : List Request) (w : W)
    → All InRange opts
    → IsValid (serve_all t qs (init opts, w)).0
serve_all-IsValid t opts qs w h = serve_all-keeps t qs (init opts) w (init-IsValid opts h)
