-- ===== src/Admin/Wipes.antt =====
-- What a wipe removes, and what it refuses.
use ci_cache.Base.{
  All, All-map, Bool, Bool-cases, List, Option, Text, [], ap, append_assoc, arith, codes, eqb,
  eqb_iff, false, inl, inr, is_filled, none, refl, some, sym, true, ℕ, ◌++◌, ◌==◌, ◌||◌, ◌∙◌, ◌∷◌,
  ◌≡◌, ◌≢◌, ◌⊎◌,
}
use ci_cache.Gomod.Names.Strings.{contains, split, trim_suffix}
use ci_cache.Gomod.Names.Strings.Cuts.{joined, joined-split, split-joined, trim_suffix-append}
use ci_cache.Admin.Prefix.{
  all_chars, any_dots, is_bucket_prefix, is_head, is_head_char, is_pieces, is_segment_char, is_tail,
}
use ci_cache.Tier.{Error}
use ci_cache.Admin.{
  Deleted, Deps, Failure, after_bucket, err, failed_precondition, internal, invalid_argument,
  wipe_accepted, wipe_bucket, wiped_bucket, wiped_disk,
}

-- Segments, each with a slash after it.
abbrev pub closed : List Text → Text
closed [] = []
closed (p ∷ ps) = p ++ 47 ∷ closed ps

abbrev pub IsSegment : Text → Type 0
IsSegment s = (is_filled s ≡ true) × (contains 47 s ≡ false) × (s ≢ codes ".") × (s ≢ codes "..")

-- The objects of a front-end: whole segments, of which the first begins with a lower-case letter.
pub record IsScoped (prefix : Text) : Type 0 where
  pub front_end : Text
  pub below : List Text
  pub spelled : prefix ≡ closed (front_end ∷ below)
  pub segments : All IsSegment (front_end ∷ below)
  pub lower : is_head front_end ≡ true

abbrev IsPiece : Text → Type 0
IsPiece s = (is_filled s ≡ true) × (contains 47 s ≡ false)

no_slash :
    (p : ℕ → Bool) (s : Text)
    → ((c : ℕ) → p c ≡ true → (c == 47) ≡ false)
    → all_chars p s ≡ true
    → contains 47 s ≡ false
unfolding contains
no_slash p [] f h = refl
no_slash p (c ∷ s) f h =
    let one : p c ≡ true = ground (arith, h) in
    let rest : all_chars p s ≡ true = ground (arith, h) in rw (f c one) (no_slash p s f rest)

segment_char : (c : ℕ) → is_segment_char c ≡ true → (c == 47) ≡ false
segment_char c h = ground arith

head_char : (c : ℕ) → is_head_char c ≡ true → (c == 47) ≡ false
head_char c h = ground arith

is_head-IsPiece : (s : Text) → is_head s ≡ true → IsPiece s
unfolding contains
is_head-IsPiece [] h = absurd (cc)
is_head-IsPiece (c ∷ s) h =
    let first : (c == 47) ≡ false = ground arith in
    let rest : all_chars is_head_char s ≡ true = ground (arith, h) in
    (refl, rw first (no_slash is_head_char s head_char rest))

-- The pieces of an accepted prefix.
tail_closed :
    (p : Text) (ps : List Text)
    → is_tail ps ≡ true
    → (ss : List Text) × (joined 47 (p ∷ ps) ≡ closed (p ∷ ss)) × All IsPiece ss
tail_closed p [] h = absurd (cc)
tail_closed p (q ∷ []) h = let e : q ≡ [] = (eqb_iff q []).0 h in ([], ap (λ s. p ++ 47 ∷ s) e, tt)
tail_closed p (q ∷ r ∷ ps) h =
    let filled : is_filled q ≡ true = ground (arith, h) in
    let chars : all_chars is_segment_char q ≡ true = ground (arith, h) in
    let rest : is_tail (r ∷ ps) ≡ true = ground (arith, h) in
    let (ss, e, all) = tail_closed q (r ∷ ps) rest in
    (
      q ∷ ss,
      ap (λ s. p ++ 47 ∷ s) e,
      ((filled, no_slash is_segment_char q segment_char chars), all),
    )

closed-joined : (p : Text) (ss : List Text) → closed (p ∷ ss) ≡ joined 47 (p ∷ ss) ++ 47 ∷ []
closed-joined p [] = refl
closed-joined p (q ∷ ss) =
    ap (λ s. p ++ 47 ∷ s) (closed-joined q ss)
    ∙ sym (append_assoc p (47 ∷ joined 47 (q ∷ ss)) (47 ∷ []))

-- The loop sees the segments.
trimmed_pieces :
    (p : Text) (ss : List Text)
    → All (λ s. contains 47 s ≡ false) (p ∷ ss)
    → split 47 (trim_suffix (closed (p ∷ ss)) (47 ∷ [])) ≡ p ∷ ss
trimmed_pieces p ss h =
    let whole = joined 47 (p ∷ ss) in
    ap (λ s. split 47 (trim_suffix s (47 ∷ []))) (closed-joined p ss)
    ∙ ap (split 47) (trim_suffix-append whole (47 ∷ []))
    ∙ split-joined 47 p ss h

no_dots : (ss : List Text) → any_dots ss ≡ false → All IsPiece ss → All IsSegment ss
no_dots [] h all = tt
no_dots (s ∷ ss) h all =
    let one : eqb s (codes ".") ≡ false = ground (arith, h) in
    let two : eqb s (codes "..") ≡ false = ground (arith, h) in
    let rest : any_dots ss ≡ false = ground (arith, h) in
    (
      (
        all.0.0,
        all.0.1,
        λ e. let t = (eqb_iff s (codes ".")).1 e in absurd (ground (arith, one, t)),
        λ e. let t = (eqb_iff s (codes "..")).1 e in absurd (ground (arith, two, t)),
      ),
      no_dots ss rest all.1,
    )

no_slashes : (ss : List Text) → All IsPiece ss → All (λ s. contains 47 s ≡ false) ss
no_slashes ss h = All-map IsPiece (λ s. contains 47 s ≡ false) (λ s q. q.1) ss h

pieces-IsScoped :
    (prefix : Text) (ps : List Text)
    → joined 47 ps ≡ prefix
    → is_pieces ps ≡ true
    → any_dots (split 47 (trim_suffix prefix (47 ∷ []))) ≡ false
    → IsScoped prefix
pieces-IsScoped prefix [] e h n = absurd (cc)
pieces-IsScoped prefix (p ∷ ps) e h n =
    let head_ok : is_head p ≡ true = ground (arith, h) in
    let tail_ok : is_tail ps ≡ true = ground (arith, h) in
    let (ss, spelled, all) = tail_closed p ps tail_ok in
    let whole : prefix ≡ closed (p ∷ ss) = sym e ∙ spelled in
    let pieces : All IsPiece (p ∷ ss) = (is_head-IsPiece p head_ok, all) in
    let cut : split 47 (trim_suffix prefix (47 ∷ [])) ≡ p ∷ ss =
      ap (λ s. split 47 (trim_suffix s (47 ∷ []))) whole
      ∙ trimmed_pieces p ss (no_slashes (p ∷ ss) pieces) in
    let none_dotted : any_dots (p ∷ ss) ≡ false = sym (ap any_dots cut) ∙ n in
    record {
      front_end = p;
      below = ss;
      spelled = whole;
      segments = no_dots (p ∷ ss) none_dotted pieces;
      lower = head_ok;
    }

accepted-IsScoped :
    (prefix : Text)
    → is_bucket_prefix prefix ≡ true
    → any_dots (split 47 (trim_suffix prefix (47 ∷ []))) ≡ false
    → IsScoped prefix
unfolding is_bucket_prefix
accepted-IsScoped prefix h n = pieces-IsScoped prefix (split 47 prefix) (joined-split 47 prefix) h n

module _ {W : Type 0} (d : Deps W) (prefix : Text) (w : W) where
  -- The bucket is wiped first, and the disk only if that has not failed.
  abbrev pub InOrder : (Text → W → W × Deleted) → Type 0
  InOrder b =
      let first = b prefix w in
      ((e : Error) × (first.1.error ≡ some e)
        × (wipe_bucket d prefix w ≡ (first.0, err (internal e))))
      ⊎ ((first.1.error ≡ none)
          × (wipe_bucket d prefix w ≡ wiped_disk d first.1 (d.disk.delete_prefix prefix first.0)))

  wiped-InOrder :
      (b : Text → W → W × Deleted) (o : Option Error)
      → (b prefix w).1.error ≡ o
      → wipe_bucket d prefix w ≡ wiped_bucket d prefix (b prefix w)
      → InOrder b
  wiped-InOrder b (some e) h s =
      inl (e, h, s ∙ ap (after_bucket d prefix (b prefix w).0 (b prefix w).1) h)
  wiped-InOrder b none h s = inr (h, s ∙ ap (after_bucket d prefix (b prefix w).0 (b prefix w).1) h)

  abbrev Outcome : Type 0
  Outcome =
      ((f : Failure) × (wipe_bucket d prefix w ≡ (w, err f)))
      ⊎ (IsScoped prefix × (b : Text → W → W × Deleted) × (d.bucket ≡ some b) × InOrder b)

  with_bucket :
      (o : Option (Text → W → W × Deleted))
      → d.bucket ≡ o
      → IsScoped prefix
      → wipe_bucket d prefix w ≡ wipe_accepted d prefix o w
      → Outcome
  with_bucket none h scoped s = inl (failed_precondition (codes "no bucket is configured"), s)
  with_bucket (some b) h scoped s = inr (scoped, b, h, wiped-InOrder b (b prefix w).1.error refl s)

  -- `WipeBucket` either refuses and changes nothing, or there is a bucket and the prefix is some whole segments below a front-end, none of them `.` or `..`. Then the bucket is wiped first: if that fails the disk is not touched, and else the disk is wiped under the same prefix.
  pub wipe_bucket_scope :
      ((f : Failure) × (wipe_bucket d prefix w ≡ (w, err f)))
      ⊎ (IsScoped prefix × (b : Text → W → W × Deleted) × (d.bucket ≡ some b) × InOrder b)
  unfolding wipe_bucket
  wipe_bucket_scope = elim (Bool-cases (eqb prefix [] || eqb prefix (47 ∷ []))) [
    | inl p ↦ inl (invalid_argument (codes "refusing to wipe the whole bucket"), rw p refl)
    | inr p ↦ elim (Bool-cases (is_bucket_prefix prefix)) [
      | inr q ↦ inl (invalid_argument (codes "not a cache key prefix"), rw (p, q) refl)
      | inl q ↦ elim (Bool-cases (any_dots (split 47 (trim_suffix prefix (47 ∷ []))))) [
        | inl r ↦ inl (invalid_argument (codes "a path to resolve"), rw (p, q, r) refl)
        | inr r ↦ with_bucket d.bucket refl (accepted-IsScoped prefix q r) (rw (p, q, r) refl)
      ]
    ]
  ]
