-- ===== src/Disk/Index/Counts.antt =====
-- The running totals of the index against sums over the entries that it holds.
use ci_cache.Base.{
  All, Bool-cases, List, Text, [], add64, ap, ap₂, arith, eqb, eqb_iff, half_word, if◌then◌else◌,
  inl, inr, length, lookup, lookup-delete, lookup-insert, refl, sle, sle_small, sub64, ℕ, ◌&&◌,
  ◌++◌, ◌+◌, ◌<◌, ◌∙◌, ◌∷◌, ◌≡◌, ◌≤◌,
}
use ci_cache.Disk.Index.{
  Entry, FrontendUse, Index, account, attach, no_use, release, use_or_zero, used_by,
}

abbrev pub total : List Entry → ℕ
total [] = 0
total (e ∷ es) = e.on_disk + total es

-- The entries and the bytes of one front-end.
abbrev pub count_in : Text → List Entry → ℕ
count_in f [] = 0
count_in f (e ∷ es) = (if eqb e.frontend f then 1 else 0) + count_in f es

abbrev pub total_in : Text → List Entry → ℕ
total_in f [] = 0
total_in f (e ∷ es) = (if eqb e.frontend f then e.on_disk else 0) + total_in f es

pub total-middle :
    (es fs : List Entry) (e : Entry) → total (es ++ e ∷ fs) ≡ total (es ++ fs) + e.on_disk
total-middle [] fs e = omega arith
total-middle (d ∷ es) fs e = omega (arith, total-middle es fs e)

length-middle : (es fs : List Entry) (e : Entry) → length (es ++ e ∷ fs) ≡ length (es ++ fs) + 1
length-middle [] fs e = omega arith
length-middle (d ∷ es) fs e = omega (arith, length-middle es fs e)

count_in-middle :
    (f : Text) (es fs : List Entry) (e : Entry)
    → count_in f (es ++ e ∷ fs) ≡ count_in f (es ++ fs) + (if eqb e.frontend f then 1 else 0)
count_in-middle f [] fs e = omega arith
count_in-middle f (d ∷ es) fs e = omega (arith, count_in-middle f es fs e)

total_in-middle :
    (f : Text) (es fs : List Entry) (e : Entry)
    → total_in f (es ++ e ∷ fs)
      ≡ total_in f (es ++ fs) + (if eqb e.frontend f then e.on_disk else 0)
total_in-middle f [] fs e = omega arith
total_in-middle f (d ∷ es) fs e = omega (arith, total_in-middle f es fs e)

pub total_in-le : (f : Text) (es : List Entry) → total_in f es ≤ total es
total_in-le f [] = omega arith
total_in-le f (e ∷ es) = ground (arith, total_in-le f es)

count_in-le : (f : Text) (es : List Entry) → count_in f es ≤ length es
count_in-le f [] = omega arith
count_in-le f (e ∷ es) = ground (arith, count_in-le f es)

abbrev pub Sized : List Entry → Type 0
Sized = All (λ e. 0 < e.on_disk)

length-le-total : (es : List Entry) → Sized es → length es ≤ total es
length-le-total [] h = omega arith
length-le-total (e ∷ es) h = omega (arith, length-le-total es h.1)

Sized-middle :
    (es fs : List Entry) (e : Entry) → Sized (es ++ e ∷ fs) → Sized (es ++ fs) × (0 < e.on_disk)
Sized-middle [] fs e h = (h.1, h.0)
Sized-middle (d ∷ es) fs e h = let r = Sized-middle es fs e h.1 in ((h.0, r.0), r.1)

-- A front-end with no entries has no bytes.
total_in_none : (f : Text) (es : List Entry) → count_in f es ≡ 0 → total_in f es ≡ 0
total_in_none f [] h = refl
total_in_none f (e ∷ es) h = ground (arith, total_in_none f es)

pub record Counts (ix : Index) (es : List Entry) : Type 0 where
  pub used : ix.used ≡ total es
  pub n : ix.n ≡ length es
  pub shares : (f : Text) → used_by f ix ≡ record { entries = count_in f es; bytes = total_in f es }
  pub sized : Sized es
  pub fits : total es < half_word

-- The totals do not depend on the rest of the index.
pub Counts-same :
    (ix ix' : Index) (es : List Entry)
    → ix'.used ≡ ix.used
    → ix'.n ≡ ix.n
    → ix'.fe ≡ ix.fe
    → Counts ix es
    → Counts ix' es
unfolding used_by
Counts-same ix ix' es eu en ef c = record {
  used = eu ∙ c.used;
  n = en ∙ c.n;
  shares = λ f. ap (λ fe. use_or_zero (lookup f fe)) ef ∙ c.shares f;
  sized = c.sized;
  fits = c.fits;
}

-- One front-end's share after `account`.
used-account :
    (f g : Text) (de db : ℕ) (fe : List (Text × FrontendUse))
    → use_or_zero (lookup g (account f de db fe)) ≡ (
        if eqb f g
        then (let u = use_or_zero (lookup f fe) in
            if sle (add64 u.entries de) 0 && sle (add64 u.bytes db) 0
            then no_use
            else record { entries = add64 u.entries de; bytes = add64 u.bytes db })
        else use_or_zero (lookup g fe))
unfolding account
used-account f g de db fe =
    let u = use_or_zero (lookup f fe) in
    ground (
      arith,
      lookup-insert f g (record { entries = add64 u.entries de; bytes = add64 u.bytes db }) fe,
      lookup-delete f g fe,
    )

-- A share after `account` by one entry more, and by one entry less.
share_more :
    (f g : Text) (d : ℕ) (fe : List (Text × FrontendUse)) (c b : ℕ)
    → use_or_zero (lookup g fe) ≡ record { entries = c; bytes = b }
    → c + 1 < half_word
    → b + d < half_word
    → use_or_zero (lookup g (account f 1 d fe))
      ≡ record { entries = (if eqb f g then 1 else 0) + c; bytes = (if eqb f g then d else 0) + b }
share_more f g d fe c b h hc hb = elim (Bool-cases (eqb f g)) [
  | inl same ↦
      let e : f ≡ g = (eqb_iff f g).0 same in
      let one : add64 c 1 ≡ 1 + c = unfold add64 in omega arith in
      let more : add64 b d ≡ d + b = unfold add64 in omega arith in
      rw (used-account f g 1 d fe, same, e, h, one, more) (ground (arith, sle_small (1 + c) 0))
  | inr other ↦ rw (used-account f g 1 d fe, other, h) (ground arith)
]

share_less :
    (f g : Text) (d : ℕ) (fe : List (Text × FrontendUse)) (c b : ℕ)
    → use_or_zero (lookup g fe)
      ≡ record { entries = c + (if eqb f g then 1 else 0); bytes = b + (if eqb f g then d else 0) }
    → c + 1 < half_word
    → b + d < half_word
    → (c ≡ 0 → b ≡ 0)
    → use_or_zero (lookup g (account f (sub64 0 1) (sub64 0 d) fe))
      ≡ record { entries = c; bytes = b }
share_less f g d fe c b h hc hb hz = elim (Bool-cases (eqb f g)) [
  | inl same ↦
      let e : f ≡ g = (eqb_iff f g).0 same in
      let h' : use_or_zero (lookup g fe) ≡ record { entries = c + 1; bytes = b + d } =
        rw same at h in
      let one : add64 (c + 1) (sub64 0 1) ≡ c = unfold add64 sub64 in omega arith in
      let less : add64 (b + d) (sub64 0 d) ≡ b = unfold add64 sub64 in omega arith in
      rw (used-account f g (sub64 0 1) (sub64 0 d) fe, same, e, h', one, less)
        (ground (arith, sle_small c 0, sle_small b 0))
  | inr other ↦
      let h' : use_or_zero (lookup g fe) ≡ record { entries = c; bytes = b } =
        rw other at h ∙ ground arith in
      rw (used-account f g (sub64 0 1) (sub64 0 d) fe, other, h')
]

-- The totals after one entry more in front.
pub attach-Counts :
    (p : ℕ) (ix : Index) (es : List Entry)
    → Counts ix es
    → 0 < (ix.nodes p).on_disk
    → total es + (ix.nodes p).on_disk < half_word
    → Counts (attach p ix) (ix.nodes p ∷ es)
unfolding attach used_by
attach-Counts p ix es c h k =
    let e = ix.nodes p in
    let short = length-le-total es c.sized in
    record {
      used = unfold add64 in omega (arith, c.used);
      n = unfold add64 in omega (arith, c.n, short);
      shares = λ f.
          share_more e.frontend f e.on_disk ix.fe (count_in f es) (total_in f es) (c.shares f)
            (omega (arith, count_in-le f es, short)) (omega (arith, total_in-le f es));
      sized = (h, c.sized);
      fits = omega arith;
    }

-- The totals after one entry less, wherever it stood.
pub release-Counts :
    (p : ℕ) (ix : Index) (es fs : List Entry)
    → Counts ix (es ++ ix.nodes p ∷ fs)
    → Counts (release p ix) (es ++ fs)
unfolding release used_by
release-Counts p ix es fs c =
    let e = ix.nodes p in
    let all = total-middle es fs e in
    let sized : Sized (es ++ fs) × (0 < e.on_disk) = Sized-middle es fs e c.sized in
    let short = length-le-total (es ++ fs) sized.0 in
    let fits = c.fits in
    record {
      used = unfold sub64 in omega (arith, c.used, all);
      n = unfold sub64 in omega (arith, c.n, length-middle es fs e, short);
      shares = λ f.
          share_less e.frontend f e.on_disk ix.fe (count_in f (es ++ fs)) (total_in f (es ++ fs))
            (c.shares f ∙ cc (count_in-middle f es fs e, total_in-middle f es fs e))
            (omega (arith, count_in-le f (es ++ fs), short, all))
            (omega (arith, total_in-le f (es ++ fs), all)) (total_in_none f (es ++ fs));
      sized = sized.0;
      fits = omega (arith, all);
    }

-- The totals when an entry moves to the front and keeps its size and its front-end.
pub moved-Counts :
    (ix : Index) (es fs : List Entry) (e e' : Entry)
    → Counts ix (es ++ e ∷ fs)
    → e'.on_disk ≡ e.on_disk
    → e'.frontend ≡ e.frontend
    → Counts ix (e' ∷ es ++ fs)
moved-Counts ix es fs e e' c hd hf =
    let sized = Sized-middle es fs e c.sized in
    record {
      used = omega (arith, c.used, total-middle es fs e);
      n = omega (arith, c.n, length-middle es fs e);
      shares = λ f.
          let eq = ap (λ g. eqb g f) hf in
          c.shares f
          ∙ ap₂ (λ a b. record { entries = a; bytes = b })
              (rw eq (omega (arith, count_in-middle f es fs e)))
              (rw (eq, hd) (omega (arith, total_in-middle f es fs e)));
      sized = (omega (arith, sized.1), sized.0);
      fits = omega (arith, c.fits, total-middle es fs e);
    }
