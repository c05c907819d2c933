-- ===== src/Gomod/Names/Strings/Cuts.antt =====
-- The pieces that the functions on strings cut a string into make the string again.
use ci_cache.Base.{
  ==_iff, All, Bool-cases, List, Option, Text, [], ap, append-nil, ap₂, arith, false, inl, inr,
  is_filled, none, not, refl, reverse, reverse-append, reverse-reverse, some, sym, ℕ, ◌&&◌, ◌++◌,
  ◌==◌, ◌∙◌, ◌∷◌, ◌≡◌, ◌≢◌, ◌⊎◌,
}
use ci_cache.Gomod.Names.Strings.{
  contains, cut_byte, cut_here, cut_last, cut_later, ext, onto_first, or_whole, reversed, split,
  strip_prefix, strip_suffix, trim_suffix,
}

pub strip_prefix-some : (s p r : Text) → strip_prefix s p ≡ some r → s ≡ p ++ r
unfolding strip_prefix
strip_prefix-some s [] r h = cc
strip_prefix-some [] (y ∷ p) r h = cc
strip_prefix-some (x ∷ s) (y ∷ p) r h = elim (Bool-cases (x == y)) [
  | inl e ↦
      let same : x ≡ y = (==_iff x y).0 e in
      let rest : strip_prefix s p ≡ some r = ground (arith, e, h) in
      ap₂ (λ c t. c ∷ t) same (strip_prefix-some s p r rest)
  | inr n ↦ absurd (ground (arith, n, h))
]

reversed-some : (o : Option Text) (r : Text) → reversed o ≡ some r → o ≡ some (reverse r)
reversed-some none r h = cc
reversed-some (some s) r h =
    let e : reverse s ≡ r = cc in ap some (sym (ap reverse (sym e) ∙ reverse-reverse s))

pub strip_suffix-some : (s p r : Text) → strip_suffix s p ≡ some r → s ≡ r ++ p
unfolding strip_suffix
strip_suffix-some s p r h =
    let e =
      strip_prefix-some (reverse s) (reverse p) (reverse r)
        (reversed-some (strip_prefix (reverse s) (reverse p)) r h) in
    sym (reverse-reverse s) ∙ ap reverse (e ∙ sym (reverse-append r p)) ∙ reverse-reverse (r ++ p)

cut_here-some :
    (sep s : Text) (c : ℕ) (later : Option (Text × Text)) (here : Option Text) (a b : Text)
    → ((a b : Text) → later ≡ some (a, b) → s ≡ a ++ (sep ++ b))
    → ((r : Text) → here ≡ some r → c ∷ s ≡ sep ++ r)
    → cut_here c later here ≡ some (a, b)
    → c ∷ s ≡ a ++ (sep ++ b)
cut_here-some sep s c (some (d, e)) here a b f g h =
    let e1 : c ∷ d ≡ a = cc in
    let e2 : e ≡ b = cc in ap (λ t. c ∷ t) (f d e refl) ∙ ap₂ (λ u v. u ++ (sep ++ v)) e1 e2
cut_here-some sep s c none none a b f g h = cc
cut_here-some sep s c none (some r) a b f g h =
    let e1 : [] ≡ a = cc in let e2 : r ≡ b = cc in g r refl ∙ ap₂ (λ u v. u ++ (sep ++ v)) e1 e2

pub cut_last-some : (sep s a b : Text) → cut_last sep s ≡ some (a, b) → s ≡ a ++ (sep ++ b)
unfolding cut_last
cut_last-some sep [] a b h = cc
cut_last-some sep (c ∷ s) a b h =
    cut_here-some sep s c (cut_last sep s) (strip_prefix (c ∷ s) sep) a b (cut_last-some sep s)
      (λ r e. strip_prefix-some (c ∷ s) sep r e) h

cut_later-some :
    (c d : ℕ) (s : Text) (o : Option (Text × Text)) (a b : Text)
    → ((a b : Text) → o ≡ some (a, b) → s ≡ a ++ c ∷ b)
    → cut_later d o ≡ some (a, b)
    → d ∷ s ≡ a ++ c ∷ b
cut_later-some c d s none a b f h = cc
cut_later-some c d s (some (p, q)) a b f h =
    let e1 : d ∷ p ≡ a = cc in
    let e2 : q ≡ b = cc in ap (λ t. d ∷ t) (f p q refl) ∙ ap₂ (λ u v. u ++ c ∷ v) e1 e2

pub cut_byte-some : (c : ℕ) (s a b : Text) → cut_byte c s ≡ some (a, b) → s ≡ a ++ c ∷ b
unfolding cut_byte
cut_byte-some c [] a b h = cc
cut_byte-some c (d ∷ s) a b h = elim (Bool-cases (d == c)) [
  | inl e ↦
      let same : d ≡ c = (==_iff d c).0 e in
      let here : Option (Text × Text) = some ([], s) in
      let rest : here ≡ some (a, b) = ground (arith, e, h) in
      let e1 : [] ≡ a = cc in
      let e2 : s ≡ b = cc in ap₂ (λ u v. u ∷ v) same e2 ∙ ap (λ u. u ++ c ∷ b) e1
  | inr n ↦
      let rest : cut_later d (cut_byte c s) ≡ some (a, b) = ground (arith, n, h) in
      cut_later-some c d s (cut_byte c s) a b (cut_byte-some c s) rest
]

strip_prefix-append : (p r : Text) → strip_prefix (p ++ r) p ≡ some r
unfolding strip_prefix
strip_prefix-append [] r = refl
strip_prefix-append (x ∷ p) r = rw ((==_iff x x).1 refl) (strip_prefix-append p r)

strip_suffix-append : (r p : Text) → strip_suffix (r ++ p) p ≡ some r
unfolding strip_suffix
strip_suffix-append r p =
    ap (λ s. reversed (strip_prefix s (reverse p))) (reverse-append r p)
    ∙ ap reversed (strip_prefix-append (reverse p) (reverse r))
    ∙ ap some (reverse-reverse r)

pub trim_suffix-append : (r p : Text) → trim_suffix (r ++ p) p ≡ r
trim_suffix-append r p = ap (or_whole (r ++ p)) (strip_suffix-append r p)

ext-suffix : (s : Text) → (r : Text) × (s ≡ r ++ ext s)
unfolding ext
ext-suffix [] = ([], refl)
ext-suffix (c ∷ s) = elim (Bool-cases (is_filled (ext s))) [
  | inl e ↦ rw e (let (r, h) = ext-suffix s in (c ∷ r, ap (λ t. c ∷ t) h))
  | inr n ↦ elim (Bool-cases (c == 46 && not (contains 47 s))) [
    | inl dot ↦ rw (n, dot) ([], refl)
    | inr more ↦ rw (n, more) (c ∷ s, sym (append-nil (c ∷ s)))
  ]
]

pub trim_suffix-ext : (s : Text) → s ≡ trim_suffix s (ext s) ++ ext s
trim_suffix-ext s =
    let (r, h) = ext-suffix s in
    let found : strip_suffix s (ext s) ≡ some r =
      ap (λ t. strip_suffix t (ext s)) h ∙ strip_suffix-append r (ext s) in
    h ∙ ap (λ o. or_whole s o ++ ext s) (sym found)

kept_or_cut :
    (s p : Text) (o : Option Text)
    → ((r : Text) → o ≡ some r → s ≡ r ++ p)
    → (tag : Text) × ((tag ≡ []) ⊎ (tag ≡ p)) × (s ≡ or_whole s o ++ tag)
kept_or_cut s p none f = ([], inl refl, sym (append-nil s))
kept_or_cut s p (some r) f = (p, inr refl, f r refl)

pub trim_suffix_lem :
    (s p : Text) → (tag : Text) × ((tag ≡ []) ⊎ (tag ≡ p)) × (s ≡ trim_suffix s p ++ tag)
trim_suffix_lem s p = kept_or_cut s p (strip_suffix s p) (strip_suffix-some s p)

-- The pieces with the byte between them again.
abbrev pub joined : ℕ → List Text → Text
joined c [] = []
joined c (p ∷ []) = p
joined c (p ∷ q ∷ ps) = p ++ c ∷ joined c (q ∷ ps)

joined-onto_first : (c d : ℕ) (ps : List Text) → joined c (onto_first d ps) ≡ d ∷ joined c ps
joined-onto_first c d [] = refl
joined-onto_first c d (p ∷ []) = refl
joined-onto_first c d (p ∷ q ∷ ps) = refl

joined_empty : (c : ℕ) (ps : List Text) → ps ≢ [] → joined c ([] ∷ ps) ≡ c ∷ joined c ps
joined_empty c [] h = absurd (h refl)
joined_empty c (p ∷ ps) h = refl

onto_first_filled : (d : ℕ) (ps : List Text) → onto_first d ps ≢ []
onto_first_filled d [] = λ e. absurd (cc)
onto_first_filled d (p ∷ ps) = λ e. absurd (cc)

split_filled : (c : ℕ) (s : Text) → split c s ≢ []
unfolding split
split_filled c [] = λ e. absurd (cc)
split_filled c (d ∷ s) = elim (Bool-cases (d == c)) [
  | inl e ↦ rw e (λ h. absurd (cc))
  | inr n ↦ rw n (onto_first_filled d (split c s))
]

pub joined-split : (c : ℕ) (s : Text) → joined c (split c s) ≡ s
unfolding split
joined-split c [] = refl
joined-split c (d ∷ s) = elim (Bool-cases (d == c)) [
  | inl e ↦ rw e (
      joined_empty c (split c s) (split_filled c s)
      ∙ ap₂ (λ u v. u ∷ v) (sym ((==_iff d c).0 e)) (joined-split c s))
  | inr n ↦ rw n (joined-onto_first c d (split c s) ∙ ap (λ t. d ∷ t) (joined-split c s))
]

-- A piece without the byte is cut off whole.
split_piece : (c : ℕ) (p s : Text) → contains c p ≡ false → split c (p ++ c ∷ s) ≡ p ∷ split c s
unfolding split contains
split_piece c [] s h = rw ((==_iff c c).1 refl) refl
split_piece c (d ∷ p) s h = elim (Bool-cases (d == c)) [
  | inl e ↦ absurd (ground (arith, h, e))
  | inr n ↦
      let rest : contains c p ≡ false = ground (arith, h, n) in
      rw n (ap (onto_first d) (split_piece c p s rest))
]

split_last : (c : ℕ) (p : Text) → contains c p ≡ false → split c p ≡ p ∷ []
unfolding split contains
split_last c [] h = refl
split_last c (d ∷ p) h = elim (Bool-cases (d == c)) [
  | inl e ↦ absurd (ground (arith, h, e))
  | inr n ↦
      let rest : contains c p ≡ false = ground (arith, h, n) in
      rw n (ap (onto_first d) (split_last c p rest))
]

pub split-joined :
    (c : ℕ) (p : Text) (ps : List Text)
    → All (λ s. contains c s ≡ false) (p ∷ ps)
    → split c (joined c (p ∷ ps)) ≡ p ∷ ps
split-joined c p [] h = split_last c p h.0
split-joined c p (q ∷ ps) h =
    split_piece c p (joined c (q ∷ ps)) h.0 ∙ ap (λ t. p ∷ t) (split-joined c q ps h.1)
