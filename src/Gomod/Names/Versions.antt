-- ===== src/Gomod/Names/Versions.antt =====
-- Which names are stored as immutable.
use ci_cache.Base.{
  Bool-cases, List, Option, Text, [], ap, append-nil, append_assoc, ap₂, arith, codes, false, inl,
  inr, is_filled, none, refl, some, starts_with, subst, sym, true, ◌++◌, ◌∙◌, ◌∷◌, ◌≡◌, ◌≢◌, ◌⊎◌,
}
use ci_cache.Gomod.Names.{
  after_v, before_pre_release, canonical_version, classify, core_ok, cut_module_file, file_kind,
  file_of, immutable, is_module_ext, is_part, three_parts, without_pre_release,
}
use ci_cache.Gomod.Names.Strings.{
  all_digits, contains, cut_byte, cut_last, ends_with, ext, split, trim_suffix,
}
use ci_cache.Gomod.Names.Strings.Cuts.{
  cut_byte-some, cut_last-some, joined, joined-split, trim_suffix-ext, trim_suffix_lem,
}

-- A decimal number, without a leading zero.
pub record IsNumber (p : Text) : Type 0 where
  pub some_digit : is_filled p ≡ true
  pub only_digits : all_digits p ≡ true
  pub no_leading : (r : Text) → p ≡ 48 ∷ r → r ≡ []

abbrev IsPreRelease : Text → Type 0
IsPreRelease pre = (pre ≡ []) ⊎ ((r : Text) × (pre ≡ 45 ∷ r) × (r ≢ []))

-- "v", three numbers with dots between them, a pre-release, and "+incompatible".
pub record IsVersion (v : Text) : Type 0 where
  pub major : Text
  pub minor : Text
  pub patch : Text
  pub pre : Text
  pub tag : Text
  pub spelled : v ≡ 118 ∷ (major ++ 46 ∷ (minor ++ 46 ∷ (patch ++ (pre ++ tag))))
  pub numbers : IsNumber major × IsNumber minor × IsNumber patch
  pub pre_release : (pre ≡ []) ⊎ ((r : Text) × (pre ≡ 45 ∷ r) × (r ≢ []))
  pub marked : (tag ≡ []) ⊎ (tag ≡ codes "+incompatible")

-- A file of a version of a module.
pub record IsRelease (name : Text) : Type 0 where
  pub module_path : Text
  pub version : Text
  pub extension : Text
  pub named : name ≡ module_path ++ (codes "/@v/" ++ (version ++ extension))
  pub is_version : IsVersion version
  pub is_ext : is_module_ext extension ≡ true
  pub one_file : contains 47 (version ++ extension) ≡ false

is_part-IsNumber : (p : Text) → is_part p ≡ true → IsNumber p
unfolding is_part all_digits
is_part-IsNumber [] h = absurd (cc)
is_part-IsNumber (c ∷ []) h = record {
  some_digit = refl;
  only_digits = ground (arith, h);
  no_leading = λ r e. cc;
}
is_part-IsNumber (c ∷ d ∷ s) h = record {
  some_digit = refl;
  only_digits = ground (arith, h);
  no_leading = λ r e. let z : c ≡ 48 = cc in absurd (ground (arith, h, z));
}

before_pre_release_lem :
    (s : Text) (o : Option (Text × Text)) (t : Text)
    → ((a b : Text) → o ≡ some (a, b) → s ≡ a ++ 45 ∷ b)
    → before_pre_release s o ≡ some t
    → (pre : Text) × IsPreRelease pre × (s ≡ t ++ pre)
before_pre_release_lem s none t f h = let e : s ≡ t = cc in ([], inl refl, e ∙ sym (append-nil t))
before_pre_release_lem s (some (a, [])) t f h = absurd (cc)
before_pre_release_lem s (some (a, c ∷ r)) t f h =
    let e : a ≡ t = cc in
    (
      45 ∷ c ∷ r,
      inr (c ∷ r, refl, λ z. absurd (cc)),
      f a (c ∷ r) refl ∙ ap (λ u. u ++ 45 ∷ c ∷ r) e,
    )

core_ok_lem :
    (o : Option Text)
    → core_ok o ≡ true
    → (t : Text) × (o ≡ some t) × (three_parts (split 46 t) ≡ true)
core_ok_lem none h = absurd (cc)
core_ok_lem (some t) h = (t, refl, ground (arith, h))

three_parts_lem :
    (ps : List Text)
    → three_parts ps ≡ true
    → (a : Text) × (b : Text) × (c : Text) × (ps ≡ a ∷ b ∷ c ∷ [])
      × (is_part a ≡ true)
      × (is_part b ≡ true)
      × (is_part c ≡ true)
three_parts_lem [] h = absurd (cc)
three_parts_lem (a ∷ []) h = absurd (cc)
three_parts_lem (a ∷ b ∷ []) h = absurd (cc)
three_parts_lem (a ∷ b ∷ c ∷ []) h =
    (a, b, c, refl, ground (arith, h), ground (arith, h), ground (arith, h))
three_parts_lem (a ∷ b ∷ c ∷ d ∷ ps) h = absurd (cc)

regroup :
    (a b c pre tag : Text)
    → ((a ++ 46 ∷ (b ++ 46 ∷ c)) ++ pre) ++ tag ≡ a ++ 46 ∷ (b ++ 46 ∷ (c ++ (pre ++ tag)))
regroup a b c pre tag = simp (append_assoc)

after_v-IsVersion :
    (u tag : Text)
    → after_v u ≡ true
    → (tag ≡ []) ⊎ (tag ≡ codes "+incompatible")
    → IsVersion (u ++ tag)
after_v-IsVersion [] tag h m = absurd (cc)
after_v-IsVersion (x ∷ s) tag h m =
    let start : x ≡ 118 = ground (arith, h) in
    let core : core_ok (without_pre_release s) ≡ true = ground (arith, h) in
    let (t, kept, three) = core_ok_lem (without_pre_release s) core in
    let (pre, good, cut) = before_pre_release_lem s (cut_byte 45 s) t (cut_byte-some 45 s) kept in
    let (a, b, c, parts, pa, pb, pc) = three_parts_lem (split 46 t) three in
    let whole : t ≡ a ++ 46 ∷ (b ++ 46 ∷ c) = sym (joined-split 46 t) ∙ ap (joined 46) parts in
    record {
      major = a;
      minor = b;
      patch = c;
      pre = pre;
      tag = tag;
      spelled =
          ap₂ (λ y z. y ∷ (z ++ tag)) start (cut ∙ ap (λ z. z ++ pre) whole)
          ∙ ap (λ z. 118 ∷ z) (regroup a b c pre tag);
      numbers = (is_part-IsNumber a pa, is_part-IsNumber b pb, is_part-IsNumber c pc);
      pre_release = good;
      marked = m;
    }

canonical_version-IsVersion : (v : Text) → canonical_version v ≡ true → IsVersion v
unfolding canonical_version
canonical_version-IsVersion v h =
    let (tag, m, whole) = trim_suffix_lem v (codes "+incompatible") in
    subst IsVersion (sym whole) (after_v-IsVersion (trim_suffix v (codes "+incompatible")) tag h m)

file_of_lem :
    (o : Option (Text × Text)) (file : Text)
    → file_of o ≡ some file
    → (a : Text) × (o ≡ some (a, file)) × (contains 47 file ≡ false)
file_of_lem none file h = absurd (cc)
file_of_lem (some (a, b)) file h = (a, ground (arith, h), ground (arith, h))

file_kind_lem :
    (o : Option Text)
    → file_kind o ≡ immutable
    → (base : Text) × (o ≡ some base)
      × (is_module_ext (ext base) ≡ true)
      × (canonical_version (trim_suffix base (ext base)) ≡ true)
file_kind_lem none h = absurd (cc)
file_kind_lem (some base) h = (base, refl, ground (arith, h), ground (arith, h))

file_kind-IsRelease : (name : Text) → file_kind (cut_module_file name) ≡ immutable → IsRelease name
unfolding cut_module_file
file_kind-IsRelease name h =
    let (base, cut, is, version) = file_kind_lem (cut_module_file name) h in
    let (a, whole, flat) = file_of_lem (cut_last (codes "/@v/") name) base cut in
    record {
      module_path = a;
      version = trim_suffix base (ext base);
      extension = ext base;
      named =
          cut_last-some (codes "/@v/") name a base whole
          ∙ ap (λ z. a ++ (codes "/@v/" ++ z)) (trim_suffix-ext base);
      is_version = canonical_version-IsVersion (trim_suffix base (ext base)) version;
      is_ext = is;
      one_file = ap (contains 47) (sym (trim_suffix-ext base)) ∙ flat;
    }

-- A name is believed for ever only if it is of the checksum database and is not its tree head, or if it ends by `/@v/` and one file, without a slash in its name, `.info`, `.mod` or `.zip` of a version `vMAJOR.MINOR.PATCH`, in decimal without leading zeros, with an optional pre-release of any bytes but at least one, and with an optional `+incompatible`.
pub classify-IsRelease :
    (name : Text)
    → classify name ≡ immutable
    → ((starts_with name (codes "sumdb/") ≡ true) × (ends_with name (codes "/latest") ≡ false))
      ⊎ IsRelease name
unfolding classify
classify-IsRelease name h = elim (Bool-cases (starts_with name (codes "sumdb/"))) [
  | inl sum ↦ inl (sum, ground (arith, h, sum))
  | inr other ↦ inr (file_kind-IsRelease name (ground (arith, h, other)))
]
