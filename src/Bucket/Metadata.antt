-- ===== src/Bucket/Metadata.antt =====
-- engine/bucket/bucket.go: the metadata that goes beside an object. The format of a time is a
-- parameter; names are compared without regard to the case of ASCII letters.
use ci_cache.Base.{
  Bool, Option, Text, [], codes, eqb, if◌then◌else◌, is_filled, leb, lookup, map, none, some, true,
  ℕ, ◌&&◌, ◌*◌, ◌+◌, ◌<◌, ◌==◌, ◌∷◌, ◌≡◌,
}
use ci_cache.Tier.{Meta}
use ci_cache.Bucket.Requests.{UserData}

-- `time.RFC3339Nano`, as what is printed for an instant and what is read.
pub record TimeFormat : Type 0 where
  pub format : ℕ → Text
  pub parse : Text → Option ℕ

-- The first instant after the year 9999, which the format cannot print.
abbrev pub year_10000 : ℕ
year_10000 = 315_537_897_600 * 1_000_000_000

-- What is relied on: an instant is printed as something, and is read back up to the year 9999.
pub record IsTimeFormat (c : TimeFormat) : Type 0 where
  pub prints : (at : ℕ) → is_filled (c.format at) ≡ true
  pub reads_back : (at : ℕ) → at < year_10000 → c.parse (c.format at) ≡ some at

abbrev pub meta_mod_time : Text
meta_mod_time = codes "ci-cache-modtime"

abbrev pub meta_immutable : Text
meta_immutable = codes "ci-cache-immutable"

abbrev pub true_text : Text
true_text = codes "true"

-- `metadataFor`.
unfoldable pub metadata_for : TimeFormat → Meta → UserData
metadata_for c m =
    let fixed : UserData = if m.immutable then (meta_immutable, true_text) ∷ [] else [] in
    if m.mod_time == 0 then fixed else (meta_mod_time, c.format m.mod_time) ∷ fixed

abbrev pub to_lower : ℕ → ℕ
to_lower c = if leb 65 c && leb c 90 then c + 32 else c

unfoldable pub equal_fold : Text → Text → Bool
equal_fold s u = eqb (map to_lower s) (map to_lower u)

-- The range over the map.
unfoldable pub lookup_fold : UserData → Text → Text
lookup_fold [] name = []
lookup_fold ((k, v) ∷ md) name =
    let rest = lookup_fold md name in if equal_fold k name then v else rest

-- `lookup`.
unfoldable pub lookup_name : UserData → Text → Text
unfolding equal_fold
lookup_name md name = elim (lookup name md) [ some v ↦ v | none ↦ lookup_fold md name ]

abbrev pub or_default {ℓ} : {A : Type ℓ} → Option A → A → A
or_default none a = a
or_default (some b) a = b

-- `metaFrom`.
unfoldable pub meta_from :
    TimeFormat
    → UserData
    → (content_type : Option Text) → (content_length last_modified : Option ℕ) → Meta
meta_from c md content_type content_length last_modified =
    let v = lookup_name md meta_mod_time in
    let parsed = if eqb v [] then 0 else or_default (c.parse v) 0 in
    record {
      size = or_default content_length 0;
      mod_time = if parsed == 0 then or_default last_modified parsed else parsed;
      content_type = or_default content_type [];
      immutable = eqb (lookup_name md meta_immutable) true_text;
    }
