-- ===== src/Gomod/Tests.antt =====
-- Names of the module cache, a write and a read over a map in memory, and the theorems at them.
use ci_cache.Base.{
  Bytes, Text, [], arith, codes, eqb, false, insert, lookup, ltb, none, refl, starts_with, true,
  ◌+◌, ◌∷◌, ◌≡◌, ◌≢◌, ◌⊎◌,
}
use ci_cache.Tier.{Tier, failed, other}
use ci_cache.Tier.Sample.{Objects, memory, memory_laws}
use ci_cache.Gomod.{Cacher, entry, fresh, get, meta_for, put, refused}
use ci_cache.Gomod.Names.{
  canonical_version, classify, content_type_of, cut_module_file, immutable, is_part, ttl,
  valid_name,
}
use ci_cache.Gomod.Names.Strings.{
  all_digits, contains, cut_byte, cut_last, ends_with, ext, split, strip_prefix, strip_suffix,
}
use ci_cache.Gomod.Names.Versions.{IsRelease, classify-IsRelease}
use ci_cache.Gomod.Reads.{get-put_entry, get_soft, source}

abbrev zip : Text
zip = codes "a.b/m/@v/v1.20.3-rc.zip"

run : Unit {0}
unfolding classify canonical_version is_part cut_module_file content_type_of valid_name ext split
    cut_byte cut_last contains all_digits strip_suffix strip_prefix starts_with eqb
run = tt

released : classify zip ≡ immutable
unfolding run
released = refl

module_names :
    (classify (codes "m/@v/main.info") ≡ ttl)
    × (classify (codes "m/@v/v1.02.3.mod") ≡ ttl)
    × (classify (codes "m/@v/v1.2.3-.mod") ≡ ttl)
    × (classify (codes "m/@v/v1.2.mod") ≡ ttl)
    × (classify (codes "m/@v/list") ≡ ttl)
    × (classify (codes "m/@v/v2.0.0+incompatible.mod") ≡ immutable)
unfolding run
module_names = (refl, refl, refl, refl, refl, refl)

sumdb_names :
    (classify (codes "sumdb/sum.golang.org/latest") ≡ ttl)
    × (classify (codes "sumdb/sum.golang.org/tile/8/0/001") ≡ immutable)
unfolding run
sumdb_names = (refl, refl)

-- What is after a pre-release is not looked at.
build_metadata : classify (codes "m/@v/v1.2.3-rc+dirty.zip") ≡ immutable
unfolding run
build_metadata = refl

names_refused :
    (valid_name (codes "a/../go/build") ≡ false)
    × (valid_name (codes "a//b") ≡ false)
    × (valid_name (codes "/a") ≡ false)
    × (valid_name zip ≡ true)
unfolding run
names_refused = (refl, refl, refl, refl)

zip_type : content_type_of zip ≡ codes "application/zip"
unfolding run
zip_type = refl

classify-IsRelease_example :
    ((starts_with zip (codes "sumdb/") ≡ true) × (ends_with zip (codes "/latest") ≡ false))
    ⊎ IsRelease zip
classify-IsRelease_example = classify-IsRelease zip released

abbrev cacher : Cacher
cacher = record { legacy = [] }

abbrev no_digest : Text → Text
no_digest name = codes "00"

abbrev failing : Tier Objects
failing = record memory { get = λ k w. (w, failed (other (codes "down"))) }

get_soft_example : (get failing no_digest cacher zip []).1 ≢ refused (other (codes "down"))
get_soft_example =
    get_soft failing no_digest cacher zip [] (other (codes "down")) (unfold run in refl)

abbrev body : Bytes
body = 80 ∷ 75 ∷ []

abbrev written : Objects
written = (put memory zip (source body) 40 []).0

get-put_entry_example :
    ((get memory no_digest cacher zip written).1
      ≡ entry (record { content = body; broken = none }) 2 40)
    × ((fresh memory zip 10 45 written).1 ≡ ltb 45 (40 + 10))
get-put_entry_example =
    get-put_entry memory no_digest cacher memory_laws zip body 40 [] 10 45 (unfold run in refl) tt
      (unfold run meta_for lookup insert in refl) (λ e. absurd (omega (arith, e))) (omega arith)
      (omega arith)
