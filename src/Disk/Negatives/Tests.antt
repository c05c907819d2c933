-- ===== src/Disk/Negatives/Tests.antt =====
-- Runs of the negative entries, and their theorems at concrete inputs.
use ci_cache.Base.{Text, [], add64, arith, codes, eqb, lookup, refl, starts_with, ◌∷◌, ◌≡◌}
use ci_cache.Disk.Index.{Index}
use ci_cache.Disk.Index.Sample.{two}
use ci_cache.Disk.Negatives.{expire_negatives, get_negative, invalidate_prefix, sweep}
use ci_cache.Disk.Negatives.Laws.{IsMap, get-expire_negatives}

abbrev jar : Text
jar = codes "mvn/a.jar"

abbrev pom : Text
pom = codes "mvn/a.pom"

-- One answer that runs out at 5 and one that runs out at 9.
abbrev missing : Index
missing = record two { neg = (jar, 5) ∷ (pom, 9) ∷ [] }

missing-IsMap : IsMap missing.neg
unfolding lookup eqb
missing-IsMap = (refl, (refl, tt))

swept : ((expire_negatives 5 missing).1 ≡ 1) × ((expire_negatives 5 missing).0.neg ≡ (pom, 9) ∷ [])
unfolding expire_negatives sweep add64
swept = (refl, refl)

invalidated : (invalidate_prefix (codes "mvn/") missing).1 ≡ 2
unfolding invalidate_prefix sweep starts_with add64
invalidated = refl

get-expire_negatives_example :
    (get_negative pom 7 (expire_negatives 5 missing).0).1 ≡ (get_negative pom 7 missing).1
get-expire_negatives_example = get-expire_negatives pom 5 7 missing missing-IsMap (omega arith)
