-- ===== src/Admin/Tests.antt =====
-- Wipes at concrete wiped_paths and keys.
use ci_cache.Base.{
  Text, [], codes, delete, eqb, false, if◌then◌else◌, length, lookup, none, refl, sle, slt, some,
  true, ◌∷◌, ◌≡◌, ◌⊎◌,
}
use ci_cache.Base
use ci_cache.Tier.{errors_is, page}
use ci_cache.Tier.Sample.{Objects, memory, memory_laws}
use ci_cache.Gomod.Names.Strings.{contains, split, strip_prefix, strip_suffix}
use ci_cache.Admin.{
  Deleted, Deps, Failure, delete_one, err, invalid_argument, nothing_deleted, ok, page_size,
  wipe_bucket, wipe_disk,
}
use ci_cache.Admin.Prefix.{is_bucket_prefix}
use ci_cache.Admin.Wipes.{InOrder, IsScoped, wipe_bucket_scope}
use ci_cache.Admin.Keys.{wipe_key}

-- A disk and a bucket in one state: the disk's objects, and how often each was wiped by prefix.
abbrev wiped_once : Text → Objects → Objects × Deleted
wiped_once prefix w = ([], record { entries = length w; bytes = 0; error = none })

abbrev deps : Deps Objects
deps = record {
  disk = record {
    stat = memory.stat;
    delete = memory.delete;
    delete_prefix = wiped_once;
    invalidate = λ prefix w. (w, nothing_deleted none);
    list = λ prefix token size w. (w, page [] []);
  };
  bucket = some wiped_once;
}

abbrev key : Text
key = codes "go/a"

abbrev held : Objects
held =
    (
      key,
      record {
        bytes = 1 ∷ [];
        meta = record { size = 1; mod_time = 0; content_type = []; immutable = false };
      },
    )
    ∷ []

run : Unit {0}
unfolding is_bucket_prefix wipe_bucket wipe_disk delete_one split strip_suffix strip_prefix contains
    eqb lookup errors_is Base.delete page_size sle slt
run = tt

wiped_paths :
    (is_bucket_prefix (codes "go/") ≡ true)
    × (is_bucket_prefix (codes "go/build/v1.2@x/") ≡ true)
    × (is_bucket_prefix (codes "go") ≡ false)
    × (is_bucket_prefix (codes "Go/") ≡ false)
    × (is_bucket_prefix (codes "go//") ≡ false)
    × (is_bucket_prefix (codes "/go/") ≡ false)
unfolding run
wiped_paths = (refl, refl, refl, refl, refl, refl)

dotted :
    wipe_bucket deps (codes "go/../x/") held
    ≡ (held, err (invalid_argument (codes "a path to resolve")))
unfolding run
dotted = refl

page_sizes : (page_size 0 ≡ 100) × (page_size 7 ≡ 7) × (page_size 5000 ≡ 1000)
unfolding run
page_sizes = (refl, refl, refl)

wipe_bucket_scope_example :
    ((f : Failure) × (wipe_bucket deps (codes "go/build/") held ≡ (held, err f)))
    ⊎ (IsScoped (codes "go/build/")
        × (b : Text → Objects → Objects × Deleted) × (some wiped_once ≡ some b)
        × InOrder deps (codes "go/build/") held b)
wipe_bucket_scope_example = wipe_bucket_scope deps (codes "go/build/") held

wipe_key_example :
    ((wipe_disk deps key held).1 ≡ ok (record { entries = 1; bytes = 1 }))
    × ((j : Text)
        → memory_laws.view (wipe_disk deps key held).0 j
          ≡ (if eqb key j then none else memory_laws.view held j))
unfolding lookup eqb
wipe_key_example =
    wipe_key deps memory memory_laws (λ k w. refl) (λ k w. refl) key held refl (unfold run in refl)
      refl
