-- ===== src/Chain/Tests.antt =====
-- Runs of a chain of two tiers, and the chain's theorems at concrete inputs.
use ci_cache.Base.{
  Option, Bool, Bool-cases, Bytes, List, Text, [], ap, arith, codes, eqb, eqb_iff, false,
  if◌then◌else◌, inl, inr, insert, is_some, length, lookup, none, refl, sle, slt, some, suc, true,
  zero, ℕ, ◌+◌, ◌<◌, ◌∷◌, ◌≡◌, ◌≤◌,
}
use ci_cache.Base
use ci_cache.Tier.{
  Got, failed, found, Meta, Tier, errors_is, exists, fails_with, has, lacks, no_space, not_found,
  other, sentinel,
}
use ci_cache.Chain.{
  delete, Chain, System, World, answer, buffer, delete_loop, deliver, fails_but, fault_in, forward,
  found_behind, get, hold, join_all, open_body, report, spill, stat, stat_loop, tell_fault, whole,
}
use ci_cache.Chain.Put.{put, put_buffered, put_held, put_to, tidy, write_behind_first, write_one}
use ci_cache.Chain.Stat.{IsAnswer, stat-IsAnswer}
use ci_cache.Chain.Delete.{all_deleted, delete_lem, some_fails}
use ci_cache.Chain.Writes.{put-temps}
use ci_cache.Chain.Outcome.{Works, measured, put_declined, put_outcome}

record Object : Type 0 where
  bytes : Bytes
  meta : Meta

abbrev Objects : Type 0
Objects = List (Text × Object)

record Two : Type 0 where
  near : Objects
  far : Objects

abbrev got_object : Option Object → Got
got_object none = failed (sentinel not_found)
got_object (some o) = found (whole o.bytes) o.meta

-- A tier that is a map, reached in the state by a getter and a setter.
abbrev map_tier : Text → (Two → Objects) → (Objects → Two → Two) → Tier Two
map_tier name read write = record {
  name = name;
  get = λ key w. (w, got_object (lookup key (read w)));
  put = λ key r m w. (
    write
        (insert key (record { bytes = r.content; meta = record m { size = length r.content } })
          (read w))
        w,
    none,
  );
  stat = λ key w.
      (w, elim (lookup key (read w)) [ none ↦ lacks (sentinel not_found) | some o ↦ has o.meta ]);
  delete = λ key w. (write (Base.delete key (read w)) w, none);
}

abbrev disk : Tier Two
disk = map_tier (codes "disk") (λ w. w.near) (λ o w. record w { near = o })

abbrev bucket : Tier Two
bucket = map_tier (codes "bucket") (λ w. w.far) (λ o w. record w { far = o })

abbrev key : Text
key = codes "go/a"

-- New temporary files get a name longer than all the names together.
total : List (Text × Bytes) → ℕ
total [] = 1
total ((k, b) ∷ fs) = length k + total fs

ones : ℕ → Text
ones zero = []
ones (suc n) = 1 ∷ ones n

length-ones : (n : ℕ) → length (ones n) ≡ n
unfolding ones
length-ones zero = refl
length-ones (suc n) = ap suc (length-ones n)

total-positive : (fs : List (Text × Bytes)) → 0 < total fs
unfolding total
total-positive [] = omega arith
total-positive ((k, b) ∷ fs) = omega (arith, total-positive fs)

lookup-long : (p : Text) (fs : List (Text × Bytes)) → total fs ≤ length p → lookup p fs ≡ none
unfolding lookup total
lookup-long p [] h = refl
lookup-long p ((k, b) ∷ fs) h = elim (Bool-cases (eqb k p)) [
  | inl g ↦ let same = ap length ((eqb_iff k p).0 g) in ground (arith, same, total-positive fs)
  | inr g ↦ rw (lookup, g) (lookup-long p fs (omega arith))
]

abbrev sys : System
sys = record {
  no_temp = none;
  temp_name = λ files. ones (total files);
  no_write = λ b. none;
  no_open = λ p. none;
  no_file = other (codes "no such file");
}

sys-Works : Works sys
sys-Works = record { creates = refl; writes = λ b. refl; opens = λ p. refl }

temp_name-fresh : (files : List (Text × Bytes)) → lookup (sys.temp_name files) files ≡ none
temp_name-fresh files =
    lookup-long (ones (total files)) files (omega (arith, length-ones (total files)))

abbrev chain : Chain Two
chain = record {
  tiers = disk ∷ bucket ∷ [];
  on_fault = none;
  write_behind = none;
  on_tier_error = none;
}

abbrev object : Meta
object = record { size = 2; mod_time = 7; content_type = []; immutable = true }

abbrev content : Bytes
content = 1 ∷ 2 ∷ []

abbrev stored_object : Object
stored_object = record { bytes = content; meta = object }

abbrev far_only : World Two
far_only = record { store = record { near = []; far = (key, stored_object) ∷ [] }; temps = [] }

all : Unit {0}
unfolding get fault_in found_behind tell_fault report answer deliver hold spill forward open_body
    stat stat_loop delete delete_loop put put_to put_buffered buffer put_held write_behind_first
    write_one tidy join_all fails_but errors_is lookup insert eqb slt sle ones total
all = tt

faulted : (get sys chain key far_only).0.store.near ≡ (key, stored_object) ∷ []
unfolding all
faulted = refl

-- An object of unknown size goes through a temporary file.
abbrev streamed : Meta
streamed = record object { size = 0 }

put_both :
    (put sys chain key (whole content) streamed far_only).0.store.near ≡ (key, stored_object) ∷ []
unfolding all
put_both = refl

stat-IsAnswer_example : IsAnswer sys chain key chain.tiers far_only (stat sys chain key far_only)
stat-IsAnswer_example = stat-IsAnswer sys chain key far_only

delete_lem_example :
    ((delete sys chain key far_only).0
      ≡ record far_only { store = all_deleted key chain.tiers far_only.store })
    × (is_some (delete sys chain key far_only).1
        ≡ some_fails key (λ e. true) chain.tiers far_only.store)
    × (fails_with (delete sys chain key far_only).1 no_space
        ≡ some_fails key (λ e. errors_is e no_space) chain.tiers far_only.store)
delete_lem_example = delete_lem sys chain key no_space far_only

put-temps_example :
    lookup key (put sys chain key (whole content) streamed far_only).0.temps
    ≡ lookup key far_only.temps
put-temps_example = put-temps sys chain key temp_name-fresh (whole content) streamed far_only key

put_outcome_example :
    let a = (disk.put key (whole content) (measured (whole content) streamed) far_only.store).1 in
    (put sys chain key (whole content) streamed far_only).1
    ≡ (if fails_but exists a then a else none)
put_outcome_example =
    put_outcome sys chain key disk bucket [] (whole content) streamed far_only refl sys-Works refl
      (λ h. unfold slt sle in ground arith)

abbrev offer : Tier Two → Text → Meta → Bytes → Two → Two × Bool
offer t k m b s = (s, false)

abbrev behind : Chain Two
behind = record chain { write_behind = some offer }

put_declined_example :
    (put sys behind key (whole content) streamed far_only).0.store
    ≡ (disk.put key (whole content) (measured (whole content) streamed) far_only.store).0
put_declined_example =
    put_declined sys behind key disk bucket [] offer (λ v n b s. refl) (whole content) streamed
      far_only refl refl sys-Works refl (λ h. unfold slt sle in ground arith)
