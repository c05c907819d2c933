-- ===== src/Disk/Index.antt =====
-- engine/disk/index.go: the index of the volume. An entry is an address, `nodes` holds what stands
-- there, and `links` its `prev` and `next`. A map is an association list, a set is a map to `Unit`.
-- The lock is held for the whole of each operation, so that an operation is one step. An int64 is
-- its bit pattern, an instant a number of nanoseconds.
pub mod Counts
pub mod Represents
pub mod Steps
pub mod Lru
pub mod Updates
pub mod Reads
pub mod Evict
pub mod TakeLru
pub mod Sample
mod Tests
use ci_cache.Base.{
  Bool, List, Option, Text, [], add64, delete, eqb, false, if◌then◌else◌, insert, is_some, length,
  lookup, none, sle, slt, some, sub64, suc, true, zero, ℕ, ◌&&◌, ◌++◌, ◌+◌, ◌||◌, ◌∷◌,
}
use ci_cache.Disk.Links.{Links, empty_links, link_front, unlink, update}

pub record Entry : Type 0 where
  pub key : Text
  pub frontend : Text
  pub size : ℕ
  pub on_disk : ℕ
  pub last_access : ℕ
  pub immutable : Bool

pub record FrontendUse : Type 0 where
  pub entries : ℕ
  pub bytes : ℕ

pub record Index : Type 0 where
  pub m : List (Text × ℕ)
  pub nodes : ℕ → Entry
  pub links : Links
  pub used : ℕ
  pub n : ℕ
  pub fe : List (Text × FrontendUse)
  pub cold : Bool
  pub tombs : List (Text × Unit {0})
  pub neg : List (Text × ℕ)

abbrev pub no_use : FrontendUse
no_use = record { entries = 0; bytes = 0 }

-- `newIndex`; what `nodes` holds at an address that no entry has is never read.
unfoldable pub new_index : (ℕ → Entry) → Index
unfolding empty_links
new_index nodes = record {
  m = [];
  nodes = nodes;
  links = empty_links;
  used = 0;
  n = 0;
  fe = [];
  cold = true;
  tombs = [];
  neg = [];
}

abbrev pub use_or_zero : Option FrontendUse → FrontendUse
use_or_zero none = no_use
use_or_zero (some u) = u

-- `account`, with the two deltas as int64.
unfoldable pub account :
    Text → (entries bytes : ℕ) → List (Text × FrontendUse) → List (Text × FrontendUse)
account f de db fe =
    let u = use_or_zero (lookup f fe) in
    let u' : FrontendUse = record { entries = add64 u.entries de; bytes = add64 u.bytes db } in
    if sle u'.entries 0 && sle u'.bytes 0 then delete f fe else insert f u' fe

-- `usedBy`.
unfoldable pub used_by : Text → Index → FrontendUse
used_by f ix = use_or_zero (lookup f ix.fe)

-- What `set`, `addIfAbsent` and `load` do for the entry at `p`: link it and count it.
unfoldable pub attach : ℕ → Index → Index
attach p ix =
    let e = ix.nodes p in
    record ix {
      m = insert e.key p ix.m;
      links = link_front p ix.links;
      used = add64 ix.used e.on_disk;
      n = add64 ix.n 1;
      fe = account e.frontend 1 e.on_disk ix.fe;
    }

-- What `set` and `removeLocked` do for the entry at `p`: unlink it and discount it.
unfoldable pub release : ℕ → Index → Index
release p ix =
    let e = ix.nodes p in
    record ix {
      links = unlink p ix.links;
      used = sub64 ix.used e.on_disk;
      n = sub64 ix.n 1;
      fe = account e.frontend (sub64 0 1) (sub64 0 e.on_disk) ix.fe;
    }

abbrev pub allocate : ℕ → Entry → Index → Index
allocate p e ix = record ix { nodes = update ix.nodes p e }

release_old : Option ℕ → Index → Index
release_old none ix = ix
release_old (some old) ix = release old ix

-- `set`, of a new entry at the address `p`.
unfoldable pub set : ℕ → Entry → Index → Index
unfolding release_old
set p e ix =
    let ix' = attach p (release_old (lookup e.key ix.m) (allocate p e ix)) in
    record ix' { tombs = delete e.key ix'.tombs; neg = delete e.key ix'.neg }

-- `addIfAbsent`, of a new entry at the address `p`.
unfoldable pub add_if_absent : ℕ → Entry → Index → Index × Bool
add_if_absent p e ix =
    if is_some (lookup e.key ix.m)
    then (ix, false)
    else if is_some (lookup e.key ix.tombs)
    then (ix, false)
    else (attach p (allocate p e ix), true)

touch_at : Option ℕ → ℕ → Index → Index × Bool
touch_at none at ix = (ix, false)
touch_at (some p) at ix = (
  record ix {
    nodes = update ix.nodes p (record (ix.nodes p) { last_access = at });
    links = link_front p (unlink p ix.links);
  },
  true,
)

unfoldable pub touch : Text → ℕ → Index → Index × Bool
unfolding touch_at
touch key at ix = touch_at (lookup key ix.m) at ix

bury : Text → Index → Index
bury key ix = if ix.cold then record ix { tombs = insert key tt ix.tombs } else ix

remove_at : Option ℕ → Text → Index → Index × Option ℕ
remove_at none key ix = (ix, none)
remove_at (some p) key ix = (release p (record ix { m = delete key ix.m }), some p)

-- `remove` and `removeLocked`: what was removed, if anything was.
unfoldable pub remove : Text → Index → Index × Option ℕ
unfolding bury remove_at
remove key ix = let ix' = bury key ix in remove_at (lookup key ix'.m) key ix'

-- `takeLRU`: the loop from the entry `e` on, with the bytes freed and the victims so far.
unfoldable pub take_loop :
    (fuel n : ℕ) → Text → (e : Option ℕ) → (freed : ℕ) → List ℕ → Index → Index × List ℕ
take_loop zero n frontend e freed victims ix = (ix, victims)
take_loop (suc k) n frontend none freed victims ix = (ix, victims)
take_loop (suc k) n frontend (some p) freed victims ix =
    let before = ix.links.prev p in
    let e = ix.nodes p in
    let taken = eqb frontend [] || eqb e.frontend frontend in
    let rest =
      take_loop k n frontend before (if taken then add64 freed e.on_disk else freed)
        (if taken then victims ++ p ∷ [] else victims)
        (if taken then (remove e.key ix).0 else ix) in
    if slt freed n then rest else (ix, victims)

-- `takeLRU`, with fuel for as many rounds as the index counts entries.
unfoldable pub take_lru : ℕ → Text → Index → Index × List ℕ
unfolding take_loop
take_lru n frontend ix =
    if sle n 0 then (ix, []) else take_loop ix.n n frontend ix.links.tail 0 [] ix
