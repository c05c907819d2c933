-- ===== src/Disk/Index/Sample.antt =====
-- A small index, built by the operations, for the tests of this and of other components.
use ci_cache.Base.{
  Text, [], add64, arith, codes, delete, eqb, insert, lookup, refl, sle, slt, sub64, true, ℕ, ◌+◌,
  ◌∷◌,
}
use ci_cache.Disk.Links.{if_nil, link_front, unlink, update, write_at}
use ci_cache.Disk.Links.Chain.{first_or, has, last_or}
use ci_cache.Disk.Links.Walk.{follow}
use ci_cache.Disk.Index.{
  Entry, Index, account, add_if_absent, attach, new_index, release, remove, set, take_lru, touch,
  used_by,
}
use ci_cache.Disk.Index.Represents.{Represents}
use ci_cache.Disk.Index.Lru.{Fresh, Holds, find, forget, touched}
use ci_cache.Disk.Index.Evict.{chosen, kept}
use ci_cache.Disk.Index.Updates.{set-Holds}

-- What a run of the index computes with.
unfoldable pub program : Unit {0}
unfolding new_index set add_if_absent touch remove take_lru attach release account used_by update
    write_at if_nil link_front unlink eqb lookup insert delete add64 sub64 slt sle find forget
    touched chosen kept has first_or last_or follow
program = tt

abbrev pub entry : Text → Text → ℕ → Entry
entry key frontend size = record {
  key = key;
  frontend = frontend;
  size = size;
  on_disk = 1024 + size;
  last_access = 0;
  immutable = true;
}

abbrev pub go_a : Entry
go_a = entry (codes "go/a") (codes "go") 6

abbrev pub go_b : Entry
go_b = entry (codes "go/b") (codes "go") 0

abbrev pub empty : Index
empty = new_index (λ p. go_a)

empty-Represents : Represents empty []
unfolding program
empty-Represents = record {
  chain = record { distinct = tt; head = refl; tail = refl; seg = tt };
  listed = tt;
  mapped = λ k p h. absurd (cc);
  counts = record { used = refl; n = refl; shares = λ f. refl; sized = tt; fits = omega arith };
}

pub empty-Holds : Holds empty []
unfolding program
empty-Holds = ([], empty-Represents, refl)

pub empty-Fresh : Fresh 1 empty
unfolding program
empty-Fresh k h = ground arith

abbrev pub one : Index
one = set 1 go_a empty

abbrev pub two : Index
two = set 2 go_b one

pub one-Fresh : Fresh 2 one
unfolding program
one-Fresh k h = ground arith

pub one-Holds : Holds one (go_a ∷ [])
unfolding program
one-Holds = (set-Holds 1 go_a empty [] empty-Holds empty-Fresh (omega arith) (omega arith)).0

pub two-Holds : Holds two (go_b ∷ go_a ∷ [])
unfolding program
two-Holds = (set-Holds 2 go_b one (go_a ∷ []) one-Holds one-Fresh (omega arith) (omega arith)).0
