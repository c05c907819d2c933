-- ===== src/Tier/Sample.antt =====
-- A tier that is a map in memory, for the tests of its clients. It meets the laws of a map.
use ci_cache.Base.{
  Bool-cases, Bytes, List, Option, Text, ap, arith, codes, delete, eqb, eqb_refl, if◌then◌else◌,
  inl, inr, insert, is_some, lookup, lookup-delete, lookup-insert, none, refl, some, true, ◌&&◌,
  ◌∙◌, ◌≡◌,
}
use ci_cache.Base
use ci_cache.Tier.{
  Error, Got, Meta, Reader, Stated, Tier, exists, failed, found, has, lacks, not_found, sentinel,
}
use ci_cache.Tier.Laws.{IsMap, measured, stream}

pub record Object : Type 0 where
  pub bytes : Bytes
  pub meta : Meta

abbrev pub Objects : Type 0
Objects = List (Text × Object)

abbrev pub got_object : Option Object → Got
got_object none = failed (sentinel not_found)
got_object (some o) = found (stream o.bytes) o.meta

abbrev pub stated_object : Option Object → Stated
stated_object none = lacks (sentinel not_found)
stated_object (some o) = has o.meta

abbrev pub pair_of : Option Object → Option (Bytes × Meta)
pair_of none = none
pair_of (some o) = some (o.bytes, o.meta)

abbrev made : Bytes → Meta → Object
made b m = record { bytes = b; meta = m }

abbrev pub store : Text → Reader → Meta → Objects → Objects × Option Error
store key r m w =
    if m.immutable && is_some (lookup key w)
    then (w, some (sentinel exists))
    else (insert key (made r.content (measured r.content m)) w, none)

abbrev pub memory : Tier Objects
memory = record {
  name = codes "memory";
  get = λ key w. (w, got_object (lookup key w));
  put = store;
  stat = λ key w. (w, stated_object (lookup key w));
  delete = λ key w. (Base.delete key w, none);
}

pub pair_of-some :
    (o : Option Object) (b : Bytes) (m : Meta) → pair_of o ≡ some (b, m) → o ≡ some (made b m)
pair_of-some none b m h = cc
pair_of-some (some o) b m h = cc

pub pair_of-none : (o : Option Object) → pair_of o ≡ none → o ≡ none
pair_of-none none h = refl
pair_of-none (some o) h = cc

pub store-written :
    (k : Text) (b : Bytes) (m : Meta) (w : Objects)
    → (store k (stream b) m w).1 ≡ none
    → pair_of (lookup k (store k (stream b) m w).0) ≡ some (b, measured b m)
store-written k b m w h = elim (Bool-cases (m.immutable && is_some (lookup k w))) [
  | inl kept ↦ absurd (ground (arith, kept))
  | inr free ↦ rw free (
      ap pair_of (
        lookup-insert k k (made b (measured b m)) w
        ∙ ap (λ t. if t then some (made b (measured b m)) else lookup k w) (eqb_refl k)))
]

pub store-taken :
    (k : Text) (b : Bytes) (m : Meta) (w : Objects) (e : Error)
    → (store k (stream b) m w).1 ≡ some e
    → (m.immutable ≡ true) × (is_some (pair_of (lookup k w)) ≡ true)
store-taken k b m w e h = ground arith

pub delete-removed :
    (k j : Text) (w : Objects)
    → pair_of (lookup j (Base.delete k w)) ≡ (if eqb k j then none else pair_of (lookup j w))
delete-removed k j w =
    ap pair_of (lookup-delete k j w)
    ∙ elim (Bool-cases (eqb k j)) [ inl e ↦ rw e refl | inr e ↦ rw e refl ]

abbrev pub memory_laws : IsMap memory
memory_laws = record {
  view = λ w k. pair_of (lookup k w);
  got = λ k w b m h. ap got_object (pair_of-some (lookup k w) b m h);
  missed = λ k w h. ap got_object (pair_of-none (lookup k w) h);
  got_keeps = λ k j w. refl;
  stated = λ k w b m h. ap stated_object (pair_of-some (lookup k w) b m h);
  not_stated = λ k w h. ap stated_object (pair_of-none (lookup k w) h);
  stat_keeps = λ k j w. refl;
  recordable = λ k b m. Unit;
  written = λ k b m w fits. store-written k b m w;
  taken = λ k b m w e h is. store-taken k b m w e h;
  removed = delete-removed;
}
