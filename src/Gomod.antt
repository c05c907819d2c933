-- ===== src/Gomod.antt =====
-- frontend/gomod/cacher.go: what goproxy caches, as objects of a tier. The digest of a name in the
-- legacy layout is a parameter; logging is not modelled. An instant is a number of nanoseconds
-- since Go's zero time.
pub mod Names
pub mod Reads
mod Tests
use ci_cache.Base.{
  Bool, Option, Text, [], codes, eqb, false, if◌then◌else◌, length, ltb, none, not, sle, some, take,
  true, ℕ, ◌&&◌, ◌++◌, ◌-◌, ◌==◌, ◌∷◌,
}
use ci_cache.Tier.{
  Error, Got, Meta, Reader, Stated, Tier, errors_is, failed, found, has, lacks, not_found, other,
  wrap,
}
use ci_cache.Gomod.Names.{classify, content_type_of, immutable, ttl, valid_name}

-- `cacher`, over the tier that its operations take.
pub record Cacher : Type 0 where
  pub legacy : Text

-- `Prefix`.
abbrev pub root : Text
root = codes "go/mod"

-- `key`, if it returns no error.
unfoldable pub key : Text → Option Text
key name = if valid_name name then some (root ++ 47 ∷ name) else none

abbrev pub bad_name : Error
bad_name = other (codes "gomod: cache name")

-- What goproxy hands over: the bytes, and what fails when it is sought to its end and, once it
-- is written, to its start.
pub record Source : Type 0 where
  pub body : Reader
  pub unsized : Option Error
  pub stuck : Option Error

pub data Answer : Type 0 where
  entry : Reader → (size mod_time : ℕ) → Answer
  not_exist : Answer
  refused : Error → Answer

-- The metadata of what `Put` writes.
unfoldable pub meta_for : Text → Source → (now : ℕ) → Meta
meta_for name s now = record {
  size = length s.body.content;
  mod_time = now;
  content_type = content_type_of name;
  immutable = elim (classify name) [ immutable ↦ true | ttl ↦ false ];
}

-- The end of `Get`: an error of the tier is a miss.
abbrev pub as_entry : Got → Answer
as_entry (found r m) = entry r m.size m.mod_time
as_entry (failed e) = not_exist

abbrev pub rewound : Option Error → Option Error
rewound none = none
rewound (some e) = some (wrap (codes "gomod: rewind") e)

module _ {W : Type 0} (t : Tier W) where
  module _ (digest : Text → Text) (c : Cacher) where
    -- `legacyKey`.
    unfoldable pub legacy_key : Text → Text
    legacy_key name = c.legacy ++ 47 ∷ (take 2 (digest name) ++ 47 ∷ digest name)

    -- The second read of `Get`.
    abbrev pub or_legacy : Text → W × Got → W × Got
    or_legacy name (w, found r m) = (w, found r m)
    or_legacy name (w, failed e) =
        if errors_is e not_found && not (eqb c.legacy [])
        then t.get (legacy_key name) w
        else (w, failed e)

    abbrev pub read_entry : W × Got → W × Answer
    read_entry (w, got) = (w, as_entry got)

    unfoldable pub get : Text → W → W × Answer
    unfolding legacy_key key
    get name w = elim (key name) [
      | none ↦ (w, refused bad_name)
      | some k ↦ read_entry (or_legacy name (t.get k w))
    ]

  unfoldable pub put : Text → Source → (now : ℕ) → W → W × Option Error
  unfolding key meta_for
  put name s now w = elim (key name) [
    | none ↦ (w, some bad_name)
    | some k ↦ elim s.unsized [
      | some e ↦ (w, none)
      | none ↦ ((t.put k s.body (meta_for name s now) w).0, rewound s.stuck)
    ]
  ]

  -- `fresh`. The time since an instant that is to come is negative, and less than any `age` that
  -- is positive.
  abbrev pub is_fresh : (age now : ℕ) → W × Stated → W × Bool
  is_fresh age now (w, lacks e) = (w, false)
  is_fresh age now (w, has m) = (w, not (m.mod_time == 0) && ltb (now - m.mod_time) age)

  unfoldable pub fresh : Text → (age now : ℕ) → W → W × Bool
  unfolding key
  fresh name age now w =
      if sle age 0
      then (w, false)
      else elim (key name) [ none ↦ (w, false) | some k ↦ is_fresh age now (t.stat k w) ]
