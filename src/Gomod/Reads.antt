-- ===== src/Gomod/Reads.antt =====
-- What `Get` and `fresh` answer, of a broken tier and after a write.
use ci_cache.Base.{
  Bytes, Text, ap, arith, false, half_word, length, ltb, none, not, refl, sle, sle_small, some, sym,
  true, ℕ, ◌&&◌, ◌++◌, ◌+◌, ◌-◌, ◌<◌, ◌==◌, ◌∙◌, ◌∷◌, ◌≡◌, ◌≢◌,
}
use ci_cache.Tier.{Error, Got, Meta, Reader, Stated, Tier, failed, found, has, lacks}
use ci_cache.Tier.Laws.{IsMap, measured, stream}
use ci_cache.Gomod.{
  Cacher, Source, as_entry, entry, fresh, get, is_fresh, key, meta_for, or_legacy, put, read_entry,
  refused, root,
}
use ci_cache.Gomod.Names.{valid_name}

key_valid : (name : Text) → valid_name name ≡ true → key name ≡ some (root ++ 47 ∷ name)
unfolding key
key_valid name valid = rw valid refl

as_entry_soft : (got : Got) (e : Error) → as_entry got ≢ refused e
as_entry_soft (found r m) e h = absurd (cc)
as_entry_soft (failed d) e h = absurd (cc)

abbrev pub source : Bytes → Source
source b = record { body = stream b; unsized = none; stuck = none }

-- The time since a write is less than an age.
young :
    (now age later : ℕ)
    → now ≢ 0
    → age ≢ 0
    → (not (now == 0) && ltb (later - now) age) ≡ ltb later (now + age)
young now age later set some_age = ground arith

module _ {W : Type 0} (t : Tier W) (digest : Text → Text) (c : Cacher) where
  read_entry_lem :
      (name : Text) (got : W × Got) (r : Reader) (m : Meta)
      → got.1 ≡ found r m
      → (read_entry t digest c (or_legacy t digest c name got)).1 ≡ entry r m.size m.mod_time
  read_entry_lem name (w, found q n) r m h = ap as_entry h
  read_entry_lem name (w, failed e) r m h = absurd (cc)

  is_fresh_lem :
      (age now : ℕ) (p : W × Stated) (m : Meta)
      → p.1 ≡ has m
      → (is_fresh t age now p).1 ≡ (not (m.mod_time == 0) && ltb (now - m.mod_time) age)
  is_fresh_lem age now (w, has n) m h =
      let same : n ≡ m = cc in ap (λ n. not (n.mod_time == 0) && ltb (now - n.mod_time) age) same
  is_fresh_lem age now (w, lacks e) m h = absurd (cc)

  -- Whatever the tier answers, an error of it included, `Get` of a valid name answers an entry or that there is none, and never another error.
  pub get_soft :
      (name : Text) (w : W) (e : Error)
      → valid_name name ≡ true
      → (get t digest c name w).1 ≢ refused e
  unfolding get
  get_soft name w e valid =
      let k = root ++ 47 ∷ name in
      let got = or_legacy t digest c name (t.get k w) in
      let same : (get t digest c name w).1 ≡ as_entry got.1 = rw (get, key_valid name valid) refl in
      λ h. as_entry_soft got.1 e (sym same ∙ h)

  module _ (l : IsMap t) (name : Text) (b : Bytes) (now : ℕ) where
    -- What the tier holds after a write that it has accepted.
    put_entry :
        (w : W)
        → valid_name name ≡ true
        → l.recordable (root ++ 47 ∷ name) b (meta_for name (source b) now)
        → (t.put (root ++ 47 ∷ name) (stream b) (meta_for name (source b) now) w).1 ≡ none
        → l.view (put t name (source b) now w).0 (root ++ 47 ∷ name)
          ≡ some (b, measured b (meta_for name (source b) now))
    unfolding put
    put_entry w valid fits done =
        let k = root ++ 47 ∷ name in
        let m = meta_for name (source b) now in
        rw (put, key_valid name valid) (l.written k b m w fits done)

    -- Over a tier that accepts the write, and from which what it can record and has accepted is read back with the size that it received, what `Put` was given under a valid name, at a time that is set, is what the next `Get` answers, with its length and with the moment of the write as its modification time; and from then on it is fresh for as long as the age, if the age is positive and an int64.
    pub get-put_entry :
        (w : W) (age later : ℕ)
        → valid_name name ≡ true
        → l.recordable (root ++ 47 ∷ name) b (meta_for name (source b) now)
        → (t.put (root ++ 47 ∷ name) (stream b) (meta_for name (source b) now) w).1 ≡ none
        → now ≢ 0
        → 0 < age
        → age < half_word
        → let w' = (put t name (source b) now w).0 in
          ((get t digest c name w').1 ≡ entry (stream b) (length b) now)
          × ((fresh t name age later w').1 ≡ ltb later (now + age))
    unfolding get fresh meta_for
    get-put_entry w age later valid fits done set positive small =
        let w' = (put t name (source b) now w).0 in
        let k = root ++ 47 ∷ name in
        let m = measured b (meta_for name (source b) now) in
        let there = put_entry w valid fits done in
        let got = read_entry_lem name (t.get k w') (stream b) m (l.got k w' b m there) in
        let stated = is_fresh_lem age later (t.stat k w') m (l.stated k w' b m there) in
        let aged : sle age 0 ≡ false =
          sle_small age 0 small (omega arith) ∙ ground (arith, positive) in
        (
          rw (get, key_valid name valid) got,
          rw (fresh, key_valid name valid, aged)
              (stated ∙ young now age later set (omega (arith, positive))),
        )
