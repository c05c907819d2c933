-- ===== src/Admin/Keys.antt =====
-- A wipe of one key of the disk.
use ci_cache.Base.{
  Bool-cases, Bytes, Option, Text, [], ap, eqb, eqb_iff, false, if◌then◌else◌, inl, inr, none, refl,
  some, sym, ◌∙◌, ◌∷◌, ◌≡◌,
}
use ci_cache.Tier.{Error, Meta, Stated, Tier, errors_is, has, lacks, not_found, sentinel}
use ci_cache.Tier.Laws.{IsMap}
use ci_cache.Gomod.Names.Strings.{ends_with}
use ci_cache.Admin.{
  Deps, Removed, answered, delete_found, delete_one, delete_stated, nothing_deleted, ok,
  one_deleted, wipe_disk,
}

-- What is removed with an object.
abbrev pub removed_object : Option (Bytes × Meta) → Removed
removed_object none = record { entries = 0; bytes = 0 }
removed_object (some (b, m)) = record { entries = 1; bytes = m.size }

module _ {W : Type 0} (d : Deps W) where
  stated_absent :
      (key : Text) (p : W × Stated)
      → p.1 ≡ lacks (sentinel not_found)
      → delete_stated d key p ≡ (p.0, nothing_deleted none)
  unfolding errors_is
  stated_absent key (w, has m) h = absurd (cc)
  stated_absent key (w, lacks e) h =
      let same : e ≡ sentinel not_found = cc in
      ap (λ e. (w, nothing_deleted (if errors_is e not_found then none else some e))) same

  stated_there :
      (key : Text) (p : W × Stated) (m : Meta)
      → p.1 ≡ has m
      → delete_stated d key p ≡ delete_found d m (d.disk.delete key p.0)
  stated_there key (w, has n) m h =
      let same : n ≡ m = cc in ap (λ n. delete_found d n (d.disk.delete key w)) same
  stated_there key (w, lacks e) m h = absurd (cc)

  found_deleted :
      (m : Meta) (q : W × Option Error)
      → q.1 ≡ none
      → delete_found d m q ≡ (q.0, record { entries = 1; bytes = m.size; error = none })
  found_deleted m (w, e) h = ap (λ e. (w, one_deleted d m e)) h

module _ {W : Type 0} (d : Deps W) (t : Tier W) (l : IsMap t)
    (stats : (k : Text) (w : W) → d.disk.stat k w ≡ t.stat k w)
    (deletes : (k : Text) (w : W) → d.disk.delete k w ≡ t.delete k w) (key : Text) (w : W) where
  abbrev kept : Text → Option (Bytes × Meta)
  kept j = if eqb key j then none else l.view w j

  absent_kept : l.view w key ≡ none → (j : Text) → l.view w j ≡ kept j
  absent_kept h j = elim (Bool-cases (eqb key j)) [
    | inl e ↦ rw e (ap (l.view w) (sym ((eqb_iff key j).0 e)) ∙ h)
    | inr n ↦ rw n refl
  ]

  wiped_by :
      (o : Option (Bytes × Meta))
      → l.view w key ≡ o
      → (t.delete key (t.stat key w).0).1 ≡ none
      → (v : W) × (delete_one d key w ≡ (
        v,
        record {
          entries = (removed_object o).entries;
          bytes = (removed_object o).bytes;
          error = none;
        },
      ))
        × ((j : Text) → l.view v j ≡ kept j)
  unfolding delete_one
  wiped_by none h gone = (
    (t.stat key w).0,
    ap (delete_stated d key) (stats key w)
        ∙ stated_absent d key (t.stat key w) (l.not_stated key w h),
    λ j. l.stat_keeps key j w ∙ absent_kept h j,
  )
  wiped_by (some (b, m)) h gone =
      let p = t.stat key w in
      let q = t.delete key p.0 in
      (
        q.0,
        ap (delete_stated d key) (stats key w)
            ∙ stated_there d key p m (l.stated key w b m h)
            ∙ ap (delete_found d m) (deletes key p.0)
            ∙ found_deleted d m q gone,
        λ j.
            l.removed key j p.0
            ∙ ap (λ (v : Option (Bytes × Meta)). if eqb key j then none else v)
                (l.stat_keeps key j w),
      )

  -- Over a disk whose `Stat` and `Delete` are those of a tier that behaves as a map, and that fails in no removal, a wipe of one key removes that object and no other, and answers how many objects and bytes that were; of a key that is not there, none and no error.
  pub wipe_key :
      eqb key [] ≡ false
      → ends_with key (47 ∷ []) ≡ false
      → (t.delete key (t.stat key w).0).1 ≡ none
      → ((wipe_disk d key w).1 ≡ ok (removed_object (l.view w key)))
        × ((j : Text) → l.view (wipe_disk d key w).0 j ≡ (if eqb key j then none else l.view w j))
  unfolding wipe_disk
  wipe_key named whole gone =
      let (v, done, view) = wiped_by (l.view w key) refl gone in
      let e : wipe_disk d key w ≡ (v, ok (removed_object (l.view w key))) =
        rw (named, whole) (ap (answered d) done) in
      (ap (λ p. p.1) e, λ j. ap (λ p. l.view p.0 j) e ∙ view j)
