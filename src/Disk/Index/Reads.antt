-- ===== src/Disk/Index/Reads.antt =====
-- `touch` and `addIfAbsent` against the abstract index.
use ci_cache.Disk.Index.Updates.{allocate-Represents, map-update, update_self}
use ci_cache.Base.{
  Bool-cases, List, Option, Option-cases, Text, ap₂, arith, false, half_word, if◌then◌else◌, inl,
  inr, is_some, lookup, map, map-append, none, not, refl, some, subst, sym, ℕ, ◌&&◌, ◌++◌, ◌+◌, ◌<◌,
  ◌∙◌, ◌∷◌, ◌≡◌,
}
use ci_cache.Disk.Links.{unlink, update}
use ci_cache.Disk.Links.Chain.{Distinct-middle, has, has-append, link_front-IsChain}
use ci_cache.Disk.Index.{Entry, Index, add_if_absent, allocate, attach, touch, touch_at}
use ci_cache.Disk.Index.Counts.{Counts-same, moved-Counts, total}
use ci_cache.Disk.Index.Represents.{All-has, All-of_has, Represents, RepresentsBut}
use ci_cache.Disk.Index.Lru.{Fresh, Fresh-has, Holds, find, lookup-Found, lookup-absent, touched}
use ci_cache.Disk.Index.Steps.{absent-RepresentsBut, attach-Represents, has-middle}
use ci_cache.Disk.Links.Unlink.{unlink-IsChain}

touch_lem :
    (p at : ℕ) (ix : Index) (ys zs : List ℕ)
    → Represents ix (ys ++ p ∷ zs)
    → Represents (touch_at (some p) at ix).0 (p ∷ ys ++ zs)
unfolding touch_at has
touch_lem p at ix ys zs r = record {
  chain =
      link_front-IsChain p (unlink p ix.links) (ys ++ zs) gone
        (unlink-IsChain p ix.links ys zs r.chain);
  listed = All-of_has _ (p ∷ ys ++ zs) λ q hq. rw (same_key q) (
      All-has (λ a. lookup (ix.nodes a).key ix.m ≡ some a) (ys ++ p ∷ zs) q r.listed
        (has-middle q p ys zs ∙ hq));
  mapped = λ k q found.
      let (hq, e) = r.mapped k q found in (sym (has-middle q p ys zs) ∙ hq, same_key q ∙ e);
  counts =
      rw (map-update ix.nodes p used (ys ++ zs) gone, update_self, map-append)
        (Counts-same ix _ _ refl refl refl (
          moved-Counts ix (map ix.nodes ys) (map ix.nodes zs) (ix.nodes p) used
            (rw (map-append) at r.counts) refl refl));
}
  where
    used : Entry
    used = record (ix.nodes p) { last_access = at }

    same_key : (q : ℕ) → (update ix.nodes p used q).key ≡ (ix.nodes q).key
    same_key q = unfold update in ground arith

    gone : has p (ys ++ zs) ≡ false
    gone =
        let alone = Distinct-middle ys zs p r.chain.distinct in ground (arith, has-append p ys zs)

touch_at-Holds :
    (k : Text) (at : ℕ) (ix : Index) (xs : List ℕ) (o : Option ℕ)
    → lookup k ix.m ≡ o
    → Represents ix xs
    → Holds (touch_at o at ix).0 (touched k at (map ix.nodes xs))
      × ((touch_at o at ix).1 ≡ is_some (find k (map ix.nodes xs)))
unfolding touched
touch_at-Holds k at ix xs none h r =
    let gone = lookup-absent k ix xs h r in
    unfold touch_at in ((xs, r, rw (gone.0, touched)), rw (gone.0))
touch_at-Holds k at ix xs (some p) h r =
    let f = lookup-Found k p ix xs h r in
    let r' = subst (Represents ix) f.split r in
    let alone = Distinct-middle f.before f.after p r'.chain.distinct in
    let gone : has p (f.before ++ f.after) ≡ false =
      ground (arith, has-append p f.before f.after) in
    (
      (
        p ∷ f.before ++ f.after,
        touch_lem p at ix f.before f.after r',
        unfold touch_at in
            rw (f.found, f.forgotten, touched)
              (ap₂ ◌∷◌ (update_self ix.nodes p (record (ix.nodes p) { last_access = at })) (
                map-update ix.nodes p (record (ix.nodes p) { last_access = at })
                  (f.before ++ f.after) gone)),
      ),
      unfold touch_at in rw (f.found),
    )

-- On an index that stands for a list of entries, `touch` of a key that the index has moves its entry to the front with the new time; of another key it leaves the list as it is.
pub touch-Holds :
    (k : Text) (at : ℕ) (ix : Index) (es : List Entry)
    → Holds ix es
    → Holds (touch k at ix).0 (touched k at es) × ((touch k at ix).1 ≡ is_some (find k es))
unfolding touch
touch-Holds k at ix es (xs, r, view) =
    rw (← view) (touch_at-Holds k at ix xs (lookup k ix.m) refl r)

is_some-find :
    (k : Text) (ix : Index) (xs : List ℕ)
    → Represents ix xs
    → is_some (find k (map ix.nodes xs)) ≡ is_some (lookup k ix.m)
is_some-find k ix xs r = elim (Option-cases (lookup k ix.m)) [
  | inl h ↦ rw (h, (lookup-absent k ix xs h r).0)
  | inr (p, h) ↦ rw (h, (lookup-Found k p ix xs h r).found)
]

-- On an index that stands for a list of entries, `addIfAbsent` of a new node with a positive size that the total has room for takes the entry exactly when the index has no entry of that key and the key was not deleted during the walk; then the entry is in front, and otherwise nothing changes.
pub add_if_absent-Holds :
    (p : ℕ) (e : Entry) (ix : Index) (es : List Entry)
    → Holds ix es
    → Fresh p ix
    → 0 < e.on_disk
    → total es + e.on_disk < half_word
    → let taken = not (is_some (find e.key es)) && not (is_some (lookup e.key ix.tombs)) in
      ((add_if_absent p e ix).1 ≡ taken)
      × Holds (add_if_absent p e ix).0 (if taken then e ∷ es else es)
unfolding add_if_absent
add_if_absent-Holds p e ix es (xs, r, view) fresh pos fits =
    rw (← view, is_some-find e.key ix xs r)
      (elim (Bool-cases (is_some (lookup e.key ix.m))) [
        | inl old ↦ rw old (refl, (xs, r, refl))
        | inr new ↦ elim (Bool-cases (is_some (lookup e.key ix.tombs))) [
          | inl dead ↦ rw (new, dead) (refl, (xs, r, refl))
          | inr live ↦ rw (new, live) (refl, added new)
        ]
      ])
  where
    outside : has p xs ≡ false
    outside = Fresh-has p ix xs fresh r

    ix1 : Index
    ix1 = allocate p e ix

    here : ix1.nodes p ≡ e
    here = update_self ix.nodes p e

    same : map ix1.nodes xs ≡ map ix.nodes xs
    same = map-update ix.nodes p e xs outside

    added : is_some (lookup e.key ix.m) ≡ false → Holds (attach p ix1) (e ∷ map ix.nodes xs)
    added new =
        let none_old : lookup e.key ix1.m ≡ none = ground arith in
        let but =
          absent-RepresentsBut e.key ix1 xs none_old (allocate-Represents p e ix xs outside r) in
        (
          p ∷ xs,
          attach-Represents p ix1 xs outside
              (subst (λ d. RepresentsBut d.key ix1 xs) (sym here) but) (rw here pos)
              (rw (here, same, view) fits),
          unfold attach in ap₂ ◌∷◌ here same,
        )
