-- ===== src/Disk/Index/Updates.antt =====
-- The operations of the index against the abstract one.
use mathlib.Core.Option
use ci_cache.Base.{
  Bool, List, Option, Text, [], ap, ap₂, arith, eqb_refl, false, half_word, if◌then◌else◌, insert,
  lookup, lookup-delete, lookup-insert, map, none, refl, some, subst, sym, true, ℕ, ◌++◌, ◌+◌, ◌<◌,
  ◌∙◌, ◌∷◌, ◌≡◌,
}
use ci_cache.Disk.Links.{update}
use ci_cache.Disk.Links.Chain.{has, ne_of_has}
use ci_cache.Disk.Index.{
  Entry, Index, allocate, attach, bury, release, release_old, remove, remove_at, set,
}
use ci_cache.Disk.Index.Counts.{Counts-same, total}
use ci_cache.Disk.Index.Represents.{All-has, All-of_has, Represents, RepresentsBut}
use ci_cache.Disk.Index.Lru.{Fresh, Fresh-has, Holds, find, forget, lookup-Found, lookup-absent}
use ci_cache.Disk.Index.Steps.{
  absent-RepresentsBut, attach-Represents, delete-Represents, has-middle, release-RepresentsBut,
}

pub map-update :
    (f : ℕ → Entry) (p : ℕ) (e : Entry) (xs : List ℕ)
    → has p xs ≡ false
    → map (update f p e) xs ≡ map f xs
unfolding has update
map-update f p e [] h = refl
map-update f p e (x ∷ xs) h = ground (arith, map-update f p e xs)

-- A new entry at a fresh address, not yet linked.
pub allocate-Represents :
    (p : ℕ) (e : Entry) (ix : Index) (xs : List ℕ)
    → has p xs ≡ false
    → Represents ix xs
    → Represents (allocate p e ix) xs
allocate-Represents p e ix xs h r = record {
  chain = r.chain;
  listed = All-of_has _ xs λ q hq.
      rw (same q hq) (All-has (λ a. lookup (ix.nodes a).key ix.m ≡ some a) xs q r.listed hq);
  mapped = λ k q at. let (hq, e') = r.mapped k q at in (hq, rw (same q hq) e');
  counts =
      rw (map-update ix.nodes p e xs h)
        (Counts-same ix (allocate p e ix) _ refl refl refl r.counts);
}
  where
    same : (q : ℕ) → has q xs ≡ true → update ix.nodes p e q ≡ ix.nodes q
    same q hq = unfold update in ground (arith, ne_of_has p q xs hq h)

pub update_self {ℓ} : {A : Type ℓ} (f : ℕ → A) (p : ℕ) (v : A) → update f p v p ≡ v
unfolding update
update_self f p v = ground arith

-- The rest of the index does not matter.
pub retag :
    (ix : Index) (tombs : List (Text × Unit {0})) (neg : List (Text × ℕ)) (cold : Bool)
    (xs : List ℕ)
    → Represents ix xs
    → Represents (record ix { tombs = tombs; neg = neg; cold = cold }) xs
retag ix tombs neg cold xs r = record {
  chain = r.chain;
  listed = r.listed;
  mapped = r.mapped;
  counts = Counts-same ix _ _ refl refl refl r.counts;
}

-- The index without the entry of a key, before the map is told.
record Released (k : Text) (ix : Index) (xs : List ℕ) : Type 0 where
  left : List ℕ
  but : RepresentsBut k (release_old (lookup k ix.m) ix) left
  view : map ix.nodes left ≡ forget k (map ix.nodes xs)
  fewer : (q : ℕ) → has q xs ≡ false → has q left ≡ false

release_old-nodes : (o : Option ℕ) (ix : Index) → (release_old o ix).nodes ≡ ix.nodes
unfolding release_old release
release_old-nodes none ix = refl
release_old-nodes (some p) ix = refl

release_old_lem : (k : Text) (ix : Index) (xs : List ℕ) → Represents ix xs → Released k ix xs
unfolding release_old
release_old_lem k ix xs r = go (lookup k ix.m) refl
  where
    go : (o : Option ℕ) → lookup k ix.m ≡ o → Released k ix xs
    go none h = record {
      left = xs;
      but = rw h (absent-RepresentsBut k ix xs h r);
      view = sym (lookup-absent k ix xs h r).1;
      fewer = λ q out. out;
    }
    go (some p) h =
        let f = lookup-Found k p ix xs h r in
        record {
          left = f.before ++ f.after;
          but =
              rw h
                (release-RepresentsBut k p ix f.before f.after h (subst (Represents ix) f.split r));
          view = sym f.forgotten;
          fewer = λ q out. ground (arith, has-middle q p f.before f.after, ap (has q) f.split);
        }

-- On an index that stands for a list of entries, `set` of a new node with a positive size that the total has room for puts the entry in front and forgets the key's old one; the totals follow, and the key is neither buried nor known to be absent.
pub set-Holds :
    (p : ℕ) (e : Entry) (ix : Index) (es : List Entry)
    → Holds ix es
    → Fresh p ix
    → 0 < e.on_disk
    → total (forget e.key es) + e.on_disk < half_word
    → Holds (set p e ix) (e ∷ forget e.key es)
      × (lookup e.key (set p e ix).tombs ≡ none)
      × (lookup e.key (set p e ix).neg ≡ none)
unfolding set
set-Holds p e ix es (xs, r, view) fresh pos fits =
    let outside = Fresh-has p ix xs fresh r in
    let ix1 = allocate p e ix in
    let old = release_old_lem e.key ix1 xs (allocate-Represents p e ix xs outside r) in
    let ix2 = release_old (lookup e.key ix.m) ix1 in
    let nodes : ix2.nodes ≡ ix1.nodes = release_old-nodes (lookup e.key ix.m) ix1 in
    let new : ix2.nodes p ≡ e = ap (λ f. f p) nodes ∙ update_self ix.nodes p e in
    let rest : map ix2.nodes old.left ≡ forget e.key es =
      ap (λ f. map f old.left) nodes
      ∙ old.view
      ∙ ap (forget e.key) (map-update ix.nodes p e xs outside ∙ view) in
    let done : Represents (attach p ix2) (p ∷ old.left) =
      attach-Represents p ix2 old.left (old.fewer p outside)
        (subst (λ d. RepresentsBut d.key ix2 old.left) (sym new) old.but) (rw new pos)
        (rw (new, rest) fits) in
    (
      (
        p ∷ old.left,
        retag (attach p ix2) _ _ _ (p ∷ old.left) done,
        unfold attach in ap₂ ◌∷◌ new rest,
      ),
      ground (arith, lookup-delete e.key e.key (attach p ix2).tombs, eqb_refl e.key),
      ground (arith, lookup-delete e.key e.key (attach p ix2).neg, eqb_refl e.key),
    )

bury_lem :
    (k : Text) (ix : Index)
    → bury k ix ≡ record ix { tombs = if ix.cold then insert k tt ix.tombs else ix.tombs }
unfolding bury
bury_lem k ix = ground arith

remove_at-Holds :
    (k : Text) (ix : Index) (xs : List ℕ) (o : Option ℕ)
    → lookup k ix.m ≡ o
    → Represents ix xs
    → Holds (remove_at o k ix).0 (forget k (map ix.nodes xs))
      × (Option.map ix.nodes (remove_at o k ix).1 ≡ find k (map ix.nodes xs))
      × ((remove_at o k ix).0.tombs ≡ ix.tombs)
unfolding remove_at release
remove_at-Holds k ix xs none h r =
    let gone = lookup-absent k ix xs h r in ((xs, r, sym gone.1), sym gone.0, refl)
remove_at-Holds k ix xs (some p) h r =
    let f = lookup-Found k p ix xs h r in
    let b = release-RepresentsBut k p ix f.before f.after h (subst (Represents ix) f.split r) in
    (
      (
        f.before ++ f.after,
        delete-Represents k (release p ix) (f.before ++ f.after) b,
        sym f.forgotten,
      ),
      sym f.found,
      refl,
    )

-- An entry that stands between two parts of the list.
pub remove_split :
    (k : Text) (p : ℕ) (ix : Index) (ys zs : List ℕ)
    → lookup k ix.m ≡ some p
    → Represents ix (ys ++ p ∷ zs)
    → Represents (remove k ix).0 (ys ++ zs) × ((remove k ix).0.nodes ≡ ix.nodes)
unfolding remove release
remove_split k p ix ys zs h r =
    let tombs = if ix.cold then insert k tt ix.tombs else ix.tombs in
    let ix' : Index = record ix { tombs = tombs } in
    let b =
      release-RepresentsBut k p ix' ys zs h (retag ix tombs ix.neg ix.cold (ys ++ p ∷ zs) r) in
    rw (bury_lem k ix, h, remove_at) (delete-Represents k (release p ix') (ys ++ zs) b, refl)

-- On an index that stands for a list of entries, `remove` forgets the key and returns its entry; while the start-up walk runs, it remembers the key as deleted.
pub remove-Holds :
    (k : Text) (ix : Index) (es : List Entry)
    → Holds ix es
    → Holds (remove k ix).0 (forget k es)
      × (Option.map ix.nodes (remove k ix).1 ≡ find k es)
      × (lookup k (remove k ix).0.tombs ≡ (if ix.cold then some tt else lookup k ix.tombs))
unfolding remove
remove-Holds k ix es (xs, r, view) =
    let tombs = if ix.cold then insert k tt ix.tombs else ix.tombs in
    let ix' : Index = record ix { tombs = tombs } in
    let h = remove_at-Holds k ix' xs (lookup k ix.m) refl (retag ix tombs ix.neg ix.cold xs r) in
    rw (bury_lem k ix, ← view)
      (h.0, h.1, ap (lookup k) h.2 ∙ ground (arith, lookup-insert k k tt ix.tombs, eqb_refl k))
