-- ===== src/Disk/Volume/Evict.antt =====
-- Eviction from the volume: what the index counts afterwards, and what is reported.
use ci_cache.Base.{
  Bool, List, Text, [], add64, ap, arith, eqb, half_word, inl, inr, map, refl, reverse, sym, word,
  ℕ, ◌%◌, ◌+◌, ◌<◌, ◌∙◌, ◌∷◌, ◌≡◌, ◌≤◌, ◌⊎◌,
}
use ci_cache.Disk.Index.{Entry, Index, take_lru}
use ci_cache.Disk.Index.Counts.{total}
use ci_cache.Disk.Index.Lru.{Holds}
use ci_cache.Disk.Index.Evict.{only_eligible}
use ci_cache.Disk.Index.TakeLru.{take_lru-oldest, total-reverse}
use ci_cache.Disk.Volume.{Disk, evict, freed_by, used}

freed_by-total :
    (nodes : ℕ → Entry) (freed : ℕ) (ps : List ℕ)
    → freed + total (map nodes ps) < half_word
    → freed_by nodes freed ps ≡ freed + total (map nodes ps)
unfolding freed_by add64
freed_by-total nodes freed [] h = omega arith
freed_by-total nodes freed (p ∷ ps) h =
    let e : (freed + (nodes p).on_disk) % word ≡ freed + (nodes p).on_disk = omega arith in
    rw e (omega (arith, freed_by-total nodes (freed + (nodes p).on_disk) ps (omega arith)))

-- The disk's index stands for `es`, whose bytes are its byte count.
pub Holds-used : (d : Disk) (es : List Entry) → Holds d.idx es → used d ≡ total es
unfolding used
Holds-used d es (xs, r, view) = r.counts.used ∙ ap total view

pub Holds-fits : (ix : Index) (es : List Entry) → Holds ix es → total es < half_word
Holds-fits ix es (xs, r, view) = rw (← view) r.counts.fits

all_eligible : (es : List Entry) → only_eligible [] es ≡ es
unfolding eqb
all_eligible [] = refl
all_eligible (e ∷ es) = ap (◌∷◌ e) (all_eligible es)

-- On a disk whose index stands for a list of entries, an eviction of `n` bytes, an int64 that is not negative, reports what it takes off the byte count, and takes at least `n` off, or all of it, where every front-end may be evicted.
pub evict_lem :
    (path_for : Text → Text) (stuck : Text → Bool) (n : ℕ) (f : Text) (d : Disk) (es : List Entry)
    → n < half_word
    → Holds d.idx es
    → (left : List Entry) × Holds (evict path_for stuck n f d).0.idx left
      × (used (evict path_for stuck n f d).0 + (evict path_for stuck n f d).1 ≡ used d)
      × ((f ≡ [])
          → (n ≤ (evict path_for stuck n f d).1) ⊎ (used (evict path_for stuck n f d).0 ≡ 0))
unfolding evict
evict_lem path_for stuck n f d es hn h =
    let t = take_lru-oldest n f d.idx es hn h in
    let d' = (evict path_for stuck n f d).0 in
    let victims = (take_lru n f d.idx).1 in
    let freed : freed_by d.idx.nodes 0 victims ≡ total (map d.idx.nodes victims) =
      omega
        (arith, freed_by-total d.idx.nodes 0 victims (omega (arith, t.6, Holds-fits d.idx es h))) in
    let now : used d' ≡ total t.0 = Holds-used d' (reverse t.0) t.1 ∙ total-reverse t.0 in
    (
      reverse t.0,
      t.1,
      omega (arith, freed, now, Holds-used d es h, t.6),
      λ whole. enough t.0 whole freed now t.3,
    )
  where
    enough :
        {freed_bytes now_used vs : ℕ} (old : List Entry)
        → f ≡ []
        → freed_bytes ≡ vs
        → now_used ≡ total old
        → (n ≤ vs) ⊎ (only_eligible f old ≡ [])
        → (n ≤ freed_bytes) ⊎ (now_used ≡ 0)
    enough old whole freed now (inl h) = inl (omega arith)
    enough old whole freed now (inr h) =
        let gone : old ≡ [] =
          sym (all_eligible old) ∙ ap (λ g. only_eligible g old) (sym whole) ∙ h in
        inr (now ∙ ap total gone)
