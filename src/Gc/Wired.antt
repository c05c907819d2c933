-- ===== src/Gc/Wired.antt =====
-- The disk tier with the collector as its space manager: engine/disk/disk.go and engine/gc/gc.go.
use ci_cache.Base.{
  Bool, Bool-cases, Bytes, List, Text, [], add64, ap, arith, eqb, half_word, inl, inr, length, ltb,
  ltb→lt, none, refl, some, subst, sym, ℕ, ◌++◌, ◌+◌, ◌<◌, ◌∙◌, ◌∷◌, ◌≡◌, ◌≤◌,
}
use ci_cache.Tier.{Meta, Reader}
use ci_cache.Disk.Header.{Header, Json, header_size}
use ci_cache.Disk.Index.{Entry}
use ci_cache.Disk.Index.Counts.{total}
use ci_cache.Disk.Index.Lru.{Fresh, Holds, forget}
use ci_cache.Disk.Volume.{Disk, used}
use ci_cache.Disk.Store.{Faults, Host, commit, entry_of, header_for, put, write}
use ci_cache.Disk.Store.Roundtrip.{IsHost, put_done, write_done}
use ci_cache.Gc.{Gc, admit, no_room, notify}
use ci_cache.Gc.Collect.{IsSound}
use ci_cache.Gc.Admit.{admit_lem}
use ci_cache.Disk.Index.Updates.{set-Holds}
use ci_cache.Disk.Volume.Evict.{Holds-used}

-- `SetSpaceManager` with a collector over the same disk.
abbrev pub gc_host : (path : Text → Text) → (stuck : Text → Bool) → Host Gc
gc_host path stuck = record {
  disk = λ g. g.disk;
  with_disk = λ d g. record g { disk = d };
  admit = admit path stuck;
  notify = notify;
}

pub gc_host-IsHost : (path : Text → Text) (stuck : Text → Bool) → IsHost (gc_host path stuck)
unfolding notify
gc_host-IsHost path stuck = record { with_is = λ d g. refl; notify_keeps = λ g. refl }

total-forget : (k : Text) (es : List Entry) → total (forget k es) ≤ total es
unfolding forget
total-forget k [] = omega arith
total-forget k (e ∷ es) = elim (Bool-cases (eqb k e.key)) [
  | inl h ↦ rw (forget, h) (omega (arith, total-forget k es))
  | inr h ↦ rw (forget, h) (omega (arith, total-forget k es))
]

module _ (j : Json) (path : Text → Text) (stuck : Text → Bool) where
  commit_within :
      (key : Text) (h : Header) (file : Bytes) (at p : ℕ) (d : Disk) (es : List Entry) (budget : ℕ)
      → Holds d.idx es
      → Fresh p d.idx
      → used d + (header_size + h.size) ≤ budget
      → budget < half_word
      → let d' = commit j path stuck key h file at p d in
        (used d' ≤ budget) × ((fs : List Entry) × Holds d'.idx fs)
  unfolding commit entry_of
  commit_within key h file at p d es budget holds fresh room bounded =
      let e = entry_of key h at in
      let size : add64 header_size h.size ≡ header_size + h.size = unfold add64 in omega arith in
      let sum = Holds-used d es holds in
      let fewer = total-forget key es in
      let fits : total (forget key es) + e.on_disk < half_word = omega (arith, size, sum, fewer) in
      let after = (set-Holds p e d.idx es holds fresh (omega (arith, size)) fits).0 in
      let d' = commit j path stuck key h file at p d in
      let sum' = Holds-used d' (e ∷ forget key es) after in
      (omega (arith, size, sum, sum', fewer), (e ∷ forget key es, after))

  admitted_fits :
      (size : ℕ) (g : Gc)
      → IsSound g
      → 0 < g.budget
      → 0 < size
      → used g.disk + size < half_word
      → (admit path stuck size g).1 ≡ none
      → size ≤ g.budget
  admitted_fits size g sound positive some_bytes range admits =
      elim (Bool-cases (ltb g.budget size)) [
        | inr fits ↦ ground arith
        | inl over ↦
            let refuses =
              (admit_lem path stuck size g sound positive some_bytes range).0
                (ltb→lt g.budget size over) in
            let e : (admit path stuck size g).1 ≡ some no_room = ap (λ x. x.1) refuses in
            absurd (cc)
      ]

  -- With a collector that is sound and has a positive budget, a `Put` that returns no error, of an object that is not longer than it is said to be, leaves the bytes in use within the budget and the index sound, if the sizes do not overflow an int64 and the new entry is a new node.
  pub put_within_budget :
      (f : Faults) (key : Text) (r : Reader) (m : Meta) (at p : ℕ) (g : Gc)
      → IsSound g
      → 0 < g.budget
      → used g.disk + (header_size + m.size) < half_word
      → length r.content ≤ m.size
      → Fresh p (admit path stuck (header_size + m.size) g).0.disk.idx
      → (put j path stuck (gc_host path stuck) f key r m at p g).1 ≡ none
      → let g' = (put j path stuck (gc_host path stuck) f key r m at p g).0 in
        (used g'.disk ≤ g.budget) × ((es : List Entry) × Holds g'.disk.idx es)
  put_within_budget f key r m at p g sound positive range honest fresh ok =
      let host = gc_host path stuck in
      let size = header_size + m.size in
      let wraps : add64 header_size m.size ≡ size = unfold add64 in omega arith in
      let done = put_done j path stuck host f key r m at p g ok in
      let s1 = (admit path stuck size g).0 in
      let admits : (admit path stuck size g).1 ≡ none =
        sym (ap (λ n. (admit path stuck n g).1) wraps) ∙ done.0 in
      let same_state = ap (λ n. (admit path stuck n g).0) wraps in
      let writes : (write j path stuck host f key r m at p s1).1 ≡ none =
        sym (ap (λ s. (write j path stuck host f key r m at p s).1) same_state) ∙ done.1 in
      let is : (put j path stuck host f key r m at p g).0
          ≡ (write j path stuck host f key r m at p s1).0 =
        done.2 ∙ ap (λ s. (write j path stuck host f key r m at p s).0) same_state in
      let (b, e, after) = write_done j path stuck host f key r m at p s1 writes in
      let big : 0 < size = omega arith in
      let fits = admitted_fits size g sound positive big range admits in
      let (accepted, room, sound1) =
        (admit_lem path stuck size g sound positive big range).1 fits in
      let h = header_for key (length r.content) m in
      let d = commit j path stuck key h (b ++ r.content) at p s1.disk in
      let left : host.disk (put j path stuck host f key r m at p g).0 ≡ d =
        ap (λ s. host.disk s) (is ∙ after)
        ∙ (gc_host-IsHost path stuck).notify_keeps (host.with_disk d s1) in
      let within : used s1.disk + (header_size + h.size) ≤ g.budget = omega (arith, room, honest) in
      subst (λ d. (used d ≤ g.budget) × ((es : List Entry) × Holds d.idx es)) (sym left)
        (commit_within key h (b ++ r.content) at p s1.disk sound1.entries g.budget sound1.holds
          fresh within sound.budget_fits)
