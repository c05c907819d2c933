-- ===== src/Bucket/Wipe/Complete.antt =====
-- What `DeletePrefix` reports when the store does what it is asked.
use ci_cache.Base.{
  All, All-append_right, List, Option, Text, [], ap, append-nil, append_assoc, arith, eqb, eqb_iff,
  false, length, none, refl, some, subst, suc, sym, word, zero, ℕ, ◌++◌, ◌+◌, ◌<◌, ◌∙◌, ◌∷◌, ◌≡◌,
  ◌≤◌,
}
use ci_cache.Bucket.{Bucket, delete_batch, object_key}
use ci_cache.Bucket.Requests.{Page, S3}
use ci_cache.Bucket.Wipe.{Wipe, delete_prefix, flush, next_token, nothing_yet, page_done, pages}
use ci_cache.Tier.{Error}
use ci_cache.Bucket.Wipe.Batches.{
  Apart, Listing, Obeys, Tally, add_all-Tally, bytes_of, flush_lem, keys_all, keys_of, last, mem,
  more,
}

abbrev pub count_all : List Page → ℕ
count_all [] = 0
count_all (p ∷ ps) = length p.contents + count_all ps

abbrev pub bytes_all : List Page → ℕ
bytes_all [] = 0
bytes_all (p ∷ ps) = bytes_of p.contents + bytes_all ps

abbrev pub Distinct : List Text → Type 0
Distinct [] = Unit
Distinct (k ∷ ks) = (mem k ks ≡ false) × Distinct ks

not_among :
    (x : Text) (xs zs : List Text) → mem x (xs ++ zs) ≡ false → All (λ k. eqb k x ≡ false) zs
unfolding mem
not_among x [] [] h = tt
not_among x [] (z ∷ zs) h =
    (ground (arith, h, eqb_iff x z, eqb_iff z x), not_among x [] zs (ground (arith, h)))
not_among x (y ∷ xs) zs h = not_among x xs zs (ground (arith, h))

mem-cons :
    (k x : Text) (xs : List Text) → eqb k x ≡ false → mem k xs ≡ false → mem k (x ∷ xs) ≡ false
unfolding mem
mem-cons k x xs h g = ground (arith, h, g)

All-mem :
    (x : Text) (xs zs : List Text) → All (λ k. eqb k x ≡ false) zs → Apart xs zs → Apart (x ∷ xs) zs
All-mem x xs [] h g = tt
All-mem x xs (z ∷ zs) h g = (mem-cons z x xs h.0 g.0, All-mem x xs zs h.1 g.1)

Distinct-Apart : (xs zs : List Text) → Distinct (xs ++ zs) → Apart xs zs
unfolding mem
Distinct-Apart [] [] h = tt
Distinct-Apart [] (z ∷ zs) h = (refl, Distinct-Apart [] zs h.1)
Distinct-Apart (x ∷ xs) zs h = All-mem x xs zs (not_among x xs zs h.0) (Distinct-Apart xs zs h.1)

no_pending : (ks : List Text) → length ks ≡ 0 → ks ≡ []
no_pending [] h = refl
no_pending (k ∷ ks) h = absurd (omega (arith, h))

module _ {W : Type 0} (api : S3 W) (b : Bucket) (prefix : Text) (answer : Option Text → Page)
    (o : Obeys api b prefix answer) where
  module _ (again : Option Text → Wipe → W → Option (W × Wipe × Option Error)) (p : Page) where
    last_page :
        (acc : Wipe) (w : W) (out : W × Wipe × Option Error)
        → next_token p ≡ none
        → flush api b acc w ≡ out
        → page_done api b again p (w, acc, none) ≡ some out
    unfolding page_done
    last_page acc w out e h = rw (page_done, e) (ap some h)

    next_page :
        (acc : Wipe) (w : W) (u : Text)
        → next_token p ≡ some u
        → page_done api b again p (w, acc, none) ≡ again (some u) acc w
    unfolding page_done
    next_page acc w u e = rw (page_done, e) refl

  pages-Tally :
      (fuel : ℕ) (tok : Option Text) (ps : List Page) (acc : Wipe) (n m : ℕ) (w : W)
      → Listing answer tok ps
      → length ps ≤ fuel
      → Tally acc n m
      → n + count_all ps < word
      → m + bytes_all ps < word
      → Distinct ((o.gone w ++ acc.pending) ++ keys_all ps)
      → (v : W) × (acc' : Wipe) × (pages api b fuel prefix tok acc w ≡ some (v, acc', none))
        × (acc'.entries ≡ n + count_all ps)
        × (acc'.removed ≡ m + bytes_all ps)
        × (o.gone v ≡ (o.gone w ++ acc.pending) ++ keys_all ps)
  unfolding pages
  pages-Tally zero tok ps acc n m w (last t e) enough t0 hn hm d = absurd (omega arith)
  pages-Tally zero tok ps acc n m w (more t u qs e l) enough t0 hn hm d = absurd (omega arith)
  pages-Tally (suc f) tok ps acc n m w (last t e) enough t0 hn hm d =
      let w1 = (api.list_objects b.bucket (object_key b prefix) t delete_batch w).0 in
      let seen = o.gone w ++ acc.pending in
      let apart = All-append_right _ acc.pending (keys_all (answer t ∷ [])) (
        Distinct-Apart (o.gone w) (acc.pending ++ keys_all (answer t ∷ []))
          (subst Distinct (append_assoc (o.gone w) acc.pending (keys_all (answer t ∷ []))) d)) in
      let (w2, acc1, added, t1, seen1) =
        add_all-Tally api b prefix answer o (answer t).contents acc n m w1 t0 (omega arith)
          (omega arith) in
      let page_seen : o.gone w2 ++ acc1.pending ≡ seen ++ keys_of (answer t).contents =
        seen1 ∙ ap (λ g. (g ++ acc.pending) ++ keys_of (answer t).contents) (o.lists_keep t w) in
      let (v, acc', e', c, r, p, z, kept) =
        flush_lem api b prefix answer o acc1 w2 (omega (arith, t1.part)) (omega (arith, t1.counted))
          (omega (arith, t1.weighed)) t1.clear in
      let done = page_done api b (pages api b f prefix) (answer t) in
      (
        v,
        acc',
        rw (pages, o.lists t (answer t ∷ []) w (last t e) apart)
            (ap done added
              ∙ last_page (pages api b f prefix) (answer t) acc1 w2 (v, acc', none) e e'),
        omega (arith, c, t1.counted),
        omega (arith, r, t1.weighed),
        sym (append-nil (o.gone v))
            ∙ ap (λ l. o.gone v ++ l) (sym (no_pending acc'.pending p))
            ∙ kept
            ∙ page_seen
            ∙ ap (λ l. seen ++ l) (sym (append-nil (keys_of (answer t).contents))),
      )
  pages-Tally (suc f) tok ps acc n m w (more t u qs e l) enough t0 hn hm d =
      let w1 = (api.list_objects b.bucket (object_key b prefix) t delete_batch w).0 in
      let seen = o.gone w ++ acc.pending in
      let apart = All-append_right _ acc.pending (keys_all (answer t ∷ qs)) (
        Distinct-Apart (o.gone w) (acc.pending ++ keys_all (answer t ∷ qs))
          (subst Distinct (append_assoc (o.gone w) acc.pending (keys_all (answer t ∷ qs))) d)) in
      let (w2, acc1, added, t1, seen1) =
        add_all-Tally api b prefix answer o (answer t).contents acc n m w1 t0 (omega arith)
          (omega arith) in
      let page_seen : o.gone w2 ++ acc1.pending ≡ seen ++ keys_of (answer t).contents =
        seen1 ∙ ap (λ g. (g ++ acc.pending) ++ keys_of (answer t).contents) (o.lists_keep t w) in
      let regroup = append_assoc seen (keys_of (answer t).contents) (keys_all qs) in
      let apart_rest : Distinct ((o.gone w2 ++ acc1.pending) ++ keys_all qs) =
        subst Distinct (sym regroup ∙ ap (λ l. l ++ keys_all qs) (sym page_seen)) d in
      let (v, acc', rest, c, r, all_gone) =
        pages-Tally f (some u) qs acc1 (n + length (answer t).contents)
          (m + bytes_of (answer t).contents) w2 l (omega arith) t1 (omega arith) (omega arith)
          apart_rest in
      let done = page_done api b (pages api b f prefix) (answer t) in
      (
        v,
        acc',
        rw (pages, o.lists t (answer t ∷ qs) w (more t u qs e l) apart)
            (ap done added ∙ next_page (pages api b f prefix) (answer t) acc1 w2 u e ∙ rest),
        omega (arith, c),
        omega (arith, r),
        all_gone ∙ ap (λ l. l ++ keys_all qs) page_seen ∙ regroup,
      )

  -- Over a store that lists its pages and deletes each batch of up to a thousand keys, `DeletePrefix` ends, with fuel for as many rounds as there are pages, and fails in no request, so that no batch is larger. It has deleted exactly the keys listed, each once and in their order, and reports the number and the bytes of the objects, if these are below 2^64. The keys listed differ from each other, and none was deleted before; a page does not depend on the deletion of keys before it.
  pub delete_prefix_lem :
      (fuel : ℕ) (ps : List Page) (w : W)
      → Listing answer none ps
      → length ps ≤ fuel
      → count_all ps < word
      → bytes_all ps < word
      → Distinct (o.gone w ++ keys_all ps)
      → (v : W) × (delete_prefix api b fuel prefix w ≡ some (v, count_all ps, bytes_all ps, none))
        × (o.gone v ≡ o.gone w ++ keys_all ps)
  unfolding delete_prefix
  delete_prefix_lem fuel ps w l enough hn hm d =
      let none_seen : Tally nothing_yet 0 0 = record {
        counted = refl;
        weighed = refl;
        part = omega arith;
        clear = λ z. refl;
      } in
      let none_pending = ap (λ g. g ++ keys_all ps) (append-nil (o.gone w)) in
      let (v, acc, e, c, r, deleted_all) =
        pages-Tally fuel none ps nothing_yet 0 0 w l enough none_seen (omega arith) (omega arith)
          (subst Distinct (sym none_pending) d) in
      let c' : acc.entries ≡ count_all ps = omega (arith, c) in
      let r' : acc.removed ≡ bytes_all ps = omega (arith, r) in
      (v, rw (delete_prefix, e, c', r') refl, deleted_all ∙ none_pending)
