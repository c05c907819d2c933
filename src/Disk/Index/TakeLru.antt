-- ===== src/Disk/Index/TakeLru.antt =====
-- `takeLRU` takes what it should.
use ci_cache.Base.{
  Bool-cases, List, Text, [], add64, ap, append-nil, append_assoc, arith, false, half_word,
  if◌then◌else◌, inl, inr, length, length-append, lookup, ltb, map, map-append, none, refl, reverse,
  reverse-append, reverse-reverse, sle, sle_small, slt, slt_small, some, subst, suc, sym, zero, ℕ,
  ◌++◌, ◌+◌, ◌<◌, ◌∙◌, ◌∷◌, ◌≡◌, ◌≤◌, ◌⊎◌,
}
use ci_cache.Disk.Links.Chain.{has, last_or}
use ci_cache.Disk.Links.Unlink.{ends, last_or-append}
use ci_cache.Disk.Index.{Entry, Index, remove, take_loop, take_lru}
use ci_cache.Disk.Index.Represents.{All-has, Represents}
use ci_cache.Disk.Index.Evict.{
  but_last, chosen, chosen-others, chosen_lem, eligible, kept, only_eligible, only_others,
  total-chosen,
}
use ci_cache.Disk.Index.Steps.{has-middle}
use ci_cache.Disk.Index.Updates.{remove_split}
use ci_cache.Disk.Index.Counts.{total, total-middle}
use ci_cache.Disk.Index.Lru.{Holds}

-- The walk by addresses, oldest first: what it takes, and what stays.
victims_of : (nodes : ℕ → Entry) (n : ℕ) → Text → (freed : ℕ) → List ℕ → List ℕ
victims_of nodes n f freed [] = []
victims_of nodes n f freed (p ∷ old) =
    let e = nodes p in
    let taken = eligible f e in
    let rest = victims_of nodes n f (if taken then add64 freed e.on_disk else freed) old in
    if slt freed n then (if taken then p ∷ rest else rest) else []

rest_of : (nodes : ℕ → Entry) (n : ℕ) → Text → (freed : ℕ) → List ℕ → List ℕ
rest_of nodes n f freed [] = []
rest_of nodes n f freed (p ∷ old) =
    let e = nodes p in
    let taken = eligible f e in
    let rest = rest_of nodes n f (if taken then add64 freed e.on_disk else freed) old in
    if slt freed n then (if taken then rest else p ∷ rest) else p ∷ old

-- An outcome of the loop: the victims are added to `vs`, and the entries that stay stand before `ks`.
record Taken (nodes : ℕ → Entry) (vs victims rest ks : List ℕ) (out : Index × List ℕ) : Type 0 where
  taken : out.1 ≡ vs ++ victims
  left : Represents out.0 (reverse rest ++ ks)
  same : out.0.nodes ≡ nodes

reverse-cons : (p : ℕ) (old : List ℕ) → reverse (p ∷ old) ≡ reverse old ++ p ∷ []
reverse-cons p old = reverse-append (p ∷ []) old

last_or-reverse : (p : ℕ) (old : List ℕ) → last_or none (reverse (p ∷ old)) ≡ some p
last_or-reverse p old = rw (reverse-cons, last_or-append) (unfold last_or in refl)

split_old : (p : ℕ) (old ks : List ℕ) → reverse (p ∷ old) ++ ks ≡ reverse old ++ p ∷ ks
split_old p old ks = rw (reverse-cons, append_assoc)

-- The three ways of a round.
Taken-stop :
    (ix : Index) (vs old ks : List ℕ)
    → Represents ix (reverse old ++ ks)
    → Taken ix.nodes vs [] old ks (ix, vs)
Taken-stop ix vs old ks r = record { taken = sym (append-nil vs); left = r; same = refl }

Taken-skip :
    {nodes : ℕ → Entry} {out : Index × List ℕ} (p : ℕ) (vs victims rest ks : List ℕ)
    → Taken nodes vs victims rest (p ∷ ks) out
    → Taken nodes vs victims (p ∷ rest) ks out
Taken-skip {out = out} p vs victims rest ks t = record {
  taken = t.taken;
  left = subst (Represents out.0) (sym (split_old p rest ks)) t.left;
  same = t.same;
}

Taken-take :
    {nodes : ℕ → Entry} {out : Index × List ℕ} (p : ℕ) (vs victims rest ks : List ℕ)
    → Taken nodes (vs ++ p ∷ []) victims rest ks out
    → Taken nodes vs (p ∷ victims) rest ks out
Taken-take p vs victims rest ks t = record {
  taken = t.taken ∙ append_assoc vs (p ∷ []) victims;
  left = t.left;
  same = t.same;
}

-- The entry at the end of the part still to walk.
at_end :
    (ix : Index) (p : ℕ) (old ks : List ℕ)
    → Represents ix (reverse old ++ p ∷ ks)
    → (ix.links.prev p ≡ last_or none (reverse old))
      × Represents (remove (ix.nodes p).key ix).0 (reverse old ++ ks)
      × ((remove (ix.nodes p).key ix).0.nodes ≡ ix.nodes)
at_end ix p old ks r =
    let mine : lookup (ix.nodes p).key ix.m ≡ some p =
      All-has (λ a. lookup (ix.nodes a).key ix.m ≡ some a) (reverse old ++ p ∷ ks) p r.listed
        (unfold has in ground (arith, has-middle p p (reverse old) ks)) in
    let gone = remove_split (ix.nodes p).key p ix (reverse old) ks mine r in
    ((ends ix.links.prev ix.links.next p (reverse old) ks r.chain.seg).1.0, gone.0, gone.1)

take_loop-Taken :
    (k n : ℕ) (f : Text) (freed : ℕ) (vs : List ℕ) (ix : Index) (old ks : List ℕ)
    → length old ≤ k
    → Represents ix (reverse old ++ ks)
    → Taken ix.nodes vs
        (victims_of ix.nodes n f freed old)
        (rest_of ix.nodes n f freed old)
        ks
        (take_loop k n f (last_or none (reverse old)) freed vs ix)
unfolding take_loop victims_of rest_of
take_loop-Taken zero n f freed vs ix [] ks h r = Taken-stop ix vs [] ks r
take_loop-Taken (suc k) n f freed vs ix [] ks h r = unfold last_or in Taken-stop ix vs [] ks r
take_loop-Taken zero n f freed vs ix (p ∷ old) ks h r = absurd (omega arith)
take_loop-Taken (suc k) n f freed vs ix (p ∷ old) ks h r =
    let r' = subst (Represents ix) (split_old p old ks) r in
    let (before, gone, same) = at_end ix p old ks r' in
    let ix' = (remove (ix.nodes p).key ix).0 in
    rw (last_or-reverse p old) (elim (Bool-cases (slt freed n)) [
      | inr stop ↦ rw stop (Taken-stop ix vs (p ∷ old) ks r)
      | inl more ↦ elim (Bool-cases (eligible f (ix.nodes p))) [
        | inl hit ↦
            let freed' = add64 freed (ix.nodes p).on_disk in
            let t = take_loop-Taken k n f freed' (vs ++ p ∷ []) ix' old ks (omega arith) gone in
            rw (more, hit, before)
              (Taken-take p vs _ _ ks (
                subst
                  (λ nodes.
                    Taken nodes (vs ++ p ∷ []) (victims_of nodes n f freed' old)
                      (rest_of nodes n f freed' old) ks
                      (take_loop k n f (last_or none (reverse old)) freed' (vs ++ p ∷ []) ix'))
                  same t))
        | inr miss ↦
            rw (more, miss, before)
              (Taken-skip p vs _ _ ks
                (take_loop-Taken k n f freed vs ix old (p ∷ ks) (omega arith) r'))
      ]
    ])

-- The walk by addresses is the walk by entries, while the sum stays in range.
victims_of-chosen :
    (nodes : ℕ → Entry) (n : ℕ) (f : Text) (freed : ℕ) (old : List ℕ)
    → n < half_word
    → freed + total (map nodes old) < half_word
    → (map nodes (victims_of nodes n f freed old) ≡ chosen n f freed (map nodes old))
      × (map nodes (rest_of nodes n f freed old) ≡ kept n f freed (map nodes old))
unfolding victims_of rest_of chosen kept
victims_of-chosen nodes n f freed [] hn h = (refl, refl)
victims_of-chosen nodes n f freed (p ∷ old) hn h =
    let e = nodes p in
    let add : add64 freed e.on_disk ≡ freed + e.on_disk = unfold add64 in omega arith in
    let hit = victims_of-chosen nodes n f (freed + e.on_disk) old hn (omega arith) in
    let miss = victims_of-chosen nodes n f freed old hn (omega arith) in
    rw (slt_small freed n (omega arith) hn) (elim (Bool-cases (ltb freed n)) [
      | inr stop ↦ rw stop (refl, refl)
      | inl more ↦ elim (Bool-cases (eligible f e)) [
        | inl taken ↦ rw (more, taken, add) (ap (◌∷◌ e) hit.0, hit.1)
        | inr left ↦ rw (more, left) (miss.0, ap (◌∷◌ e) miss.1)
      ]
    ])

map-reverse : (f : ℕ → Entry) (xs : List ℕ) → map f (reverse xs) ≡ reverse (map f xs)
map-reverse f [] = refl
map-reverse f (x ∷ xs) =
    rw (reverse-cons x xs, map-append, map-reverse f xs)
      (sym (reverse-append (f x ∷ []) (map f xs)))

length-reverse : (xs : List ℕ) → length (reverse xs) ≡ length xs
length-reverse [] = refl
length-reverse (x ∷ xs) =
    rw (reverse-cons x xs) (omega (arith, length-append (reverse xs) (x ∷ []), length-reverse xs))

length-map : (f : ℕ → Entry) (xs : List ℕ) → length (map f xs) ≡ length xs
length-map f [] = refl
length-map f (x ∷ xs) = ap suc (length-map f xs)

chosen-zero : (f : Text) (old : List Entry) → (chosen 0 f 0 old ≡ []) × (kept 0 f 0 old ≡ old)
unfolding chosen kept
chosen-zero f [] = (refl, refl)
chosen-zero f (e ∷ old) = (refl, refl)

-- The whole loop, from the tail.
take_all :
    (n : ℕ) (f : Text) (ix : Index) (xs : List ℕ)
    → Represents ix xs
    → Taken ix.nodes []
        (victims_of ix.nodes n f 0 (reverse xs))
        (rest_of ix.nodes n f 0 (reverse xs))
        []
        (take_loop ix.n n f ix.links.tail 0 [] ix)
take_all n f ix xs r =
    let back : xs ≡ reverse (reverse xs) ++ [] = rw (append-nil, reverse-reverse) in
    let fuel : length (reverse xs) ≤ ix.n =
      omega (arith, r.counts.n, length-map ix.nodes xs, length-reverse xs) in
    let start : last_or none (reverse (reverse xs)) ≡ ix.links.tail =
      ap (last_or none) (reverse-reverse xs) ∙ sym r.chain.tail in
    subst
      (λ o.
        Taken ix.nodes [] (victims_of ix.nodes n f 0 (reverse xs))
          (rest_of ix.nodes n f 0 (reverse xs)) [] (take_loop ix.n n f o 0 [] ix))
      start (take_loop-Taken ix.n n f 0 [] ix (reverse xs) [] fuel (subst (Represents ix) back r))

pub total-reverse : (es : List Entry) → total (reverse es) ≡ total es
total-reverse [] = refl
total-reverse (e ∷ es) = rw (reverse-append (e ∷ []) es) (
    omega
      (arith, total-middle (reverse es) [] e, total-reverse es, ap total (append-nil (reverse es))))

-- `takeLRU` takes the entries that a walk from the least recently used one takes, in that order, and the index stands for the others, in their old order.
pub take_lru-Holds :
    (n : ℕ) (f : Text) (ix : Index) (es : List Entry)
    → n < half_word
    → Holds ix es
    → Holds (take_lru n f ix).0 (reverse (kept n f 0 (reverse es)))
      × (map ix.nodes (take_lru n f ix).1 ≡ chosen n f 0 (reverse es))
unfolding take_lru
take_lru-Holds zero f ix es hn (xs, r, view) =
    let none_taken = chosen-zero f (reverse es) in
    rw (sle_small 0 0 hn hn, none_taken.0, none_taken.1, reverse-reverse) ((xs, r, view), refl)
take_lru-Holds (suc n) f ix es hn (xs, r, view) =
    let t = take_all (suc n) f ix xs r in
    let out = take_loop ix.n (suc n) f ix.links.tail 0 [] ix in
    let rest = rest_of ix.nodes (suc n) f 0 (reverse xs) in
    let rev : map ix.nodes (reverse xs) ≡ reverse es = map-reverse ix.nodes xs ∙ ap reverse view in
    let w =
      victims_of-chosen ix.nodes (suc n) f 0 (reverse xs) hn
        (rw (rev, total-reverse) (omega (arith, r.counts.fits, ap total view))) in
    let positive : sle (suc n) 0 ≡ false = sle_small (suc n) 0 hn (omega arith) ∙ ground arith in
    rw positive (
      (
        reverse rest,
        subst (Represents out.0) (append-nil (reverse rest)) t.left,
        ap (λ nodes. map nodes (reverse rest)) t.same
            ∙ map-reverse ix.nodes rest
            ∙ ap reverse (w.1 ∙ ap (kept (suc n) f 0) rev),
      ),
      ap (map ix.nodes) t.taken ∙ w.0 ∙ ap (chosen (suc n) f 0) rev,
    )

-- `takeLRU` of `n` bytes, an int64 that is not negative, on an index that stands for a list of entries: the victims are the least recently used of the eligible entries, in their order; they free `n` bytes unless nothing eligible is left, and would not without the last one; and the index stands for the rest, in which the eligible entries are the others and every other front-end's entries are as before, in their order.
pub take_lru-oldest :
    (n : ℕ) (f : Text) (ix : Index) (es : List Entry)
    → n < half_word
    → Holds ix es
    → let vs = map ix.nodes (take_lru n f ix).1 in
      (old : List Entry) × Holds (take_lru n f ix).0 (reverse old)
      × (only_eligible f (reverse es) ≡ vs ++ only_eligible f old)
      × ((n ≤ total vs) ⊎ (only_eligible f old ≡ []))
      × ((vs ≡ []) ⊎ (total (but_last vs) < n))
      × (only_others f (reverse es) ≡ only_others f old)
      × (total old + total vs ≡ total es)
take_lru-oldest n f ix es hn h =
    let t = take_lru-Holds n f ix es hn h in
    let w = chosen_lem n f (reverse es) in
    rw (t.1) (
      kept n f 0 (reverse es),
      t.0,
      w.0,
      w.1,
      w.2,
      chosen-others n f 0 (reverse es),
      omega (arith, total-chosen n f 0 (reverse es), total-reverse es),
    )
