-- ===== src/Disk/Listing/Pages.antt =====
-- The pages of `List`, one after another.
use ci_cache.Base.{
  All, All-map, Bool, Bool-cases, List, Text, [], ap, arith, eqb, false, inl, inr, length, ltb,
  ltb→lt, none, refl, sle, slt, suc, take, true, zero, ℕ, ◌&&◌, ◌++◌, ◌-◌, ◌<◌, ◌∙◌, ◌∷◌, ◌≡◌,
}
use ci_cache.Tier.{Listed, page}
use ci_cache.Disk.Index.{Index}
use ci_cache.Disk.Listing.{
  and_next, filter, first_page, kept, last_key, list, page_size, pages, past, snapshot, sort,
  text_lt, under,
}
use ci_cache.Disk.Listing.Order.{text_lt_asym, text_lt_irrefl, text_lt_trans}
use ci_cache.Disk.Listing.Sorting.{
  All-filter, All-sort, Distinct, Sorted, filter-Sorted, sort-Sorted, sort-filter,
}

page_size-positive : (n : ℕ) → 0 < page_size n
unfolding page_size sle slt
page_size-positive n = ground arith

-- The list after its first entries.
abbrev drop : ℕ → List Listed → List Listed
drop zero es = es
drop (suc n) [] = []
drop (suc n) (e ∷ es) = drop n es

take-drop : (n : ℕ) (es : List Listed) → take n es ++ drop n es ≡ es
take-drop zero es = refl
take-drop (suc n) [] = refl
take-drop (suc n) (e ∷ es) = ap (◌∷◌ e) (take-drop n es)

length-drop : (n : ℕ) (es : List Listed) → 0 < n → n < length es → length (drop n es) < length es
length-drop zero es pos h = absurd (omega arith)
length-drop (suc n) [] pos h = absurd (omega arith)
length-drop (suc zero) (e ∷ es) pos h = omega arith
length-drop (suc (suc n)) (e ∷ es) pos h =
    omega (arith, length-drop (suc n) es (omega arith) (omega arith))

-- What holds of every key holds of the last key of a page.
last_key-All :
    (P : Text → Type 0) (n : ℕ) (es : List Listed)
    → n < length es
    → All (λ e. P e.key) es
    → P (last_key (take (suc n) es))
unfolding last_key
last_key-All P n [] h all = absurd (omega arith)
last_key-All P zero (e ∷ es) h all = all.0
last_key-All P (suc n) (e ∷ []) h all = absurd (omega arith)
last_key-All P (suc n) (e ∷ f ∷ es) h all = last_key-All P n (f ∷ es) (omega arith) all.1

filter-all : (p : Listed → Bool) (es : List Listed) → All (λ e. p e ≡ true) es → filter p es ≡ es
unfolding filter
filter-all p [] h = refl
filter-all p (e ∷ es) h = rw (h.0, filter-all p es h.1) refl

filter-filter :
    (p q r : Listed → Bool) (es : List Listed)
    → ((e : Listed) → r e ≡ (p e && q e))
    → filter r es ≡ filter q (filter p es)
unfolding filter
filter-filter p q r [] h = refl
filter-filter p q r (e ∷ es) h = elim (Bool-cases (p e)) [
  | inl keep ↦ ground (arith, keep, h e, filter-filter p q r es h)
  | inr out ↦ ground (arith, out, h e, filter-filter p q r es h)
]

filter-accepts : (p : Listed → Bool) (es : List Listed) → All (λ e. p e ≡ true) (filter p es)
unfolding filter
filter-accepts p [] = tt
filter-accepts p (e ∷ es) = elim (Bool-cases (p e)) [
  | inl keep ↦ rw keep (keep, filter-accepts p es)
  | inr out ↦ rw out (filter-accepts p es)
]

-- Of a sorted list, what is past the last key of a page is what follows the page.
past-page :
    (n : ℕ) (es : List Listed)
    → n < length es
    → Sorted es
    → filter (λ e. text_lt (last_key (take (suc n) es)) e.key) es ≡ drop (suc n) es
unfolding filter last_key
past-page n [] h s = absurd (omega arith)
past-page zero (e ∷ es) h s =
    rw (text_lt_irrefl e.key) (filter-all (λ f. text_lt e.key f.key) es s.0)
past-page (suc n) (e ∷ []) h s = absurd (omega arith)
past-page (suc n) (e ∷ f ∷ es) h s =
    let before : text_lt e.key (last_key (take (suc n) (f ∷ es))) ≡ true =
      last_key-All (λ k. text_lt e.key k ≡ true) n (f ∷ es) (omega arith) s.0 in
    rw (text_lt_asym e.key (last_key (take (suc n) (f ∷ es))) before)
      (past-page n (f ∷ es) (omega arith) s.1)

and_next-filled :
    (next : Text → List Listed) (es : List Listed) (token : Text)
    → eqb token [] ≡ false
    → and_next next (page es token) ≡ es ++ next token
unfolding eqb
and_next-filled next es [] h = absurd (cc)
and_next-filled next es (c ∷ token) h = refl

-- An index where each key stands once and none is empty.
pub record IsNamed (ix : Index) : Type 0 where
  pub distinct : Distinct (snapshot ix)
  pub filled : All (λ e. eqb e.key [] ≡ false) (snapshot ix)

module _ (prefix : Text) (size : ℕ) (ix : Index) (named : IsNamed ix) where
  -- All that pages from a token on have.
  abbrev left_after : Text → List Listed
  left_after token = filter (kept prefix token) (sort (snapshot ix))

  left_after-Sorted : (token : Text) → Sorted (left_after token)
  left_after-Sorted token = filter-Sorted _ _ (sort-Sorted (snapshot ix) named.distinct)

  list-left_after :
      (token : Text)
      → list none prefix token size ix ≡ first_page (page_size size) (left_after token)
  unfolding list
  list-left_after token =
      ap (first_page (page_size size))
        (sort-filter (kept prefix token) (snapshot ix) named.distinct)

  kept-next :
      (token next k : Text)
      → eqb next [] ≡ false
      → past token next ≡ true
      → (under prefix k && past next k) ≡ ((under prefix k && past token k) && text_lt next k)
  kept-next token next k filled later = ground (arith, filled, later, text_lt_trans token next k)

  accepted : (token : Text) → All (λ e. past token e.key ≡ true) (left_after token)
  accepted token =
      All-map _ _ (λ e h. ground (arith, h)) (left_after token)
        (filter-accepts (kept prefix token) (sort (snapshot ix)))

  left_after-next :
      (n : ℕ) (token : Text)
      → n < length (left_after token)
      → let next = last_key (take (suc n) (left_after token)) in
        (eqb next [] ≡ false) × (left_after next ≡ drop (suc n) (left_after token))
  left_after-next n token h =
      let next = last_key (take (suc n) (left_after token)) in
      let sorted_filled = All-sort _ (snapshot ix) named.filled in
      let filled : eqb next [] ≡ false =
        last_key-All (λ k. eqb k [] ≡ false) n (left_after token) h
          (All-filter _ (kept prefix token) (sort (snapshot ix)) sorted_filled) in
      let later : past token next ≡ true =
        last_key-All (λ k. past token k ≡ true) n (left_after token) h (accepted token) in
      (
        filled,
        filter-filter (kept prefix token) (λ e. text_lt next e.key) (kept prefix next)
              (sort (snapshot ix)) (λ e. kept-next token next e.key filled later)
            ∙ past-page n (left_after token) h (left_after-Sorted token),
      )

  pub pages-left_after :
      (n : ℕ) (token : Text)
      → length (left_after token) < n
      → pages n prefix token size ix ≡ left_after token
  unfolding pages first_page
  pages-left_after zero token h = absurd (omega arith)
  pages-left_after (suc n) token h =
      let asked : ℕ = page_size size - 1 in
      let positive : page_size size ≡ suc asked = omega (arith, page_size-positive size) in
      let es = left_after token in
      elim (Bool-cases (ltb (suc asked) (length es))) [
        | inr last ↦ rw (list-left_after token, positive, last) refl
        | inl more ↦
            let (filled, follows) = left_after-next asked token (omega (arith, ltb→lt _ _ more)) in
            let fewer = length-drop (suc asked) es (omega arith) (ltb→lt _ _ more) in
            rw
              (
                list-left_after token,
                positive,
                more,
                and_next-filled (λ next. pages n prefix next size ix) (take (suc asked) es)
                    (last_key (take (suc asked) es)) filled,
              )
              (ap (λ l. take (suc asked) es ++ l)
                  (pages-left_after n (last_key (take (suc asked) es))
                      (omega (arith, ap length follows, fewer))
                    ∙ follows)
                ∙ take-drop (suc asked) es)
      ]
