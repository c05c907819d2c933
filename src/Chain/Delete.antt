-- ===== src/Chain/Delete.antt =====
-- What `Delete` of a chain does to each tier, and what it reports.
use ci_cache.Base.{
  Bool, Bool-cases, List, Option-cases, Text, [], ap, arith, false, inl, inr, is_some, none, not,
  refl, some, sym, true, ◌&&◌, ◌||◌, ◌∙◌, ◌∷◌, ◌≡◌,
}
use ci_cache.Tier.{Error, Sentinel, Tier, errors_is, fails_with, not_found, wrap}
use ci_cache.Chain.{Chain, System, World, delete, delete_loop, join_all}

module _ {W : Type 0} (key : Text) where
  -- The state once every tier in turn was told to delete the key.
  unfoldable pub all_deleted : List (Tier W) → W → W
  all_deleted [] s = s
  all_deleted (t ∷ ts) s = all_deleted ts (t.delete key s).0

  -- Whether one of the tiers, told in turn, fails by another error than a miss that satisfies `p`.
  unfoldable pub some_fails : (Error → Bool) → List (Tier W) → W → Bool
  some_fails p [] s = false
  some_fails p (t ∷ ts) s =
      let (s', err) = t.delete key s in
      let rest = some_fails p ts s' in
      elim err [ none ↦ rest | some e ↦ (not (errors_is e not_found) && p e) || rest ]

any_error : (Error → Bool) → List Error → Bool
any_error p [] = false
any_error p (e ∷ es) = p e || any_error p es

join_all-is_some : (es : List Error) → is_some (join_all es) ≡ any_error (λ e. true) es
unfolding join_all any_error
join_all-is_some [] = refl
join_all-is_some (e ∷ es) = elim (Option-cases (join_all es)) [
  | inl h ↦ rw (join_all, h) refl
  | inr (d, h) ↦ rw (join_all, h) refl
]

join_all-fails_with :
    (s : Sentinel) (es : List Error)
    → fails_with (join_all es) s ≡ any_error (λ e. errors_is e s) es
unfolding join_all any_error errors_is
join_all-fails_with s [] = refl
join_all-fails_with s (e ∷ es) =
    let rest = join_all-fails_with s es in
    elim (Option-cases (join_all es)) [
      | inl h ↦
          let none_left : any_error (λ e. errors_is e s) es ≡ false =
            sym rest ∙ ap (λ o. fails_with o s) h in
          rw (join_all, h, none_left) (ground arith)
      | inr (d, h) ↦
          let left : errors_is d s ≡ any_error (λ e. errors_is e s) es =
            sym (ap (λ o. fails_with o s) h) ∙ rest in
          rw (join_all, h) (ap (λ b. errors_is e s || b) left)
    ]

module _ {W : Type 0} (sys : System) (c : Chain W) (key : Text) where
  delete_loop_lem :
      (p : Error → Bool) (ts : List (Tier W)) (w : World W)
      → ((n : Text) (e : Error) → p (wrap n e) ≡ p e)
      → ((delete_loop sys c key ts w).0 ≡ record w { store = all_deleted key ts w.store })
        × (any_error p (delete_loop sys c key ts w).1 ≡ some_fails key p ts w.store)
  unfolding delete_loop all_deleted some_fails any_error
  delete_loop_lem p [] w wraps = (refl, refl)
  delete_loop_lem p (t ∷ ts) w wraps =
      let rest = delete_loop_lem p ts (record w { store = (t.delete key w.store).0 }) wraps in
      elim (Option-cases (t.delete key w.store).1) [
        | inl h ↦ rw (delete_loop, some_fails, h) rest
        | inr (e, h) ↦ elim (Bool-cases (errors_is e not_found)) [
          | inl g ↦ rw (delete_loop, some_fails, h, g) rest
          | inr g ↦
              rw (delete_loop, some_fails, h, g)
                (
                  rest.0,
                  ap
                        (λ b.
                          b
                          || any_error p
                              (delete_loop sys c key ts
                                (record w { store = (t.delete key w.store).0 })).1)
                        (wraps t.name e)
                      ∙ ap (λ b. p e || b) rest.1,
                )
        ]
      ]

  -- `Delete` tells every tier, whatever the others answer. It returns an error exactly if a tier fails otherwise than by a miss, and that error is a given sentinel's exactly if one of those failures is.
  pub delete_lem :
      (s : Sentinel) (w : World W)
      → ((delete sys c key w).0 ≡ record w { store = all_deleted key c.tiers w.store })
        × (is_some (delete sys c key w).1 ≡ some_fails key (λ e. true) c.tiers w.store)
        × (fails_with (delete sys c key w).1 s
            ≡ some_fails key (λ e. errors_is e s) c.tiers w.store)
  unfolding delete errors_is
  delete_lem s w =
      let any = delete_loop_lem (λ e. true) c.tiers w (λ n e. refl) in
      let is = delete_loop_lem (λ e. errors_is e s) c.tiers w (λ n e. refl) in
      (any.0, join_all-is_some _ ∙ any.1, join_all-fails_with s _ ∙ is.1)
