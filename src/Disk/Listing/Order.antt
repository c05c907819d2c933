-- ===== src/Disk/Listing/Order.antt =====
-- The order of strings by their bytes.
use ci_cache.Base.{Bool-cases, Text, [], arith, eqb, false, inl, inr, refl, true, ◌∷◌, ◌≡◌}
use ci_cache.Disk.Listing.{text_lt}

pub text_lt_irrefl : (s : Text) → text_lt s s ≡ false
unfolding text_lt
text_lt_irrefl [] = refl
text_lt_irrefl (x ∷ s) = ground (arith, text_lt_irrefl s)

pub text_lt_trans : (s t u : Text) → text_lt s t ≡ true → text_lt t u ≡ true → text_lt s u ≡ true
unfolding text_lt
text_lt_trans s [] u h g = absurd (cc)
text_lt_trans s (y ∷ t) [] h g = absurd (cc)
text_lt_trans [] (y ∷ t) (z ∷ u) h g = refl
text_lt_trans (x ∷ s) (y ∷ t) (z ∷ u) h g = ground (arith, text_lt_trans s t u)

-- Of two strings one is less, unless they are the same.
pub text_lt_total : (s t : Text) → text_lt s t ≡ false → eqb s t ≡ false → text_lt t s ≡ true
unfolding text_lt eqb
text_lt_total [] [] h g = absurd (cc)
text_lt_total [] (y ∷ t) h g = absurd (cc)
text_lt_total (x ∷ s) [] h g = refl
text_lt_total (x ∷ s) (y ∷ t) h g = ground (arith, text_lt_total s t)

pub text_lt_asym : (s t : Text) → text_lt s t ≡ true → text_lt t s ≡ false
text_lt_asym s t h = elim (Bool-cases (text_lt t s)) [
  | inr g ↦ g
  | inl g ↦ absurd (ground (arith, text_lt_irrefl s, text_lt_trans s t s h g))
]
