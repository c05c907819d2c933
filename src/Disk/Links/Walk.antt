-- ===== src/Disk/Links/Walk.antt =====
-- The loop of `save` over the list: it follows `next` from the head. It is given fuel, and a list of
-- `n` entries needs no more than `n`.
use ci_cache.Base.{
  List, Option, [], ap, arith, length, none, refl, some, suc, zero, ℕ, ◌∷◌, ◌≡◌, ◌≤◌,
}
use ci_cache.Disk.Links.{Links}
use ci_cache.Disk.Links.Chain.{IsChain, Seg, first_or}

-- `for e := start; e != nil; e = e.step`.
unfoldable pub follow : ℕ → (ℕ → Option ℕ) → Option ℕ → List ℕ
follow zero step start = []
follow (suc k) step none = []
follow (suc k) step (some p) = p ∷ follow k step (step p)

follow-none : (k : ℕ) (step : ℕ → Option ℕ) → follow k step none ≡ []
unfolding follow
follow-none zero step = refl
follow-none (suc k) step = refl

forward-Seg :
    (prev next : ℕ → Option ℕ) (k : ℕ) (b : Option ℕ) (xs : List ℕ)
    → length xs ≤ k
    → Seg prev next b xs none
    → follow k next (first_or xs none) ≡ xs
unfolding first_or follow
forward-Seg prev next k b [] h s = follow-none k next
forward-Seg prev next zero b (x ∷ xs) h s = absurd (omega arith)
forward-Seg prev next (suc k) b (x ∷ xs) h s =
    rw (s.1) (ap (◌∷◌ x) (forward-Seg prev next k (some x) xs (omega arith) s.2))

-- The walk from the head by `next` meets the entries in their order, if the fuel is their number at least.
pub forward-IsChain :
    (l : Links) (xs : List ℕ) (k : ℕ) → IsChain l xs → length xs ≤ k → follow k l.next l.head ≡ xs
forward-IsChain l xs k c h = rw (c.head) (forward-Seg l.prev l.next k none xs h c.seg)
