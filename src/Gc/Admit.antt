-- ===== src/Gc/Admit.antt =====
-- When a write is admitted.
use ci_cache.Base.{
  Bool, Bool-cases, Text, add64, ap, arith, false, half_word, inl, inr, leb, leb→le, ltb, lt→ltb,
  none, not, refl, sle, sle_small, slt, slt_small, some, word, ℕ, ◌&&◌, ◌+◌, ◌<◌, ◌∙◌, ◌≡◌, ◌≤◌,
}
use ci_cache.Disk.Volume.{used}
use ci_cache.Gc.{Config, Gc, admit, high_of, low_of, no_room, notify}
use ci_cache.Gc.Collect.{IsSound, Shrunk, collect-Shrunk}

notify-IsSound : (g : Gc) → IsSound g → IsSound (notify g)
unfolding notify
notify-IsSound g s = record {
  entries = s.entries;
  holds = s.holds;
  budget_fits = s.budget_fits;
  high_fits = s.high_fits;
  low_fits = s.low_fits;
  percents_fit = s.percents_fit;
}

room_left :
    (size : ℕ) (g : Gc) {h : Gc}
    → Shrunk g h
    → used h.disk + size ≤ g.budget
    → used g.disk + size < half_word
    → g.budget < half_word
    → slt g.budget (add64 (used h.disk) size) ≡ false
room_left size g {h} pass fits range cap =
    let sum : add64 (used h.disk) size ≡ used h.disk + size =
      unfold add64 in omega (arith, pass.fewer) in
    rw (sum, slt_small g.budget (used h.disk + size) cap (omega (arith, pass.fewer))) (ground arith)

module _ (path_for : Text → Text) (stuck : Text → Bool) where
  -- With a sound collector, a positive budget and no overflow of an int64, an object of positive size is refused exactly if it is larger than the budget; then nothing is evicted. An object that is admitted fits: after the pass that makes room for it, where one is needed, the bytes in use and its size are within the budget, and the collector is sound.
  pub admit_lem :
      (size : ℕ) (g : Gc)
      → IsSound g
      → 0 < g.budget
      → 0 < size
      → used g.disk + size < half_word
      → (g.budget < size → admit path_for stuck size g ≡ (g, some no_room))
        × (size ≤ g.budget
            → ((admit path_for stuck size g).1 ≡ none)
              × (used (admit path_for stuck size g).0.disk + size ≤ g.budget)
              × IsSound (admit path_for stuck size g).0)
  unfolding admit
  admit_lem size g s pos big range =
      let positive : sle size 0 ≡ false =
        sle_small size 0 (omega arith) (omega arith) ∙ ground arith in
      let cap = s.budget_fits in
      let sum : add64 (used g.disk) size ≡ used g.disk + size = unfold add64 in omega arith in
      rw (positive, slt_small g.budget size cap (omega arith))
        (
          λ large. rw (lt→ltb _ _ large) refl,
          λ fits.
              let not_large : ltb g.budget size ≡ false = ground arith in
              let test : sle (add64 (used g.disk) size) g.budget
                  ≡ leb (used g.disk + size) g.budget =
                ap (λ t. sle t g.budget) sum ∙ sle_small (used g.disk + size) g.budget range cap in
              elim (Bool-cases (leb (used g.disk + size) g.budget)) [
                | inl enough ↦
                    rw (not_large, test ∙ enough)
                      (refl, unfold notify in leb→le _ _ enough, notify-IsSound g s)
                | inr tight ↦
                    let pass = collect-Shrunk path_for stuck size g s pos fits range in
                    rw (not_large, test ∙ tight, room_left size g pass.0 pass.1 range cap)
                      (refl, pass.1, pass.0.sound)
              ],
        )

-- The low watermark in force is below the high one, except where the configuration gives no positive low watermark and a high one of at most 85.
pub watermarks_order :
    (c : Config)
    → c.high < word
    → c.low < word
    → ltb (low_of c) (high_of c) ≡ not (sle c.low 0 && (ltb 0 c.high && leb c.high 85))
unfolding low_of high_of sle slt
watermarks_order c h l = ground arith
