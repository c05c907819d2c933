-- ===== src/Gc/Collect.antt =====
-- One pass of the collector.
use ci_cache.Base.{
  All, Bool, Bool-cases, List, Text, [], add64, ap, arith, false, half_word, if◌then◌else◌, inl,
  inr, leb, leb→le, ltb, ltb→lt, map, refl, sle, sle_small, slt, slt_small, sub64, subst, sym, word,
  ℕ, ◌+◌, ◌-◌, ◌<◌, ◌||◌, ◌∙◌, ◌∷◌, ◌≡◌, ◌≤◌, ◌⊎◌,
}
use ci_cache.Disk.Index.{Entry}
use ci_cache.Disk.Index.Lru.{Holds}
use ci_cache.Disk.Volume.{disk_used_by, used}
use ci_cache.Disk.Volume.Evict.{Holds-fits, Holds-used, evict_lem}
use ci_cache.Gc.{
  Gc, collect, enforce_one, enforce_sub_budgets, evict_more, high_of, low_of, pct, shrink,
}
use ci_cache.Disk.Index.Counts.{total_in-le}
use ci_cache.Gc.Percent.{high_bounds, low_bounds, pct_bounds}

-- The index of the collector's disk is sound, and the numbers are in range.
pub record IsSound (g : Gc) : Type 0 where
  pub entries : List Entry
  pub holds : Holds g.disk.idx entries
  pub budget_fits : g.budget < half_word
  pub high_fits : g.cfg.high < word
  pub low_fits : g.cfg.low < word
  pub percents_fit : All (λ b. b.1 < word) g.cfg.budgets

-- What a pass may do: it only ever takes bytes away.
pub record Shrunk (g h : Gc) : Type 0 where
  pub sound : IsSound h
  pub fewer : used h.disk ≤ used g.disk
  pub same_budget : h.budget ≡ g.budget
  pub same_cfg : h.cfg ≡ g.cfg

pub Shrunk-refl : (g : Gc) → IsSound g → Shrunk g g
Shrunk-refl g s = record { sound = s; fewer = omega arith; same_budget = refl; same_cfg = refl }

pub Shrunk-trans : (f g h : Gc) → Shrunk f g → Shrunk g h → Shrunk f h
Shrunk-trans f g h a b = record {
  sound = b.sound;
  fewer = omega (arith, a.fewer, b.fewer);
  same_budget = b.same_budget ∙ a.same_budget;
  same_cfg = b.same_cfg ∙ a.same_cfg;
}

pub used-lt-half_word : (g : Gc) → IsSound g → used g.disk < half_word
used-lt-half_word g s =
    omega (arith, Holds-used g.disk s.entries s.holds, Holds-fits g.disk.idx s.entries s.holds)

sub64_small : (a b : ℕ) → b ≤ a → a < half_word → sub64 a b ≡ a - b
unfolding sub64
sub64_small a b h k = omega arith

disk_used_by-le : (f : Text) (g : Gc) → IsSound g → (disk_used_by f g.disk).bytes < half_word
unfolding disk_used_by
disk_used_by-le f g s =
    let (xs, r, view) = s.holds in
    let share = ap (λ u. u.bytes) (r.counts.shares f) in
    omega (arith, share, total_in-le f (map g.disk.idx.nodes xs), r.counts.fits)

target_lem :
    (l headroom : ℕ)
    → l < half_word
    → headroom < half_word
    → (if slt (sub64 l headroom) 0 then 0 else sub64 l headroom) ≡ l - headroom
unfolding slt sub64
target_lem l headroom hl hh = ground arith

percent_range :
    (percent : ℕ) → percent < word → (sle percent 0 || slt 100 percent) ≡ false → percent ≤ 100
unfolding sle slt
percent_range percent h k = ground arith

module _ (path_for : Text → Text) (stuck : Text → Bool) where
  evict_more-Shrunk :
      (n : ℕ) (f : Text) (g : Gc)
      → n < half_word
      → IsSound g
      → Shrunk g (evict_more path_for stuck n f g)
        × ((f ≡ [])
            → (used (evict_more path_for stuck n f g).disk + n ≤ used g.disk)
              ⊎ (used (evict_more path_for stuck n f g).disk ≡ 0))
  unfolding evict_more
  evict_more-Shrunk n f g hn s =
      let e = evict_lem path_for stuck n f g.disk s.entries hn s.holds in
      (
        record {
          sound = record {
            entries = e.0;
            holds = e.1;
            budget_fits = s.budget_fits;
            high_fits = s.high_fits;
            low_fits = s.low_fits;
            percents_fit = s.percents_fit;
          };
          fewer = omega (arith, e.2);
          same_budget = refl;
          same_cfg = refl;
        },
        λ whole. enough (e.3 whole) e.2,
      )
    where
      enough :
          {now freed before : ℕ}
          → (n ≤ freed) ⊎ (now ≡ 0)
          → now + freed ≡ before
          → (now + n ≤ before) ⊎ (now ≡ 0)
      enough (inl h) sum = inl (omega arith)
      enough (inr h) sum = inr h

  enforce_one-Shrunk :
      (f : Text) (percent : ℕ) (g : Gc)
      → percent < word
      → IsSound g
      → Shrunk g (enforce_one path_for stuck g.budget f percent g)
  unfolding enforce_one
  enforce_one-Shrunk f percent g hp s = elim (Bool-cases (sle percent 0 || slt 100 percent)) [
    | inl skip ↦ rw skip (Shrunk-refl g s)
    | inr counts ↦
        let limit = pct g.budget percent in
        let bytes = (disk_used_by f g.disk).bytes in
        let small =
          (pct_bounds g.budget percent s.budget_fits (percent_range percent hp counts)).0 in
        elim (Bool-cases (slt limit bytes)) [
          | inr inside ↦ rw (counts, inside) (Shrunk-refl g s)
          | inl over ↦
              let top = disk_used_by-le f g s in
              let fits = s.budget_fits in
              let above : limit < bytes =
                ltb→lt limit bytes (sym (slt_small limit bytes (omega arith) top) ∙ over) in
              rw (counts, over)
                (evict_more-Shrunk (sub64 bytes limit) f g
                  (rw (sub64_small bytes limit (omega arith) top) (omega arith)) s).0
        ]
  ]

  pub enforce_sub_budgets-Shrunk :
      (budget : ℕ) (budgets : List (Text × ℕ)) (g : Gc)
      → budget ≡ g.budget
      → All (λ b. b.1 < word) budgets
      → IsSound g
      → Shrunk g (enforce_sub_budgets path_for stuck budget budgets g)
  unfolding enforce_sub_budgets
  enforce_sub_budgets-Shrunk budget [] g e h s = Shrunk-refl g s
  enforce_sub_budgets-Shrunk budget ((f, percent) ∷ rest) g e h s =
      let one =
        subst (λ b. Shrunk g (enforce_one path_for stuck b f percent g)) (sym e)
          (enforce_one-Shrunk f percent g h.0 s) in
      let g' = enforce_one path_for stuck budget f percent g in
      Shrunk-trans g g' _ one
        (enforce_sub_budgets-Shrunk budget rest g' (e ∙ sym one.same_budget) h.1 one.sound)

  evict_rest :
      (headroom target : ℕ) (g : Gc)
      → IsSound g
      → headroom ≤ g.budget
      → (target + headroom ≤ g.budget) ⊎ (target ≡ 0)
      → target < used g.disk
      → let h = evict_more path_for stuck (sub64 (used g.disk) target) [] g in
        Shrunk g h × (used h.disk + headroom ≤ g.budget)
  evict_rest headroom target g s fits room over =
      let in_use = used-lt-half_word g s in
      let n : sub64 (used g.disk) target ≡ used g.disk - target =
        sub64_small (used g.disk) target (omega arith) in_use in
      let e = evict_more-Shrunk (used g.disk - target) [] g (omega (arith, in_use)) s in
      rw n (e.0, left room (e.1 refl))
    where
      left :
          {now : ℕ}
          → (target + headroom ≤ g.budget) ⊎ (target ≡ 0)
          → (now + (used g.disk - target) ≤ used g.disk) ⊎ (now ≡ 0)
          → now + headroom ≤ g.budget
      left a b = omega arith

  -- After the second half there is room for `headroom` bytes more, if the budget has it.
  pub shrink-Shrunk :
      (headroom : ℕ) (g : Gc)
      → IsSound g
      → headroom ≤ g.budget
      → used g.disk + headroom < half_word
      → Shrunk g (shrink path_for stuck headroom g.budget g)
        × (used (shrink path_for stuck headroom g.budget g).disk + headroom ≤ g.budget)
  unfolding shrink
  shrink-Shrunk headroom g s fits range =
      let cap = s.budget_fits in
      let low = low_bounds g.cfg s.low_fits in
      let high = high_bounds g.cfg s.high_fits in
      let l = pct g.budget (low_of g.cfg) in
      let h = pct g.budget (high_of g.cfg) in
      let l_small = (pct_bounds g.budget (low_of g.cfg) cap (omega (arith, low))).0 in
      let h_small = (pct_bounds g.budget (high_of g.cfg) cap high.1).0 in
      let sum : add64 (used g.disk) headroom ≡ used g.disk + headroom =
        unfold add64 in omega arith in
      let room : (l - headroom + headroom ≤ g.budget) ⊎ (l - headroom ≡ 0) =
        ground (arith, l_small) in
      rw
        (
          sum,
          target_lem l headroom (omega (arith, l_small)) (omega arith),
          sle_small (used g.disk + headroom) h range (omega (arith, h_small)),
          slt_small (l - headroom) (used g.disk) (omega (arith, l_small)) (omega arith),
        )
        (elim (Bool-cases (leb (used g.disk + headroom) h)) [
          | inl under ↦ rw under (Shrunk-refl g s, omega (arith, leb→le _ _ under, h_small))
          | inr above ↦ elim (Bool-cases (ltb (l - headroom) (used g.disk))) [
            | inl over ↦
                rw (above, over)
                  (evict_rest headroom (l - headroom) g s fits room (ltb→lt _ _ over))
            | inr inside ↦
                rw (above, inside) (Shrunk-refl g s, inside_room (l - headroom) (ground arith) room)
          ]
        ])
    where
      inside_room :
          (target : ℕ)
          → used g.disk ≤ target
          → (target + headroom ≤ g.budget) ⊎ (target ≡ 0)
          → used g.disk + headroom ≤ g.budget
      inside_room target a b = omega arith

  pub collect-Shrunk :
      (headroom : ℕ) (g : Gc)
      → IsSound g
      → 0 < g.budget
      → headroom ≤ g.budget
      → used g.disk + headroom < half_word
      → Shrunk g (collect path_for stuck headroom g)
        × (used (collect path_for stuck headroom g).disk + headroom ≤ g.budget)
  unfolding collect
  collect-Shrunk headroom g s pos fits range =
      let g' : Gc = record g { runs = add64 g.runs 1 } in
      let counted : Shrunk g g' = record {
        sound = record {
          entries = s.entries;
          holds = s.holds;
          budget_fits = s.budget_fits;
          high_fits = s.high_fits;
          low_fits = s.low_fits;
          percents_fit = s.percents_fit;
        };
        fewer = omega arith;
        same_budget = refl;
        same_cfg = refl;
      } in
      let sub =
        enforce_sub_budgets-Shrunk g.budget g.cfg.budgets g' refl s.percents_fit counted.sound in
      let m = enforce_sub_budgets path_for stuck g.budget g.cfg.budgets g' in
      let last =
        shrink-Shrunk headroom m sub.sound (omega (arith, sub.same_budget))
          (omega (arith, sub.fewer)) in
      let last' =
        subst
          (λ b.
            Shrunk m (shrink path_for stuck headroom b m)
            × (used (shrink path_for stuck headroom b m).disk + headroom ≤ b))
          sub.same_budget last in
      let open_budget : sle g.budget 0 ≡ false =
        sle_small g.budget 0 s.budget_fits (omega arith) ∙ ground arith in
      rw open_budget (Shrunk-trans g m _ (Shrunk-trans g g' m counted sub) last'.0, last'.1)
