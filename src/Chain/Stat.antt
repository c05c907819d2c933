-- ===== src/Chain/Stat.antt =====
-- What `Stat` and `Delete` of a chain report when tiers fail.
use ci_cache.Base.{List, Text, [], ap, codes, inl, inr, refl, ◌++◌, ◌∷◌, ◌≡◌, ◌⊎◌}
use ci_cache.Tier.{Error, Meta, Stated, Tier, has, lacks, not_found, sentinel}
use ci_cache.Chain.{Chain, System, World, report, stat, stat_loop}

Stated-cases : (g : Stated) → ((m : Meta) × (g ≡ has m)) ⊎ ((e : Error) × (g ≡ lacks e))
Stated-cases (has m) = inl (m, refl)
Stated-cases (lacks e) = inr (e, refl)

module _ {W : Type 0} (sys : System) (c : Chain W) (key : Text) where
  -- The tiers `ts` were asked in turn from the one state to the other, and none has the key.
  pub data Passed : List (Tier W) → World W → World W → Type 0 where
    done : (w : World W) → Passed [] w w
    asked :
        (t : Tier W) (ts : List (Tier W)) (w v : World W) (e : Error)
        → (t.stat key w.store).1 ≡ lacks e
        → Passed ts
            (report sys c t (codes "stat") e (record w { store = (t.stat key w.store).0 }))
            v
        → Passed (t ∷ ts) w v

  -- The first of `ts` that has the key, and what it says.
  pub record FirstHas (ts : List (Tier W)) (w : World W) (m : Meta) : Type 0 where
    pub before : List (Tier W)
    pub tier : Tier W
    pub behind : List (Tier W)
    pub reached : World W
    pub split : ts ≡ before ++ tier ∷ behind
    pub passed : Passed before w reached
    pub answers : (tier.stat key reached.store).1 ≡ has m

  -- The chain's answer: that of the first tier that has the key, or a plain miss that every tier was asked for.
  pub IsAnswer : List (Tier W) → World W → World W × Stated → Type 0
  IsAnswer ts w (v, has m) = FirstHas ts w m
  IsAnswer ts w (v, lacks e) = (e ≡ sentinel not_found) × Passed ts w v

  ask :
      (t : Tier W) (ts : List (Tier W)) (w : World W) (e : Error) (x : World W × Stated)
      → (t.stat key w.store).1 ≡ lacks e
      → IsAnswer ts
          (report sys c t (codes "stat") e (record w { store = (t.stat key w.store).0 }))
          x
      → IsAnswer (t ∷ ts) w x
  unfolding IsAnswer
  ask t ts w e (v, has m) h a = record {
    before = t ∷ a.before;
    tier = a.tier;
    behind = a.behind;
    reached = a.reached;
    split = ap (λ l. t ∷ l) a.split;
    passed = asked t a.before w a.reached e h a.passed;
    answers = a.answers;
  }
  ask t ts w e (v, lacks d) h a = (a.0, asked t ts w v e h a.1)

  stat_loop-IsAnswer : (ts : List (Tier W)) (w : World W) → IsAnswer ts w (stat_loop sys c key ts w)
  unfolding stat_loop IsAnswer
  stat_loop-IsAnswer [] w = (refl, done w)
  stat_loop-IsAnswer (t ∷ ts) w = elim (Stated-cases (t.stat key w.store).1) [
    | inl (m, h) ↦
        rw (stat_loop, h)
          (record {
            before = [];
            tier = t;
            behind = ts;
            reached = w;
            split = refl;
            passed = done w;
            answers = h;
          })
    | inr (e, h) ↦ rw (stat_loop, h) (ask t ts w e _ h (stat_loop-IsAnswer ts _))
  ]

  -- `Stat` answers with the metadata of the first tier that has the key, or, once every tier was asked and none has it, with a plain miss: whatever error a tier gives, it is passed over.
  pub stat-IsAnswer : (w : World W) → IsAnswer c.tiers w (stat sys c key w)
  unfolding stat
  stat-IsAnswer w = stat_loop-IsAnswer c.tiers w
