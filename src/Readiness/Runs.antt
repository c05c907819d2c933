-- ===== src/Readiness/Runs.antt =====
-- How often the checks of readiness run, and how old their answer is.
use ci_cache.Base.{
  Bool, Bool-cases, Option, Option-cases, ap, arith, false, if◌then◌else◌, inl, inr, is_some, none,
  refl, some, subst, sym, true, ℕ, ◌*◌, ◌+◌, ◌<◌, ◌∙◌, ◌≡◌, ◌≤◌,
}
use ci_cache.Readiness.{
  Reach, Readiness, Step, enter, enters, finish, finishes, init, is_fresh, next, passes, read,
  reads, start,
}
use ci_cache.Tier.{Error}

abbrev pub last_run : Option ℕ → ℕ
last_run none = 0
last_run (some at) = at

-- When the run that is in flight began at the latest, or the last one ended.
abbrev pub mark : Readiness → ℕ
mark s = if s.inflight then s.now else last_run s.checked_at

abbrev pub bit : Bool → ℕ
bit b = if b then 1 else 0

pub record IsSpaced (ttl : ℕ) (s : Readiness) : Type 0 where
  pub alone : s.running ≡ bit s.inflight
  pub waited : s.inflight ≡ false → s.waiting ≡ 0
  pub past : last_run s.checked_at ≤ s.now
  pub spaced : ttl * s.runs ≤ ttl + mark s
  pub first : s.checked_at ≡ none → s.inflight ≡ false → s.runs ≡ 0
  pub run_before : 0 < s.woken → is_some s.checked_at ≡ true

start-IsSpaced : (ttl : ℕ) → IsSpaced ttl init
unfolding init
start-IsSpaced ttl = record {
  alone = refl;
  waited = λ h. refl;
  past = omega arith;
  spaced = omega arith;
  first = λ h g. refl;
  run_before = λ h. absurd (omega arith);
}

times-suc : (a n : ℕ) → a * (n + 1) ≡ a * n + a
times-suc a n = omega arith

begin-IsSpaced :
    (ttl : ℕ) (s : Readiness)
    → is_fresh ttl s.now s.checked_at ≡ false
    → s.inflight ≡ false
    → IsSpaced ttl s
    → IsSpaced ttl (record s { inflight = true; running = s.running + 1; runs = s.runs + 1 })
begin-IsSpaced ttl s old idle i =
    let idle_bit = ap bit idle in
    let at_mark = ap (λ b. if b then s.now else last_run s.checked_at) idle in
    record {
      alone = omega (arith, i.alone, idle_bit);
      waited = λ h. absurd (cc);
      past = i.past;
      spaced = elim (Option-cases s.checked_at) [
        | inl none_yet ↦
            let none_run = i.first none_yet idle in
            let none_spent : ttl * s.runs ≡ 0 = ap (λ n. ttl * n) none_run ∙ omega arith in
            omega (arith, times-suc ttl s.runs, none_spent)
        | inr (at, e) ↦
            let old' : is_fresh ttl s.now (some at) ≡ false =
              ap (is_fresh ttl s.now) (sym e) ∙ old in
            let at_last = ap last_run e in
            let aged : ttl + at ≤ s.now = ground (arith, i.past, at_last, old') in
            omega (arith, times-suc ttl s.runs, i.spaced, at_mark, at_last, aged)
      ];
      first = λ h g. absurd (cc);
      run_before = i.run_before;
    }

wait-IsSpaced :
    (ttl : ℕ) (s : Readiness)
    → s.inflight ≡ true
    → IsSpaced ttl s
    → IsSpaced ttl (record s { waiting = s.waiting + 1 })
wait-IsSpaced ttl s busy i = record {
  alone = i.alone;
  waited = λ h. absurd (cc);
  past = i.past;
  spaced = i.spaced;
  first = i.first;
  run_before = i.run_before;
}

enter-IsSpaced : (ttl : ℕ) (s : Readiness) → IsSpaced ttl s → IsSpaced ttl (enter ttl s).0
unfolding enter
enter-IsSpaced ttl s i = elim (Bool-cases (is_fresh ttl s.now s.checked_at)) [
  | inl young ↦ rw young i
  | inr old ↦ elim (Bool-cases s.inflight) [
    | inl busy ↦
        let queued : (enter ttl s).0 ≡ record s { waiting = s.waiting + 1 } = rw (old, busy) refl in
        subst (IsSpaced ttl) (sym queued) (wait-IsSpaced ttl s busy i)
    | inr idle ↦ rw (old, idle) (begin-IsSpaced ttl s old idle i)
  ]
]

finish-IsSpaced :
    (ttl : ℕ) (disk bucket : Option Error) (s : Readiness)
    → 0 < s.running
    → IsSpaced ttl s
    → IsSpaced ttl (finish disk bucket s)
unfolding finish
finish-IsSpaced ttl disk bucket s busy i = elim (Bool-cases s.inflight) [
  | inr idle ↦ absurd (omega (arith, i.alone, ap bit idle))
  | inl on ↦
      let at_mark = ap (λ b. if b then s.now else last_run s.checked_at) on in
      record {
        alone = omega (arith, i.alone, ap bit on);
        waited = λ h. refl;
        past = omega arith;
        spaced = omega (arith, i.spaced, at_mark);
        first = λ h g. absurd (cc);
        run_before = λ h. refl;
      }
]

Step-IsSpaced : {ttl : ℕ} {s r : Readiness} → Step ttl s r → IsSpaced ttl s → IsSpaced ttl r
unfolding read
Step-IsSpaced {ttl} (enters s) i = enter-IsSpaced ttl s i
Step-IsSpaced {ttl} (finishes disk bucket s busy) i = finish-IsSpaced ttl disk bucket s busy i
Step-IsSpaced {ttl} (reads s some_left) i = record {
  alone = i.alone;
  waited = i.waited;
  past = i.past;
  spaced = i.spaced;
  first = i.first;
  run_before = λ h. i.run_before some_left;
}
Step-IsSpaced {ttl} (passes d s) i = record {
  alone = i.alone;
  waited = i.waited;
  past = omega (arith, i.past);
  spaced = elim (Bool-cases s.inflight) [
    | inl on ↦ omega (
      arith,
      i.spaced,
      ap (λ b. if b then s.now else last_run s.checked_at) on,
      ap (λ b. if b then s.now + d else last_run s.checked_at) on,
    )
    | inr off ↦ omega (
      arith,
      i.spaced,
      ap (λ b. if b then s.now else last_run s.checked_at) off,
      ap (λ b. if b then s.now + d else last_run s.checked_at) off,
    )
  ];
  first = i.first;
  run_before = i.run_before;
}

pub Reach-IsSpaced : {ttl : ℕ} {s : Readiness} → Reach ttl s → IsSpaced ttl s
Reach-IsSpaced {ttl} start = start-IsSpaced ttl
Reach-IsSpaced (next s r h step) = Step-IsSpaced step (Reach-IsSpaced h)
