-- ===== src/Upload/Drain.antt =====
-- The end of the queue: what the workers do once it is closed.
use ci_cache.Base.{
  List, [], ap, arith, false, half_word, inl, inr, length, none, refl, suc, true, ℕ, ◌*◌, ◌++◌, ◌+◌,
  ◌<◌, ◌∷◌, ◌≡◌,
}
use ci_cache.Upload.{
  Config, Item, Queue, Reach, Step, count, landed, lands, leave, leaves, next, receive, receives,
  settled, settles, stop_report,
}
use ci_cache.Upload.Steps.{bytes_of, length-middle}
use ci_cache.Upload.Interleavings.{Reach-IsConsistent, stop_reports}
use ci_cache.Upload.Staff.{IsStaffed, Reach-IsStaffed}

-- A step of a worker that is not halted, one of those of `Step`: also its return from a channel
-- that is closed and empty.
pub data Work : Queue → Queue → Type 0 where
  takes :
      (it : Item) (rest : List Item) (q : Queue)
      → q.items ≡ it ∷ rest
      → 0 < q.idle
      → Work q (receive it rest q)
  ends :
      (it : Item) (xs ys : List Item) (q : Queue)
      → q.flying ≡ xs ++ it ∷ ys
      → Work q (landed it (xs ++ ys) q)
  gives_back :
      (it : Item) (xs ys : List Item) (q : Queue)
      → q.flushed ≡ xs ++ it ∷ ys
      → Work q (settled it (xs ++ ys) q)
  returns : (q : Queue) → q.closed ≡ true → q.items ≡ [] → 0 < q.idle → Work q (leave q)

-- So many steps of workers, one after another.
pub data Run : ℕ → Queue → Queue → Type 0 where
  stays : (q : Queue) → Run 0 q q
  works : (n : ℕ) (q r s : Queue) → Work q r → Run n r s → Run (suc n) q s

-- The steps that the workers have left, their returns included.
abbrev pub steps_left : Queue → ℕ
steps_left q = 3 * length q.items + 3 * length q.flying + 2 * length q.flushed + q.idle

Work-Step : {q r : Queue} → (c : Config) → Work q r → Step c q r
Work-Step c (takes it rest q h free) = receives it rest q h free
Work-Step c (ends it xs ys q h) = lands it xs ys q h
Work-Step c (gives_back it xs ys q h) = settles it xs ys q h
Work-Step c (returns q shut done free) = leaves q (inr (shut, done)) free

-- The queue is closed, and its workers were launched and not halted.
pub record IsClosing (q : Queue) : Type 0 where
  pub shut : q.closed ≡ true
  pub started : q.launched ≡ true
  pub unhalted : q.halted ≡ false

Work-steps_left :
    {q r : Queue} → Work q r → IsClosing q → (suc (steps_left r) ≡ steps_left q) × IsClosing r
unfolding receive landed settled leave
Work-steps_left (takes it rest q h free) i = (
  omega (arith, ap length h, free),
  record { shut = i.shut; started = i.started; unhalted = i.unhalted },
)
Work-steps_left (ends it xs ys q h) i = (
  omega (arith, length-middle it xs ys q.flying h),
  record { shut = i.shut; started = i.started; unhalted = i.unhalted },
)
Work-steps_left (gives_back it xs ys q h) i = (
  omega (arith, length-middle it xs ys q.flushed h),
  record { shut = i.shut; started = i.started; unhalted = i.unhalted },
)
Work-steps_left (returns q shut done free) i =
    (omega (arith, free), record { shut = i.shut; started = i.started; unhalted = i.unhalted })

bytes_of-empty : (xs : List Item) → length xs ≡ 0 → bytes_of xs ≡ 0
bytes_of-empty [] h = refl
bytes_of-empty (x ∷ xs) h = absurd (omega (arith, h))

next-Work :
    (xs ys zs : List Item) (q : Queue)
    → q.items ≡ xs
    → q.flying ≡ ys
    → q.flushed ≡ zs
    → IsClosing q
    → IsStaffed q
    → 0 < steps_left q
    → (r : Queue) × Work q r
next-Work xs (it ∷ ys) zs q h i j c s left = (_, ends it [] ys q i)
next-Work xs [] (it ∷ zs) q h i j c s left = (_, gives_back it [] zs q j)
next-Work [] [] [] q h i j c s left =
    (_, returns q c.shut h (omega (arith, left, ap length h, ap length i, ap length j)))
next-Work (it ∷ xs) [] [] q h i j c s left = elim (s c.started c.unhalted) [
  | inl some_worker ↦ (_, takes it xs q h (omega (arith, some_worker, ap length i, ap length j)))
  | inr (closed, empty) ↦ absurd (omega (arith, ap length empty, ap length h))
]

module _ (c : Config) (limited : 0 < c.queue_bytes) (bounds : c.queue_bytes < half_word)
    (staff : 0 < c.concurrency) where
  empty_reports :
      {q : Queue}
      → Reach c q
      → q.closed ≡ true
      → steps_left q ≡ 0
      → (q.queued ≡ 0) × (stop_report q ≡ none)
  empty_reports {q} h s e =
      let i = Reach-IsConsistent c limited bounds h in
      let none_claimed = ap bytes_of (i.shut s).0 in
      let no_items = bytes_of-empty q.items (omega arith) in
      let no_flying = bytes_of-empty q.flying (omega arith) in
      let no_flushed = bytes_of-empty q.flushed (omega arith) in
      (
        omega (arith, i.bytes, none_claimed, no_items, no_flying, no_flushed),
        (stop_reports c limited bounds h s (omega arith)).1 (omega arith),
      )

  -- Once the queue is closed, its workers drain it and return, unless the end of the context of `Start` halts them: they take as many steps as they have left and no more, whatever order they take; while any is left one of them can take it; and when none is left the queue counts no bytes and `Stop` reports no error. The workers were launched, one at least, and are not halted; the bound on the bytes is positive, and its sum with the size of any body is an int64.
  pub drains :
      {n : ℕ} {q r : Queue}
      → Reach c q
      → IsClosing q
      → Run n q r
      → (n + steps_left r ≡ steps_left q)
        × (0 < steps_left r → (s : Queue) × Work r s)
        × (steps_left r ≡ 0 → (r.queued ≡ 0) × (stop_report r ≡ none))
  drains h s (stays q) = (
    omega arith,
    next-Work q.items q.flying q.flushed q refl refl refl s
        (Reach-IsStaffed c limited bounds staff h),
    empty_reports h s.shut,
  )
  drains h s (works n q r t w run) =
      let (fewer, closing) = Work-steps_left w s in
      let (count, more, report) = drains (next q r h (Work-Step c w)) closing run in
      (omega (arith, count, fewer), more, report)
