-- ===== src/Upload/Staff.antt =====
-- As long as they are not halted, there are workers until the queue is closed and empty.
use ci_cache.Base.{
  Bool-cases, List, [], add64, ap, arith, false, half_word, inl, inr, length, ltb, refl, sle, slt,
  subst, sym, true, ℕ, ◌++◌, ◌+◌, ◌<◌, ◌∷◌, ◌≡◌, ◌⊎◌,
}
use ci_cache.Upload.{
  Config, Item, Queue, Reach, Step, claim, close, closes, count, counts, drop_one, halt, halts,
  init, landed, lands, launch, launches, leave, leaves, next, offer, offers, receive, receives,
  send, sends, settled, settles, size_of, start,
}
use ci_cache.Upload.Steps.{IsConsistent, length-middle}
use ci_cache.Upload.Interleavings.{Reach-IsConsistent}

abbrev workers : Queue → ℕ
workers q = q.idle + length q.flying + length q.flushed

abbrev pub IsStaffed : Queue → Type 0
IsStaffed q =
    q.launched ≡ true → q.halted ≡ false → (0 < workers q) ⊎ ((q.closed ≡ true) × (q.items ≡ []))

offer-IsStaffed : (c : Config) (it : Item) (q : Queue) → IsStaffed q → IsStaffed (offer c it q).0
unfolding offer claim
offer-IsStaffed c it q s = elim (Bool-cases (slt (size_of it) c.min_size)) [
  | inl small ↦ rw small s
  | inr large ↦ elim (Bool-cases q.closed) [
    | inl shut ↦
        let same : (offer c it q).0 ≡ drop_one q = rw (large, shut) refl in
        subst IsStaffed (sym same) s
    | inr open_still ↦ elim (Bool-cases (sle c.queue_bytes 0)) [
      | inl free ↦
          let same : (offer c it q).0
              ≡ record q { queued = add64 q.queued (size_of it); claimed = it ∷ q.claimed } =
            rw (large, open_still, free) refl in
          subst IsStaffed (sym same) s
      | inr bound ↦ elim (Bool-cases (slt c.queue_bytes (add64 q.queued (size_of it)))) [
        | inl over ↦
            let same : (offer c it q).0 ≡ drop_one q = rw (large, open_still, bound, over) refl in
            subst IsStaffed (sym same) s
        | inr fits ↦
            let same : (offer c it q).0
                ≡ record q { queued = add64 q.queued (size_of it); claimed = it ∷ q.claimed } =
              rw (large, open_still, bound, fits) refl in
            subst IsStaffed (sym same) s
      ]
    ]
  ]
]

send-IsStaffed :
    (c : Config) (it : Item) (xs ys : List Item) (q : Queue)
    → q.claimed ≡ xs ++ it ∷ ys
    → (q.closed ≡ true → q.claimed ≡ [])
    → IsStaffed q
    → IsStaffed (send c it (xs ++ ys) q).0
unfolding send
send-IsStaffed c it xs ys q h shut s = λ started unhalted.
    let still : (q.launched ≡ true) × (q.halted ≡ false) =
      elim (Bool-cases (ltb (length q.items) c.capacity)) [
        | inl slot ↦ (rw slot at started, rw slot at unhalted)
        | inr full ↦ (rw full at started, rw full at unhalted)
      ] in
    elim (s still.0 still.1) [
      | inr (closed, empty) ↦
          absurd (omega (arith, length-middle it xs ys q.claimed h, ap length (shut closed)))
      | inl some_worker ↦ elim (Bool-cases (ltb (length q.items) c.capacity)) [
        | inl slot ↦ inl (rw slot some_worker)
        | inr full ↦ inl (rw full some_worker)
      ]
    ]

module _ (c : Config) (limited : 0 < c.queue_bytes) (bounds : c.queue_bytes < half_word)
    (staff : 0 < c.concurrency) where
  Step-IsStaffed : {q r : Queue} → Step c q r → IsConsistent c q → IsStaffed q → IsStaffed r
  unfolding count receive landed settled launch halt leave close
  Step-IsStaffed (offers it q small) i s = offer-IsStaffed c it q s
  Step-IsStaffed (sends it xs ys q h) i s = send-IsStaffed c it xs ys q h (λ e. (i.shut e).0) s
  Step-IsStaffed (counts q h) i s = s
  Step-IsStaffed (receives it rest q h free) i s = λ started unhalted. inl (omega arith)
  Step-IsStaffed (lands it xs ys q h) i s = λ started unhalted. inl (omega arith)
  Step-IsStaffed (settles it xs ys q h) i s = λ started unhalted. inl (omega arith)
  Step-IsStaffed (launches q h) i s = λ started unhalted. inl (omega (arith, staff))
  Step-IsStaffed (halts q h) i s = λ started unhalted. absurd (cc)
  Step-IsStaffed (leaves q (inl halted) free) i s = λ started unhalted. absurd (cc)
  Step-IsStaffed (leaves q (inr done) free) i s = λ started unhalted. inr done
  Step-IsStaffed (closes q none_claimed all_counted) i s = λ started unhalted.
      elim (s started unhalted) [
        | inl some_worker ↦ inl some_worker
        | inr (e, empty) ↦ inr (refl, empty)
      ]

  pub Reach-IsStaffed : {q : Queue} → Reach c q → IsStaffed q
  unfolding init
  Reach-IsStaffed start = λ started unhalted. absurd (cc)
  Reach-IsStaffed (next q r h step) =
      Step-IsStaffed step (Reach-IsConsistent c limited bounds h) (Reach-IsStaffed h)
