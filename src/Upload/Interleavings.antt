-- ===== src/Upload/Interleavings.antt =====
-- What holds of the queue however offers, workers and `Stop` interleave.
use ci_cache.Base.{
  Bool, Bool-cases, List, [], add64, ap, arith, half_word, inl, inr, length, length-append, ltb,
  ltb→lt, none, refl, sub64, true, word, ℕ, ◌%◌, ◌++◌, ◌+◌, ◌-◌, ◌<◌, ◌↔◌, ◌∷◌, ◌≡◌, ◌≢◌,
}
use ci_cache.Upload.{
  Config, Item, Queue, Reach, Step, close, closes, count, counts, drop_one, halt, halts, landed,
  lands, launch, launches, leave, leaves, next, offers, receive, receives, send, sends, settled,
  settles, size_of, start, stop_report,
}
use ci_cache.Upload.Steps.{
  IsConsistent, bytes_of, bytes_of-append, bytes_of-middle, init-IsConsistent, length-middle,
  offer-IsConsistent, waiting,
}

module _ (c : Config) (limited : 0 < c.queue_bytes) (bounds : c.queue_bytes < half_word) where
  no_middle : (it : Item) (xs ys all : List Item) → all ≡ xs ++ it ∷ ys → all ≢ []
  no_middle it xs ys all h e = omega (arith, length-middle it xs ys all h, ap length e)

  sent-IsConsistent :
      (it : Item) (xs ys : List Item) (q : Queue)
      → q.claimed ≡ xs ++ it ∷ ys
      → length q.items < c.capacity
      → IsConsistent c q
      → IsConsistent c
          (record q { items = q.items ++ it ∷ []; claimed = xs ++ ys; uncounted = q.uncounted + 1 })
  sent-IsConsistent it xs ys q h slot i =
      let gone = bytes_of-middle it xs ys q.claimed h in
      let more = bytes_of-append q.items (it ∷ []) in
      let longer = length-append q.items (it ∷ []) in
      record {
        bytes = omega (arith, i.bytes, gone, more);
        bounded = omega (arith, i.bounded, gone, more);
        slots = omega (arith, longer);
        objects = omega (arith, i.objects, longer);
        depth_fits = i.depth_fits;
        shut = λ s. absurd (no_middle it xs ys q.claimed h (i.shut s).0);
      }

  unsent-IsConsistent :
      (it : Item) (xs ys : List Item) (q : Queue)
      → q.claimed ≡ xs ++ it ∷ ys
      → IsConsistent c q
      → IsConsistent c
          (drop_one (record q { queued = sub64 q.queued (size_of it); claimed = xs ++ ys }))
  unsent-IsConsistent it xs ys q h i =
      let gone = bytes_of-middle it xs ys q.claimed h in
      let back : sub64 q.queued (size_of it) ≡ q.queued - size_of it =
        unfold sub64 in omega (arith, i.bytes, i.bounded, gone) in
      record {
        bytes = omega (arith, i.bytes, gone, back);
        bounded = omega (arith, i.bounded, gone);
        slots = i.slots;
        objects = i.objects;
        depth_fits = i.depth_fits;
        shut = λ s. absurd (no_middle it xs ys q.claimed h (i.shut s).0);
      }

  send-IsConsistent :
      (it : Item) (xs ys : List Item) (q : Queue)
      → q.claimed ≡ xs ++ it ∷ ys
      → IsConsistent c q
      → IsConsistent c (send c it (xs ++ ys) q).0
  unfolding send
  send-IsConsistent it xs ys q h i = elim (Bool-cases (ltb (length q.items) c.capacity)) [
    | inl slot ↦ rw (send, slot) (sent-IsConsistent it xs ys q h (ltb→lt _ _ slot) i)
    | inr full ↦ rw (send, full) (unsent-IsConsistent it xs ys q h i)
  ]

  count-IsConsistent : (q : Queue) → 0 < q.uncounted → IsConsistent c q → IsConsistent c (count q)
  unfolding count
  count-IsConsistent q some_left i =
      let up : add64 q.depth 1 ≡ (q.depth + 1) % word = unfold add64 in refl in
      record {
        bytes = i.bytes;
        bounded = i.bounded;
        slots = i.slots;
        objects = omega (arith, up, i.objects);
        depth_fits = omega (arith, up);
        shut = λ s. absurd (omega (arith, (i.shut s).1));
      }

  receive-IsConsistent :
      (it : Item) (rest : List Item) (q : Queue)
      → q.items ≡ it ∷ rest
      → IsConsistent c q
      → IsConsistent c (receive it rest q)
  unfolding receive
  receive-IsConsistent it rest q h i =
      let b = ap bytes_of h in
      let l = ap length h in
      record {
        bytes = omega (arith, i.bytes, b);
        bounded = omega (arith, i.bounded, b);
        slots = omega (arith, i.slots, l);
        objects = omega (arith, i.objects, l);
        depth_fits = i.depth_fits;
        shut = i.shut;
      }

  landed-IsConsistent :
      (it : Item) (xs ys : List Item) (q : Queue)
      → q.flying ≡ xs ++ it ∷ ys
      → IsConsistent c q
      → IsConsistent c (landed it (xs ++ ys) q)
  unfolding landed
  landed-IsConsistent it xs ys q h i =
      let gone = bytes_of-middle it xs ys q.flying h in
      let fewer = length-middle it xs ys q.flying h in
      let down : sub64 q.depth 1 ≡ (q.depth + word - 1) % word = unfold sub64 in refl in
      record {
        bytes = omega (arith, i.bytes, gone);
        bounded = omega (arith, i.bounded, gone);
        slots = i.slots;
        objects = omega (arith, i.objects, fewer, down);
        depth_fits = omega (arith, down);
        shut = i.shut;
      }

  settled-IsConsistent :
      (it : Item) (xs ys : List Item) (q : Queue)
      → q.flushed ≡ xs ++ it ∷ ys
      → IsConsistent c q
      → IsConsistent c (settled it (xs ++ ys) q)
  unfolding settled
  settled-IsConsistent it xs ys q h i =
      let gone = bytes_of-middle it xs ys q.flushed h in
      let back : sub64 q.queued (size_of it) ≡ q.queued - size_of it =
        unfold sub64 in omega (arith, i.bytes, i.bounded, gone) in
      record {
        bytes = omega (arith, i.bytes, gone, back);
        bounded = omega (arith, i.bounded, gone);
        slots = i.slots;
        objects = i.objects;
        depth_fits = i.depth_fits;
        shut = i.shut;
      }

  other_fields :
      (q : Queue) (l : Bool) (n : ℕ) (h : Bool)
      → IsConsistent c q
      → IsConsistent c (record q { launched = l; idle = n; halted = h })
  other_fields q l n h i = record {
    bytes = i.bytes;
    bounded = i.bounded;
    slots = i.slots;
    objects = i.objects;
    depth_fits = i.depth_fits;
    shut = i.shut;
  }

  Step-IsConsistent : {q r : Queue} → Step c q r → IsConsistent c q → IsConsistent c r
  unfolding close launch halt leave
  Step-IsConsistent (offers it q small) i = offer-IsConsistent c limited bounds it q small i
  Step-IsConsistent (sends it xs ys q h) i = send-IsConsistent it xs ys q h i
  Step-IsConsistent (counts q h) i = count-IsConsistent q h i
  Step-IsConsistent (receives it rest q h free) i = receive-IsConsistent it rest q h i
  Step-IsConsistent (lands it xs ys q h) i = landed-IsConsistent it xs ys q h i
  Step-IsConsistent (settles it xs ys q h) i = settled-IsConsistent it xs ys q h i
  Step-IsConsistent (launches q h) i =
      other_fields q (launch c q).launched (launch c q).idle q.halted i
  Step-IsConsistent (halts q h) i = other_fields q q.launched q.idle true i
  Step-IsConsistent (leaves q h free) i = other_fields q q.launched (leave q).idle q.halted i
  Step-IsConsistent (closes q none_claimed all_counted) i = record {
    bytes = i.bytes;
    bounded = i.bounded;
    slots = i.slots;
    objects = i.objects;
    depth_fits = i.depth_fits;
    shut = λ s. (none_claimed, all_counted);
  }

  -- However offers, uploads and `Stop` interleave: the bytes that the queue counts are those that it holds, and never more than the bound; the channel never holds more than its length; the depth is the number of accepted objects whose upload has not ended, less the offers that have sent and not counted yet, modulo 2^64; and none of these is left once the queue is closed. The bound is positive, and its sum with the size of any body is an int64.
  pub Reach-IsConsistent : {q : Queue} → Reach c q → IsConsistent c q
  Reach-IsConsistent start = init-IsConsistent c
  Reach-IsConsistent (next q r h s) = Step-IsConsistent s (Reach-IsConsistent h)

  -- Once the queue is closed, `Stop` reports no error exactly if every object that the queue accepted has been uploaded or has failed to, if these are fewer than 2^64. The bound on the bytes is positive, so that the queue is not unlimited, and its sum with the size of any body is an int64.
  pub stop_reports :
      {q : Queue}
      → Reach c q
      → q.closed ≡ true
      → waiting q < word
      → (stop_report q ≡ none) ↔ (waiting q ≡ 0)
  unfolding stop_report
  stop_reports {q} h s few =
      let i = Reach-IsConsistent h in
      let exact : q.depth ≡ waiting q = omega (arith, i.objects, i.depth_fits, (i.shut s).1) in
      (λ r. ground (arith, exact, r), λ e. ground (arith, exact, e))
