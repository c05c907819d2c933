-- ===== src/Upload.antt =====
-- engine/bucket/queue.go: the write-behind queue in front of the bucket. The state has, beside the
-- counters and the channel, where each goroutine stands: offers that have claimed their bytes,
-- offers that have sent and not yet counted, uploads in flight, and uploads whose bytes are not
-- yet given back; and how many workers are idle, whether they were launched, and whether the end of
-- the context of `Start` has halted them. A step of the queue is one atomic operation of one of them.
pub mod Steps
pub mod Interleavings
pub mod Staff
pub mod Drain
mod Tests
use ci_cache.Base.{
  Bool, Bytes, List, Option, Text, [], add64, codes, false, half_word, if◌then◌else◌, length, ltb,
  none, sle, slt, some, sub64, true, ℕ, ◌++◌, ◌+◌, ◌-◌, ◌<◌, ◌==◌, ◌∷◌, ◌≡◌, ◌⊎◌,
}
use ci_cache.Tier.{Error, Meta, Reader, other, wrap}

-- `config.Upload`, as `NewQueue` leaves it.
pub record Config : Type 0 where
  pub min_size : ℕ
  pub capacity : ℕ
  pub queue_bytes : ℕ
  pub concurrency : ℕ

pub record Item : Type 0 where
  pub key : Text
  pub meta : Meta
  pub body : Bytes

pub record Queue : Type 0 where
  pub items : List Item
  pub closed : Bool
  pub queued : ℕ
  pub depth : ℕ
  pub dropped : ℕ
  pub claimed : List Item
  pub uncounted : ℕ
  pub flying : List Item
  pub flushed : List Item
  pub launched : Bool
  pub idle : ℕ
  pub halted : Bool

-- `NewQueue`, and what it makes of the configured queue length.
abbrev pub at_least_one : ℕ → ℕ
at_least_one n = if sle n 0 then 1 else n

unfoldable pub init : Queue
init = record {
  items = [];
  closed = false;
  queued = 0;
  depth = 0;
  dropped = 0;
  claimed = [];
  uncounted = 0;
  flying = [];
  flushed = [];
  launched = false;
  idle = 0;
  halted = false;
}

abbrev pub size_of : Item → ℕ
size_of it = length it.body

-- `claim`, by the attempt that succeeds or refuses.
unfoldable pub claim : Config → ℕ → Queue → Queue × Bool
claim c size q =
    let more : Queue = record q { queued = add64 q.queued size } in
    if sle c.queue_bytes 0
    then (more, true)
    else if slt c.queue_bytes (add64 q.queued size)
    then (q, false)
    else (more, true)

abbrev pub drop_one : Queue → Queue
drop_one q = record q { dropped = add64 q.dropped 1 }

-- What `Offer` answers at once, or that it goes on to the channel.
pub data Offered : Type 0 where
  taken refused goes_on : Offered

abbrev claimed_by : Item → Queue × Bool → Queue × Offered
claimed_by it (q, false) = (drop_one q, refused)
claimed_by it (q, true) = (record q { claimed = it ∷ q.claimed }, goes_on)

-- `Offer`, up to the claim.
unfoldable pub offer : Config → Item → Queue → Queue × Offered
unfolding claim
offer c it q =
    if slt (size_of it) c.min_size
    then (q, taken)
    else if q.closed
    then (drop_one q, refused)
    else claimed_by it (claim c (size_of it) q)

-- The callback of `WriteBehind`: it declines what is not for this queue's own bucket.
unfoldable pub write_behind : (own : Bool) → Config → Item → Queue → Queue × Offered
unfolding offer
write_behind own c it q = if own then offer c it q else (q, refused)

-- The `select` of `Offer`, by an offer that leaves `others` claimed: whether there was a slot.
unfoldable pub send : Config → Item → (others : List Item) → Queue → Queue × Bool
send c it others q =
    let left : Queue = record q { claimed = others } in
    if ltb (length q.items) c.capacity
    then (record left { items = q.items ++ it ∷ []; uncounted = q.uncounted + 1 }, true)
    else (drop_one (record left { queued = sub64 q.queued (size_of it) }), false)

-- `q.depth.Add(1)`.
unfoldable pub count : Queue → Queue
count q = record q { depth = add64 q.depth 1; uncounted = q.uncounted - 1 }

-- `Start` launches the workers, and the end of its context closes `halt`.
unfoldable pub launch : Config → Queue → Queue
launch c q = record q { launched = true; idle = c.concurrency }

unfoldable pub halt : Queue → Queue
halt q = record q { halted = true }

-- A worker at its `select` returns.
unfoldable pub leave : Queue → Queue
leave q = record q { idle = q.idle - 1 }

-- A worker receives; `flush` then uploads.
unfoldable pub receive : Item → (rest : List Item) → Queue → Queue
receive it rest q = record q { items = rest; flying = it ∷ q.flying; idle = q.idle - 1 }

-- What `flush` gives `Put`.
unfoldable pub upload_meta : Item → Meta
upload_meta it = record it.meta { size = size_of it }

-- The upload of `flush`, with what `Put` answers for its log.
unfoldable pub upload :
    {W : Type 0} → (put : Text → Reader → Meta → W → W × Option Error) → Item → W → W × Option Error
unfolding upload_meta
upload put it w = put it.key (record { content = it.body; broken = none }) (upload_meta it) w

-- The two deferred steps of `flush`, whatever `Put` answers.
unfoldable pub landed : Item → (others : List Item) → Queue → Queue
landed it others q = record q { depth = sub64 q.depth 1; flying = others; flushed = it ∷ q.flushed }

unfoldable pub settled : Item → (others : List Item) → Queue → Queue
settled it others q = record q {
  queued = sub64 q.queued (size_of it);
  flushed = others;
  idle = q.idle + 1;
}

-- `Stop` closes the channel under the lock that every `Offer` holds shared.
unfoldable pub close : Queue → Queue
close q = record q { closed = true }

abbrev pub unflushed : Error
unflushed = wrap (codes "bucket: upload queue stopped") (other [])

-- What `Stop` returns once it has waited.
unfoldable pub stop_report : Queue → Option Error
stop_report q = if q.depth == 0 then none else some unflushed

-- One atomic operation. The body of an offer is in memory, so that its size and the bound on the
-- queue's bytes add up to an int64.
pub data Step (c : Config) : Queue → Queue → Type 0 where
  offers :
      (it : Item) (q : Queue) → size_of it + c.queue_bytes < half_word → Step c q (offer c it q).0
  sends :
      (it : Item) (xs ys : List Item) (q : Queue)
      → q.claimed ≡ xs ++ it ∷ ys
      → Step c q (send c it (xs ++ ys) q).0
  counts : (q : Queue) → 0 < q.uncounted → Step c q (count q)
  receives :
      (it : Item) (rest : List Item) (q : Queue)
      → q.items ≡ it ∷ rest
      → 0 < q.idle
      → Step c q (receive it rest q)
  lands :
      (it : Item) (xs ys : List Item) (q : Queue)
      → q.flying ≡ xs ++ it ∷ ys
      → Step c q (landed it (xs ++ ys) q)
  settles :
      (it : Item) (xs ys : List Item) (q : Queue)
      → q.flushed ≡ xs ++ it ∷ ys
      → Step c q (settled it (xs ++ ys) q)
  launches : (q : Queue) → q.launched ≡ false → Step c q (launch c q)
  halts : (q : Queue) → q.launched ≡ true → Step c q (halt q)
  -- Once `halt` is closed a worker may return or receive, whichever `select` picks.
  leaves :
      (q : Queue)
      → (q.halted ≡ true) ⊎ ((q.closed ≡ true) × (q.items ≡ []))
      → 0 < q.idle
      → Step c q (leave q)
  closes : (q : Queue) → q.claimed ≡ [] → q.uncounted ≡ 0 → Step c q (close q)

pub data Reach (c : Config) : Queue → Type 0 where
  start : Reach c init
  next : (q r : Queue) → Reach c q → Step c q r → Reach c r
