-- ===== src/Disk/Links.antt =====
-- engine/disk/index.go, `linkFront` and `unlink`: the intrusive doubly linked list. An entry is its
-- address, a nil pointer is `none`, and each pointer field is a function of the address.
pub mod Chain
pub mod Unlink
pub mod Walk
use ci_cache.Base.{Option, if◌then◌else◌, none, some, ℕ, ◌==◌}

pub record Links : Type 0 where
  pub head : Option ℕ
  pub tail : Option ℕ
  pub prev : ℕ → Option ℕ
  pub next : ℕ → Option ℕ

-- A write to the field of the entry at `p`.
unfoldable pub update {ℓ} : {A : Type ℓ} → (ℕ → A) → ℕ → A → ℕ → A
update f p v q = if q == p then v else f q

unfoldable pub empty_links : Links
empty_links = record { head = none; tail = none; prev = λ p. none; next = λ p. none }

-- `if q != nil { q.field = v }`.
unfoldable pub write_at : (ℕ → Option ℕ) → Option ℕ → Option ℕ → ℕ → Option ℕ
write_at f none v = f
write_at f (some q) v = update f q v

-- `if q == nil { q = v }`.
unfoldable pub if_nil : Option ℕ → Option ℕ → Option ℕ
if_nil none v = v
if_nil (some q) v = some q

unfoldable pub link_front : ℕ → Links → Links
link_front p l = record {
  head = some p;
  tail = if_nil l.tail (some p);
  prev = write_at (update l.prev p none) l.head (some p);
  next = update l.next p l.head;
}

-- The two halves of `unlink`.
bypass_next : ℕ → Links → Links
bypass_next p l = elim (l.prev p) [
  | none ↦ record l { head = l.next p }
  | some q ↦ record l { next = update l.next q (l.next p) }
]

bypass_prev : ℕ → Links → Links
bypass_prev p l = elim (l.next p) [
  | none ↦ record l { tail = l.prev p }
  | some q ↦ record l { prev = update l.prev q (l.prev p) }
]

unfoldable pub unlink : ℕ → Links → Links
unfolding bypass_next bypass_prev update
unlink p l =
    let l' = bypass_prev p (bypass_next p l) in
    record l' { prev = update l'.prev p none; next = update l'.next p none }
