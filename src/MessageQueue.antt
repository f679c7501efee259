-- ===== src/MessageQueue.antt =====
-- libgreen/src/message_queue.rs: the queue of messages to a scheduler, on the standard library's
-- `mpsc_queue`. A push there swaps the head first and links the node second; between the two, that
-- node and all later ones are out of the consumer's reach.
pub mod Fifo
use green_rs.Prelude.{ℕ, take, drop, List, [], ◌∷◌, ◌++◌, Option, none, some}

pub data PopResult {ℓ} (A : Type ℓ) : Type ℓ where
  inconsistent empty : PopResult A
  item : A → PopResult A

-- The nodes that the consumer can reach, oldest first, and those behind an unfinished push.
pub record Queue {ℓ} (A : Type ℓ) : Type ℓ where
  pub items : List A
  pub unlinked : List A

module _ {ℓ} {A : Type ℓ} where
  unfoldable pub queue : Queue A
  queue = record { items = []; unlinked = [] }

  -- `mpsc_queue::Queue::pop`
  pop_items : List A → Queue A → PopResult A × Queue A
  pop_items (x ∷ xs) q = (item x, record q { items = xs })
  pop_items [] q = elim q.unlinked [ [] ↦ (empty, q) | x ∷ xs ↦ (inconsistent, q) ]

  unfoldable pub pop : Queue A → PopResult A × Queue A
  unfolding pop_items
  pop q = pop_items q.items q

  item_or_none : PopResult A → Option A
  item_or_none inconsistent = none
  item_or_none empty = none
  item_or_none (item x) = some x

  unfoldable pub casual_pop : Queue A → Option A × Queue A
  unfolding pop item_or_none
  casual_pop q = let (r, q') = pop q in (item_or_none r, q')

  push_behind : List A → A → Queue A → Queue A
  push_behind [] x q = record q { items = q.items ++ x ∷ [] }
  push_behind (y ∷ ys) x q = record q { unlinked = q.unlinked ++ x ∷ [] }

  unfoldable pub push : A → Queue A → Queue A
  unfolding push_behind
  push x q = push_behind q.unlinked x q

  -- Another thread between the two halves of its push; and after the second of one, when the first
  -- `n` of the nodes come into reach: those up to the next unfinished push, or none if there is an
  -- unfinished one before it.
  unfoldable pub begin_push : A → Queue A → Queue A
  begin_push x q = record q { unlinked = q.unlinked ++ x ∷ [] }

  unfoldable pub end_push : (n : ℕ) → Queue A → Queue A
  end_push n q = record { items = q.items ++ take n q.unlinked; unlinked = drop n q.unlinked }

  -- All that has been pushed and not popped, oldest first.
  abbrev pub contents : Queue A → List A
  contents q = q.items ++ q.unlinked
