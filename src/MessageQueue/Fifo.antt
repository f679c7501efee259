-- ===== src/MessageQueue/Fifo.antt =====
-- The order of libgreen/src/message_queue.rs, also between the halves of pushes.
use mathlib.Core.List.{append-nil, append_assoc}
use green_rs.Prelude.{
  ◌≡◌, refl, sym, ap, ◌∙◌, ℕ, take, drop, take-drop, ◌≢◌, List, [], ◌∷◌, ◌++◌, Option, none, some,
  arith,
}
use green_rs.MessageQueue.{
  PopResult, inconsistent, empty, item, Queue, pop, casual_pop, push, begin_push, end_push,
  contents,
}

module _ {ℓ} {A : Type ℓ} where
  pub contents-push : (x : A) (q : Queue A) → contents (push x q) ≡ contents q ++ x ∷ []
  unfolding push
  contents-push x q = by_unlinked q.items q.unlinked
    where
      by_unlinked :
          (xs ys : List A)
          → contents (push x (record { items = xs; unlinked = ys })) ≡ (xs ++ ys) ++ x ∷ []
      by_unlinked xs [] = simp append-nil
      by_unlinked xs (y ∷ ys) = simp append_assoc

  -- What a pop says of the queue, for each of its answers.
  abbrev pub Pops : Queue A → PopResult A × Queue A → Type ℓ
  Pops q (item x, q') = contents q ≡ x ∷ contents q'
  Pops q (empty, q') = (contents q ≡ []) × (q' ≡ q)
  Pops q (inconsistent, q') = (q.items ≡ []) × (q.unlinked ≢ []) × (q' ≡ q)

  pub pop-Pops : (q : Queue A) → Pops q (pop q)
  unfolding pop
  pop-Pops q = by_items q.items q.unlinked
    where
      by_items :
          (xs ys : List A)
          → let q : Queue A = record { items = xs; unlinked = ys } in Pops q (pop q)
      by_items [] [] = (refl, refl)
      by_items [] (y ∷ ys) = (refl, (λ e. cc), refl)
      by_items (x ∷ xs) ys = refl

-- What the producers and the consumer do, in any order.
pub data Op {ℓ} (A : Type ℓ) : Type ℓ where
  pushes begins_push : A → Op A
  ends_push : ℕ → Op A
  pops casual_pops : Op A

module _ {ℓ} {A : Type ℓ} where
  abbrev delivered : PopResult A → List A
  delivered (item x) = x ∷ []
  delivered empty = []
  delivered inconsistent = []

  abbrev offered : Option A → List A
  offered none = []
  offered (some x) = x ∷ []

  -- The queue after an operation, and what it hands to the consumer.
  step : Queue A → Op A → Queue A × List A
  step q (pushes x) = (push x q, [])
  step q (begins_push x) = (begin_push x q, [])
  step q (ends_push n) = (end_push n q, [])
  step q pops = let (r, q') = pop q in (q', delivered r)
  step q casual_pops = let (r, q') = casual_pop q in (q', offered r)

  pub run : Queue A → List (Op A) → Queue A × List A
  run q [] = (q, [])
  run q (o ∷ ops) = let rest = run (step q o).0 ops in (rest.0, (step q o).1 ++ rest.1)

  abbrev pub pushed : List (Op A) → List A
  pushed [] = []
  pushed (pushes x ∷ ops) = x ∷ pushed ops
  pushed (begins_push x ∷ ops) = x ∷ pushed ops
  pushed (_ ∷ ops) = pushed ops

  abbrev entering : Op A → List A
  entering (pushes x) = x ∷ []
  entering (begins_push x) = x ∷ []
  entering _ = []

  delivered-pop : (q : Queue A) → delivered (pop q).0 ++ contents (pop q).1 ≡ contents q
  delivered-pop q = ground (arith, pop-Pops q)

  offered-casual_pop :
      (q : Queue A) → offered (casual_pop q).0 ++ contents (casual_pop q).1 ≡ contents q
  unfolding casual_pop
  offered-casual_pop q = ground (arith, pop-Pops q)

  step_lem :
      (q : Queue A) (o : Op A) → (step q o).1 ++ contents (step q o).0 ≡ contents q ++ entering o
  unfolding step begin_push end_push
  step_lem q (pushes x) = contents-push x q
  step_lem q (begins_push x) = simp append_assoc
  step_lem q (ends_push n) =
      append_assoc q.items (take n q.unlinked) (drop n q.unlinked)
      ∙ ap (λ l. q.items ++ l) (take-drop n q.unlinked)
      ∙ sym (append-nil (contents q))
  step_lem q pops = simp append-nil (delivered-pop q)
  step_lem q casual_pops = simp append-nil (offered-casual_pop q)

  pushed-cons : (o : Op A) (ops : List (Op A)) → pushed (o ∷ ops) ≡ entering o ++ pushed ops
  pushed-cons (pushes x) ops = refl
  pushed-cons (begins_push x) ops = refl
  pushed-cons _ ops = refl

  run-pushed :
      (q : Queue A) (ops : List (Op A))
      → (run q ops).1 ++ contents (run q ops).0 ≡ contents q ++ pushed ops
  unfolding run
  run-pushed q [] = simp append-nil
  run-pushed q (o ∷ ops) =
      rw
        (
          append_assoc,
          run-pushed (step q o).0 ops,
          ← append_assoc,
          step_lem q o,
          append_assoc,
          pushed-cons o ops,
        )
        refl

  -- Whatever the producers and the consumer do, what has been delivered and then what is left in
  -- the queue is what was in it and then what has been pushed, in the order of the pushes; and the next
  -- pop gives the first that is left, or says that the queue is empty and nothing is left, or that it is
  -- inconsistent and all that is left is behind an unfinished push.
  pub run_fifo :
      (q : Queue A) (ops : List (Op A))
      → ((run q ops).1 ++ contents (run q ops).0 ≡ contents q ++ pushed ops)
        × Pops (run q ops).0 (pop (run q ops).0)
  run_fifo q ops = (run-pushed q ops, pop-Pops (run q ops).0)
