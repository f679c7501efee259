-- ===== src/SleeperList.antt =====
-- libgreen/src/sleeper_list.rs: the bounded queue of handles of sleeping schedulers.
use green_rs.Prelude.{
  ℕ, List, [], ◌∷◌, ◌++◌, Option, none, some, Result, ok, fault, assertion, length, ltb,
  if◌then◌else◌,
}

-- `Queue::with_capacity(8*1024)`
abbrev pub capacity : ℕ
capacity = 8192

module _ {ℓ} {A : Type ℓ} where
  -- The queue of the standard library refuses a push when it is full, and the `assert!` panics.
  unfoldable pub push : A → List A → Result (List A)
  push handle q = if ltb (length q) capacity then ok (q ++ handle ∷ []) else fault assertion

  unfoldable pub pop : List A → Option A × List A
  pop [] = (none, [])
  pop (handle ∷ q) = (some handle, q)

  unfoldable pub casual_pop : List A → Option A × List A
  unfolding pop
  casual_pop q = pop q
