-- ===== src/Sched/Work.antt =====
-- libgreen/src/sched.rs: `enqueue_task`, `find_work` and `try_steals`.
use green_rs.Prelude.{
  ℕ, zero, suc, ◌+◌, ◌%◌, Bool, true, false, not, Option, none, some, List, [], ◌∷◌, assertion,
  index, update, length, get_elem?, split_last, if◌then◌else◌,
}
use green_rs.Task.{GreenTask, is_sched}
use green_rs.Sched.World.{
  M, ◌>>=◌, ◌>>◌, return, or_else, fail, expect, assert_that, this, modify, memory, modify_memory,
  send, rand, wake, pop_sleeper,
}

unfoldable pub push_work : GreenTask → M (Unit {0})
push_work task = do
  s ← this
  modify_memory
      λ m. record m { deques = update m.deques s.work_queue (task ∷ m.deques s.work_queue) }

abbrev pub resume_idle : Option Bool → Option Bool
resume_idle none = none
resume_idle (some _) = some true

-- Wake one sleeping scheduler, if there is one.
unfoldable pub notify_sleeper : M (Unit {0})
unfolding pop_sleeper send
notify_sleeper = do
  sleeper ← pop_sleeper
  elim sleeper [ none ↦ return tt | some handle ↦ send handle wake ]

unfoldable pub enqueue_task : GreenTask → M (Unit {0})
enqueue_task task = do
  assert_that (not (is_sched task))
  push_work task
  modify λ s. record s { idle_callback = resume_idle s.idle_callback }
  notify_sleeper

-- `Worker::pop`, at the newest end.
abbrev pub newest : List GreenTask → Option GreenTask × List GreenTask
newest [] = (none, [])
newest (task ∷ rest) = (some task, rest)

unfoldable pub pop_work : M (Option GreenTask)
pop_work = do
  s ← this
  m ← memory
  let (task, rest) = newest (m.deques s.work_queue)
  modify_memory λ m. record m { deques = update m.deques s.work_queue rest }
  return task

-- `Stealer::steal`, at the oldest end. `none` is both `Empty` and `Abort`.
unfoldable pub oldest : List GreenTask → Option GreenTask × List GreenTask
unfolding split_last
oldest [] = (none, [])
oldest (task ∷ rest) = let (front, last) = split_last task rest in (some last, front)

unfoldable pub steal : ℕ → M (Option GreenTask)
unfolding oldest
steal queue = do
  m ← memory
  let (task, rest) = oldest (m.deques queue)
  if m.contended queue
      then return none
      else (do modify_memory λ m. record m { deques = update m.deques queue rest }; return task)

-- The `for` loop of `try_steals`: `rounds` are left, and the next index is `i % len`.
unfoldable pub steal_rounds : ℕ → ℕ → List ℕ → M (Option GreenTask)
steal_rounds zero i queues = return none
steal_rounds (suc rounds) i queues =
    let others = steal_rounds rounds (i + 1) queues in
    do
      queue ← expect index (get_elem? queues (i % length queues))
      stolen ← steal queue
      or_else stolen others

-- `gen_range(0, len)` panics at `len` 0.
unfoldable pub gen_range : ℕ → M ℕ
unfolding rand
gen_range zero = fail assertion
gen_range (suc n) = do r ← rand; return (r % suc n)

unfoldable pub try_steals : M (Option GreenTask)
try_steals = do
  s ← this
  start_index ← gen_range (length s.work_queues)
  steal_rounds (length s.work_queues) start_index s.work_queues

-- `find_work` with `steal_for_yield` clear.
unfoldable pub find_local : M (Option GreenTask)
find_local = do task ← pop_work; or_else task try_steals

-- The recursive call of the source comes after the flag has been cleared.
unfoldable pub find_work : M (Option GreenTask)
find_work = do
  s ← this
  if not s.steal_for_yield then find_local else (do
    modify λ s. record s { steal_for_yield = false }
    stolen ← try_steals
    or_else stolen find_local)
