-- ===== src/Sched/Green.antt =====
-- What a running task asks of its scheduler: libgreen/src/sched.rs from `run_task` to
-- `maybe_yield`, and the `Runtime` of libgreen/src/task.rs.
-- The answer is the scheduler task, if the call has switched to it, and `none` if a green task
-- goes on in the local slot.
use green_rs.Prelude.{
  ℕ, ◌-◌, Bool, true, not, Option, none, some, List, [], ◌∷◌, unwrap, abort, is_some, ltb, ◌==◌,
  if◌then◌else◌, ok,
}
use green_rs.Stack.{Os}
use green_rs.Task.{GreenTask, TaskOpts, is_sched, convert, configure}
use green_rs.Sched.World.{
  M, ◌>>=◌, ◌>>◌, return, lift, fail, expect, assert_that, this, modify, Cleanup, recycle, requeue,
  block_once, block_select, BlockedTask, Local, green_task, vacant, other_task, send, run_once,
  make_handle, reset_yield_check,
}
use green_rs.Sched.Work.{enqueue_task}
use green_rs.Sched.Routing.{process_task}
use green_rs.Sched.Switch.{
  put_with_sched, take_sched, take_sched_task, change_task_context, switch_task,
}

unfoldable pub local_green : Local → M BlockedTask
local_green vacant = fail unwrap
local_green other_task = fail abort
local_green (green_task t) = return t

-- `Local::take`, `convert` and `sched.take().unwrap()`.
unfoldable pub take_local : M GreenTask
take_local = do
  t ← λ w. local_green w.local w
  λ w. ok (tt, record w { local = vacant })
  task ← lift (convert t)
  take_sched task

unfoldable pub run_task : M GreenTask → GreenTask → GreenTask → M (Unit {0})
run_task run_green cur next = do
  stayed ← process_task some (switch_task run_green) cur next
  elim stayed [ none ↦ return tt | some task ↦ put_with_sched task ]

unfoldable pub run_task_later : GreenTask → GreenTask → M (Unit {0})
run_task_later cur next = do task ← take_sched cur; enqueue_task next; put_with_sched task

-- `yield_now` of a task that is not the scheduler task.
unfoldable pub yield_green : GreenTask → M GreenTask
yield_green cur = do
  count ← reset_yield_check
  modify λ s. record s { yield_check_count = count }
  modify λ s. record s { steal_for_yield = true }
  stask ← take_sched_task
  change_task_context cur stask requeue

unfoldable pub maybe_yield : GreenTask → M (Option GreenTask)
maybe_yield cur = if is_sched cur then (do put_with_sched cur; return none) else (do
  s ← this
  assert_that (ltb 0 s.yield_check_count)
  modify λ s. record s { yield_check_count = s.yield_check_count - 1 }
  if s.yield_check_count - 1 == 0
      then (do stask ← yield_green cur; return (some stask))
      else (do put_with_sched cur; return none))

unfoldable pub terminate : GreenTask → M GreenTask
terminate cur = do stask ← take_sched_task; change_task_context cur stask recycle

-- The handle that a task needs to come back from elsewhere, made once.
unfoldable pub ensure_handle : GreenTask → M GreenTask
ensure_handle cur = do
  s ← this
  elim cur.handle [
    | some _ ↦ return cur
    | none ↦ do
      handle ← make_handle
      return (record cur { handle = some handle; pool_id = s.pool_id })
  ]

abbrev pub blocking : List Bool → Bool → Cleanup
blocking (taken ∷ []) first = block_once taken
blocking answers first = block_select answers first

-- `times` is the length of `answers`, which says what `f` returns for each handle.
unfoldable pub deschedule : List Bool → Bool → GreenTask → M GreenTask
deschedule answers first cur = do
  cur ← ensure_handle cur
  stask ← take_sched_task
  change_task_context cur stask (blocking answers first)

unfoldable pub reawaken_remotely : GreenTask → M (Unit {0})
reawaken_remotely task = do handle ← expect unwrap task.handle; send handle (run_once task)

-- `reawaken` after the local task has been looked at.
unfoldable pub reawaken_beside : M GreenTask → Local → GreenTask → M (Unit {0})
reawaken_beside run_green vacant task = reawaken_remotely task
reawaken_beside run_green other_task task = reawaken_remotely task
reawaken_beside run_green (green_task _) task = do
  running ← take_local
  s ← this
  if s.pool_id == task.pool_id
      then run_task run_green running task
      else (do reawaken_remotely task; put_with_sched running)

unfoldable pub reawaken : M GreenTask → BlockedTask → M (Unit {0})
reawaken run_green t = do
  task ← lift (convert t)
  assert_that (not (is_some task.sched))
  λ w. reawaken_beside run_green w.local task w

-- `spawn_opts`: if `configure` panics, the local task has been put back.
unfoldable pub spawn_opts : M GreenTask → Os → ℕ → ℕ → TaskOpts → M (Unit {0})
spawn_opts run_green os min_stack address opts = do
  me ← take_local
  s ← this
  (sibling, pool) ← lift (configure os min_stack address opts s.stack_pool)
  modify λ s. record s { stack_pool = pool }
  run_task run_green me sibling
