-- ===== src/Sched/Switch.antt =====
-- libgreen/src/sched.rs: the change of context and the cleanup job that follows it.
-- A swap ends the work of the current task until that task is resumed, so a function here returns
-- on the other side: after the cleanup job, with the task that now runs.
use green_rs.Prelude.{
  Bool, true, false, not, Option, none, some, List, [], ◌∷◌, unwrap, unreachable, is_some, ok,
  if◌then◌else◌,
}
use green_rs.Stack.Pool.{give_stack}
use green_rs.TaskState
use green_rs.Task.{GreenTask, Coroutine, Context, empty, entry, suspended, is_sched, swap, convert}
use green_rs.Sched.World.{
  M, ◌>>=◌, ◌>>◌, return, lift, fail, expect, assert_that, this, modify, memory, modify_memory,
  Cleanup, park, switch, recycle, requeue, block_once, block_select, BlockedTask, green_task,
}
use green_rs.Sched.Work.{enqueue_task}

-- `swap`, and `Local::put`.
unfoldable pub put : GreenTask → M (Unit {0})
put task = do
  assert_that (is_some task.sched)
  t ← lift (swap task)
  λ w. ok (tt, record w { local = green_task t })

unfoldable pub put_with_sched : GreenTask → M (Unit {0})
put_with_sched task = do
  assert_that (not (is_some task.sched))
  s ← this
  put (record task { sched = some s.sched_id })

-- `task.sched.take().unwrap()`: the scheduler is `self` from here on.
unfoldable pub take_sched : GreenTask → M GreenTask
take_sched task = do _ ← expect unwrap task.sched; return (record task { sched = none })

-- `self.sched_task.take().unwrap()`
unfoldable pub take_sched_task : M GreenTask
take_sched_task = do
  s ← this
  stask ← expect unwrap s.sched_task
  modify λ s. record s { sched_task = none }
  return stask

unfoldable pub park_task : GreenTask → M (Unit {0})
park_task stask = do
  s ← this
  assert_that (not (is_some s.sched_task))
  modify λ s. record s { sched_task = some stask }

unfoldable pub keep_blocked : BlockedTask → M (Unit {0})
keep_blocked t = modify_memory λ m. record m { blocked = t ∷ m.blocked }

unfoldable pub requeue_blocked : BlockedTask → M (Unit {0})
requeue_blocked t = do task ← lift (convert t); enqueue_task task

-- The loop over the handles of `make_selectable`: it ends at the first that `f` refuses.
unfoldable pub offer : List Bool → Bool → BlockedTask → M (Unit {0})
offer [] first t = keep_blocked t
offer (true ∷ answers) first t = offer answers first t
offer (false ∷ answers) first t = if first then requeue_blocked t else keep_blocked t

unfoldable pub give_back : Coroutine → M (Unit {0})
give_back coroutine = do
  m ← memory
  modify λ s. record s {
    stack_pool = give_stack m.max_stacks coroutine.current_stack_segment s.stack_pool;
  }
  modify_memory λ m. record m { task_state = TaskState.decrement m.task_state }

-- The body of each closure.
unfoldable pub run_cleanup : Cleanup → GreenTask → M (Unit {0})
run_cleanup park task = park_task task
run_cleanup switch task = if is_sched task then park_task task else enqueue_task task
run_cleanup recycle task = do coroutine ← expect unwrap task.coroutine; give_back coroutine
run_cleanup requeue task = enqueue_task task
run_cleanup (block_once taken) task = do
  t ← lift (swap task)
  if taken then keep_blocked t else requeue_blocked t
run_cleanup (block_select answers first) task = do t ← lift (swap task); offer answers first t

unfoldable pub run_cleanup_job : M (Unit {0})
run_cleanup_job = do
  s ← this
  job ← expect unwrap s.cleanup_job
  modify λ s. record s { cleanup_job = none }
  run_cleanup job.f job.task

-- Up to `Context::swap`, which saves the context of the current task.
unfoldable pub swap_out : GreenTask → GreenTask → Cleanup → M GreenTask
swap_out current_task next_task f = do
  s ← this
  current ← expect unwrap current_task.coroutine
  _ ← expect unwrap next_task.coroutine
  let saved = record current { saved_context = suspended }
  modify λ s. record s {
    cleanup_job = some (record { task = record current_task { coroutine = some saved }; f = f });
  }
  return (record next_task { sched = some s.sched_id })

-- The first code on the next task's side: `bootstrap_green_task`, or the end of
-- `change_task_context`. Nothing resumes an empty context.
unfoldable pub resume_context : Context → GreenTask → M GreenTask
resume_context empty task = fail unreachable
resume_context suspended task = do run_cleanup_job; return task
resume_context entry task = do
  run_cleanup_job
  modify_memory λ m. record m { task_state = TaskState.increment m.task_state }
  s ← this
  return (record task { pool_id = s.pool_id })

unfoldable pub swap_in : GreenTask → M GreenTask
swap_in task = do
  coroutine ← expect unwrap task.coroutine
  resume_context coroutine.saved_context task

unfoldable pub change_task_context : GreenTask → GreenTask → Cleanup → M GreenTask
change_task_context current_task next_task f = do
  running ← swap_out current_task next_task f
  swap_in running

-- `run_green` is what the green tasks do, from the moment when one stands in the local slot until
-- the scheduler task is resumed, which it returns.
unfoldable pub resume_task_immediately : M GreenTask → GreenTask → GreenTask → M GreenTask
resume_task_immediately run_green cur next = do
  assert_that (is_sched cur)
  running ← change_task_context cur next park
  put running
  stask ← run_green
  take_sched stask

-- A green `cur` is suspended, and the answer is `none`; the scheduler task returns later.
unfoldable pub switch_task : M GreenTask → GreenTask → GreenTask → M (Option GreenTask)
switch_task run_green cur next = do
  running ← change_task_context cur next switch
  put running
  if is_sched cur
      then (do stask ← run_green; t ← take_sched stask; return (some t))
      else return none
