-- ===== src/Examples/Pools.antt =====
-- A pool of two schedulers of libgreen/src/lib.rs.
use green_rs.Prelude.{List, ℕ, ◌+◌, Bool, true, none, some, [], ◌∷◌}
use green_rs.Stack.Pool.{StackPool}
use green_rs.Pool.Runs
use green_rs.Task.{GreenTask, SchedHandle, TaskOpts, entry, type_green, any_sched}
use green_rs.Sched.World.{Memory, handle_of}
use green_rs.Pool.{SchedPool}
use green_rs.Examples.{pool, stack_of, std_task, sched_of, memory_with}

abbrev draws : ℕ → ℕ → ℕ
draws i n = i + n

abbrev pair : SchedPool
pair = record {
  pool_id = 0;
  threads = sched_of 0 none ∷ sched_of 1 none ∷ [];
  handles = handle_of (sched_of 0 none) ∷ handle_of (sched_of 1 none) ∷ [];
  stealers = 0 ∷ 1 ∷ [];
  next_friend = 1;
  stack_pool = pool;
}

abbrev opts : TaskOpts
opts = record { name = none; stack_size = some 150; on_exit = none }

abbrev spawned : GreenTask
spawned = record {
  address = 42;
  coroutine = some (record { current_stack_segment = stack_of 200; saved_context = entry });
  handle = none;
  sched = none;
  task = some std_task;
  task_type = type_green (some any_sched);
  pool_id = 0;
}

abbrev left_over : StackPool
left_over = record { stacks = stack_of 100 ∷ stack_of 300 ∷ [] }

abbrev at_rest : Memory
at_rest = record (memory_with 0) { task_state = record { cnt = 0; done = 1 } }

abbrev stopped : SchedPool
stopped = record pair { stealers = []; handles = []; threads = [] }

abbrev main_task : GreenTask
main_task = record spawned {
  coroutine = some (record { current_stack_segment = stack_of 150; saved_context = entry });
}

-- The main task ends with an error, and then no task is active.
abbrev fails : Memory × ℕ → Bool × (Memory × ℕ)
fails w = (true, w)

abbrev all_end : Memory × ℕ → Memory × ℕ
all_end (m, status) = (record m { task_state = record { cnt = 0; done = 1 } }, status)

abbrev joined : Memory × ℕ → Memory × ℕ
joined w = w

abbrev told_of : List SchedHandle → Memory × ℕ
told_of handles =
    let first = Runs.first_of draws 0 2 in
    joined (
      Runs.told fails all_end joined 101 (first ∷ handles)
        (Runs.idle_after fails all_end joined 101 first main_task (memory_with 0, 0)))
