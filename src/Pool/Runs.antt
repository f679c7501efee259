-- ===== src/Pool/Runs.antt =====
-- `run` of libgreen/src/lib.rs, its configuration, the spawners of `GreenTaskBuilder`, and the drop of
-- a pool.
use green_rs.Prelude.{
  ℕ, Bool, Option, none, some, List, [], ◌∷◌, Result, ok, fault, panic, if◌then◌else◌, then_ok,
}
use green_rs.Stack.{Os}
use green_rs.Task.{GreenTask, SchedHandle, TaskOpts, configure}
use green_rs.Sched.World.{Memory, pinned_task, task_from_friend, handle_of}
use green_rs.Pool.{SchedPool, new, spawn, shut_down, deliver, announce, new_sched, deque_ids}
use green_rs.Sched.World.{shutdown}

-- Event loops go by the schedulers that they run, so their factory has no value.
pub record PoolConfig : Type 0 where
  pub threads : ℕ

-- `default_threads` is what the environment says.
unfoldable pub new_config : (default_threads : ℕ) → PoolConfig
new_config default_threads = record { threads = default_threads }

-- `spawn` of a spawner: with a handle, the task is pinned to its scheduler.
unfoldable pub spawn_green :
    Os
    → (min_stack address : ℕ) → TaskOpts
    → SchedPool
    → Option SchedHandle
    → Memory
    → Result (SchedPool × Memory)
unfolding spawn
spawn_green os min_stack address opts pool none m = spawn os min_stack address opts pool m
spawn_green os min_stack address opts pool (some h) m =
    then_ok (configure os min_stack address opts pool.stack_pool)
      (λ (task, stacks). ok (record pool { stack_pool = stacks }, deliver h (pinned_task task) m))

unfoldable pub drop_pool : SchedPool → Result (Unit {0})
drop_pool p = elim p.threads [ [] ↦ ok tt | _ ∷ _ ↦ fault panic ]

-- The scheduler that a new pool has first.
abbrev pub first_of : (ℕ → ℕ → ℕ) → (id nscheds : ℕ) → SchedHandle
first_of draws id nscheds = handle_of (new_sched 0 id (deque_ids nscheds 0) (draws 0))

-- What happens outside `run`, to the memory and to the exit status of the process: until the main task
-- has sent its result, whether that is an error; until no task is active; and until the threads of the
-- pool, which `shut_down` joins, have ended.
module _ (until_exit : Memory × ℕ → Bool × (Memory × ℕ))
    (until_idle until_joined : Memory × ℕ → Memory × ℕ) (default_error_code : ℕ) where
  -- `set_exit_status`, if the main task's result is an error.
  abbrev failed_status : Bool × (Memory × ℕ) → Memory × ℕ
  failed_status (failed, (m, status)) = (m, if failed then default_error_code else status)

  -- After the result has been received; `none` is a shutdown that still waits. The exit status is read
  -- when the threads have been joined.
  abbrev finish : SchedPool → Memory × ℕ → Option (ℕ × SchedPool × Memory)
  finish pool (m, status) = elim (shut_down pool m) [
    | none ↦ none
    | some (pool', m') ↦
        let (ended, status') = until_joined (m', status) in some (status', pool', ended)
  ]

  unfoldable pub run :
      (draws : ℕ → ℕ → ℕ) (id : ℕ)
      → PoolConfig
      → Os
      → (min_stack address : ℕ) → TaskOpts
      → Memory × ℕ
      → Result (Option (ℕ × SchedPool × Memory))
  unfolding new spawn shut_down
  run draws id cfg os min_stack address opts (m, status) =
      then_ok (new draws id cfg.threads) (λ pool.
        then_ok (spawn os min_stack address opts pool m)
          (λ (pool', m'). ok (finish pool' (until_idle (failed_status (until_exit (m', status)))))))

  -- The process when the main task has been given to the first scheduler, and when no task is active.
  abbrev pub spawned : SchedHandle → GreenTask → Memory × ℕ → Memory × ℕ
  spawned first task (m, status) = (deliver first (task_from_friend task) m, status)

  abbrev pub idle_after : SchedHandle → GreenTask → Memory × ℕ → Memory × ℕ
  idle_after first task w = until_idle (failed_status (until_exit (spawned first task w)))

  abbrev pub told : List SchedHandle → Memory × ℕ → Memory × ℕ
  told handles (m, status) = (announce shutdown handles m, status)
