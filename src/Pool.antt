-- ===== src/Pool.antt =====
-- `SchedPool` of libgreen/src/lib.rs, and the creation of a scheduler in libgreen/src/sched.rs. A
-- scheduler, its message queue and its deque have the same id, which is the number of the
-- schedulers before it.
pub mod Laws
pub mod Runs
use green_rs.Prelude.{
  ℕ, zero, suc, ◌+◌, ◌%◌, Bool, true, false, Option, none, some, List, [], ◌∷◌, ◌++◌, Result, ok,
  fault, assertion, index, update, length, get_elem?, ltb, leb, ◌==◌, not, if◌then◌else◌, then_ok,
}
use green_rs.Stack.{Os}
use green_rs.Stack.Pool.{StackPool, empty}
use green_rs.MessageQueue
use green_rs.Task.{GreenTask, SchedHandle, TaskOpts, configure}
use green_rs.TaskState.{active}
use green_rs.Sched.World.{
  Scheduler, Memory, SchedMessage, shutdown, new_neighbor, task_from_friend, XorShiftRng, handle_of,
  max_yield_checks,
}

-- `threads` are the schedulers as they were given to their threads; `pool_id` is the pool's own.
pub record SchedPool : Type 0 where
  pub pool_id : ℕ
  pub threads : List Scheduler
  pub handles : List SchedHandle
  pub stealers : List ℕ
  pub next_friend : ℕ
  pub stack_pool : StackPool

-- `Scheduler::new_special`, with the first value of the generator drawn.
unfoldable pub new_special : ℕ → ℕ → List ℕ → Bool → Option SchedHandle → (ℕ → ℕ) → Scheduler
unfolding empty
new_special id pool_id work_queues run_anything friend draws = record {
  sched_id = id;
  pool_id = pool_id;
  stack_pool = empty;
  work_queue = id;
  work_queues = work_queues;
  message_queue = id;
  sleepy = false;
  no_sleep = false;
  sched_task = none;
  cleanup_job = none;
  friend_handle = friend;
  run_anything = run_anything;
  rng = record { draws = draws; used = 1 };
  idle_callback = none;
  yield_check_count = draws 0 % max_yield_checks + 1;
  steal_for_yield = false;
}

unfoldable pub new_sched : ℕ → ℕ → List ℕ → (ℕ → ℕ) → Scheduler
unfolding new_special
new_sched id pool_id work_queues draws = new_special id pool_id work_queues true none draws

-- `SchedHandle::send` from a thread that runs no scheduler.
unfoldable pub deliver : SchedHandle → SchedMessage → Memory → Memory
deliver handle msg m = record m {
  inboxes = update m.inboxes handle.queue (MessageQueue.push msg (m.inboxes handle.queue));
  fired = m.fired ++ handle.remote ∷ [];
}

-- The loop over the handles.
unfoldable pub announce : SchedMessage → List SchedHandle → Memory → Memory
announce msg [] m = m
announce msg (handle ∷ rest) m = announce msg rest (deliver handle msg m)

-- The deques of a new pool, from the id `first` on.
unfoldable pub deque_ids : (count first : ℕ) → List ℕ
deque_ids zero first = []
deque_ids (suc count) first = first ∷ deque_ids count (suc first)

-- The loop over the workers.
unfoldable pub start_threads : (ℕ → ℕ → ℕ) → List ℕ → SchedPool → SchedPool
unfolding new_sched
start_threads draws [] p = p
start_threads draws (worker ∷ workers) p =
    let sched = new_sched worker p.pool_id p.stealers (draws worker) in
    start_threads draws workers
      (record p { handles = p.handles ++ handle_of sched ∷ []; threads = p.threads ++ sched ∷ [] })

unfoldable pub new : (ℕ → ℕ → ℕ) → (id nscheds : ℕ) → Result SchedPool
unfolding empty
new draws id nscheds =
    if ltb 0 nscheds
    then ok (
        start_threads draws (deque_ids nscheds 0) (record {
          pool_id = id;
          threads = [];
          handles = [];
          stealers = deque_ids nscheds 0;
          next_friend = 0;
          stack_pool = empty;
        }))
    else fault assertion

-- The index of the task's scheduler, and the next one.
unfoldable pub advance : ℕ → ℕ → ℕ
advance idx count = if leb count (idx + 1) then 0 else idx + 1

abbrev pub jettison : SchedPool → Memory → GreenTask × StackPool → Result (SchedPool × Memory)
jettison p m (task, stacks) = elim (get_elem? p.handles p.next_friend) [
  | none ↦ fault index
  | some handle ↦ ok (
    record p { next_friend = advance p.next_friend (length p.handles); stack_pool = stacks },
    deliver handle (task_from_friend task) m,
  )
]

unfoldable pub spawn :
    Os → (min_stack address : ℕ) → TaskOpts → SchedPool → Memory → Result (SchedPool × Memory)
spawn os min_stack address opts p m =
    then_ok (configure os min_stack address opts p.stack_pool) (jettison p m)

unfoldable pub spawn_sched : (ℕ → ℕ → ℕ) → SchedPool → Memory → SchedHandle × SchedPool × Memory
unfolding new_sched
spawn_sched draws p m =
    let id = length p.threads in
    let stealers = p.stealers ++ id ∷ [] in
    let sched = new_sched id p.pool_id stealers (draws id) in
    (
      handle_of sched,
      record p {
        stealers = stealers;
        handles = p.handles ++ handle_of sched ∷ [];
        threads = p.threads ++ sched ∷ [];
      },
      announce (new_neighbor id) p.handles m,
    )

-- `shutdown` once no task is active: the pool keeps no handle, and then joins its threads.
unfoldable pub shut_down : SchedPool → Memory → Option (SchedPool × Memory)
shut_down p m =
    if active m.task_state
    then none
    else some
        (record p { stealers = []; handles = []; threads = [] }, announce shutdown p.handles m)
