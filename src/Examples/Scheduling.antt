-- ===== src/Examples/Scheduling.antt =====
-- The scheduler of libgreen/src/sched.rs at work.
use green_rs.Prelude.{
  ℕ, ◌+◌, ◌≡◌, arith, refl, true, false, Option, none, some, [], ◌∷◌, ◌++◌, Result, ok, fault,
  Sum-update, Sum-zero,
}
use green_rs.MessageQueue.{contents}
use green_rs.Task.{
  GreenTask, SchedHandle, give_home, take_unwrap_home, swap, convert, any_sched, home_sched,
  type_green, Home, StdTask,
}
use green_rs.Sched.World.{World, BlockedTask, vacant, green_task, wake, handle_of}
use green_rs.Sched.Work.{find_work, enqueue_task, try_steals}
use green_rs.Sched.Loop.{run_sched_once, go_to_sleep}
use green_rs.Sched.Green.{yield_green, terminate, deschedule}
use green_rs.Sched.Held.{is_task, in_deque, in_inbox, in_slots, Holds, Took}
use green_rs.Sched.Held.Leaves.{yielding, yielding-GreenKeeps}
use green_rs.Sched.Held.Conserved.{run_sched_once-Holds, yield_green-Holds, deschedule-Holds}
use green_rs.Sched.Steals.{Finds, try_steals-Finds}
use green_rs.Sched.Sleep.{go_to_sleep-enqueue_task}
use green_rs.Sched.Idle.Asleep.{run_sched_once-IsAsleep}
use green_rs.Examples.{green_of, stask, sched_of, memory_with, world_with, std_task, no_messages}

abbrev after {ℓ} : {A : Type ℓ} → Result (A × World) → World → World
after (ok (a, w)) _ = w
after (fault e) w = w

abbrev answer {ℓ} : {A : Type ℓ} → Result (A × World) → A → A
answer (ok (a, w)) _ = a
answer (fault e) a = a

-- The task in the deque is held once.
one_task :
    (id : ℕ) (parked : Option GreenTask) (k : ℕ)
    → 1 + in_slots 7 (world_with id parked) ≡ k
    → Holds 7 k vacant (world_with id parked)
one_task id parked k e = record {
  in_deques = 1;
  in_inboxes = 0;
  deques =
      Sum-update (in_deque 7) id (green_of 7 ∷ []) 1 (Sum-zero (in_deque 7) (λ _. []) λ _. refl)
        refl;
  inboxes = Sum-zero (in_inbox 7) (λ _. no_messages) λ _. refl;
  count = e;
  clean = refl;
  in_tls = refl;
}

-- No task with address 9 is held.
no_task : (id : ℕ) → Holds 9 0 vacant (world_with id (some stask))
no_task id = record {
  in_deques = 0;
  in_inboxes = 0;
  deques =
      Sum-update (in_deque 9) id (green_of 7 ∷ []) 0 (Sum-zero (in_deque 9) (λ _. []) λ _. refl)
        refl;
  inboxes = Sum-zero (in_inbox 9) (λ _. no_messages) λ _. refl;
  count = refl;
  clean = refl;
  in_tls = refl;
}

-- The scheduler's own deque holds the task, which yields until I/O is due.
abbrev rested : World
rested = after (run_sched_once yielding 5 stask (world_with 0 none)) (world_with 0 none)

run_sched_once-Holds_example :
    (b : BlockedTask) × Holds 7 (1 + is_task 7 stask) (green_task b) rested
unfolding run_sched_once green_rs.Sched.Loop.set_idle green_rs.Sched.Loop.interpret_message_queue
    green_rs.Sched.Loop.pop_message green_rs.Sched.Loop.on_message green_rs.Sched.Loop.pop_with
    green_rs.MessageQueue.casual_pop green_rs.Sched.Loop.work_loop green_rs.Sched.Loop.work_round
    green_rs.Sched.Loop.do_work find_work green_rs.Sched.Work.find_local
    green_rs.Sched.Work.pop_work green_rs.Sched.Routing.process_task take_unwrap_home give_home
    green_rs.Sched.Switch.resume_task_immediately green_rs.Task.is_sched green_rs.MessageQueue.pop
    green_rs.Sched.Loop.data_or_none green_rs.Sched.Loop.finish_once
    green_rs.Sched.Switch.change_task_context green_rs.Sched.Switch.park_task
    green_rs.Sched.Switch.put green_rs.Sched.Switch.put_with_sched
    green_rs.Sched.Switch.resume_context green_rs.Sched.Switch.run_cleanup
    green_rs.Sched.Switch.run_cleanup_job green_rs.Sched.Switch.swap_in
    green_rs.Sched.Switch.swap_out green_rs.Sched.Switch.take_sched enqueue_task
    green_rs.Sched.Work.notify_sleeper green_rs.Sched.Work.push_work convert swap yielding
    yield_green green_rs.Sched.Green.take_local green_rs.Sched.Green.local_green
    green_rs.Sched.World.reset_yield_check green_rs.Sched.Switch.take_sched_task
run_sched_once-Holds_example =
    run_sched_once-Holds 7 1 yielding 5 stask (world_with 0 none) rested (yielding-GreenKeeps 7)
      (one_task 0 none 1 refl) refl

abbrev found_world : World
found_world = after (find_work (world_with 0 none)) (world_with 0 none)

-- The green task 7 stands in a deque, and the green task 9 runs.
abbrev running : World
running = world_with 0 (some stask)

abbrev resumed : GreenTask
resumed = record stask { sched = some 0 }

abbrev yielded : World
yielded = after (yield_green (green_of 9) running) running

yield_green-Holds_example : Took 9 (0 + is_task 9 (green_of 9)) vacant (some resumed) yielded
unfolding yield_green green_rs.Sched.World.reset_yield_check enqueue_task
    green_rs.Sched.Work.notify_sleeper green_rs.Sched.Work.push_work green_rs.Task.is_sched
    green_rs.Sched.Switch.change_task_context green_rs.Sched.Switch.resume_context
    green_rs.Sched.Switch.run_cleanup green_rs.Sched.Switch.run_cleanup_job
    green_rs.Sched.Switch.swap_in green_rs.Sched.Switch.swap_out
    green_rs.Sched.Switch.take_sched_task
yield_green-Holds_example =
    yield_green-Holds 9 0 (green_of 9) resumed running yielded (no_task 0) refl

abbrev ended : World
ended = after (terminate (green_of 9) running) running

abbrev blocked : World
blocked = after (deschedule (true ∷ true ∷ []) true (green_of 9) running) running

deschedule-Holds_example : Took 9 (0 + is_task 9 (green_of 9)) vacant (some resumed) blocked
unfolding deschedule green_rs.Sched.Green.ensure_handle green_rs.Sched.World.make_handle
    green_rs.Sched.Switch.offer green_rs.Sched.Switch.keep_blocked swap green_rs.Task.put_task
    green_rs.Sched.Switch.change_task_context green_rs.Sched.Switch.resume_context
    green_rs.Sched.Switch.run_cleanup green_rs.Sched.Switch.run_cleanup_job
    green_rs.Sched.Switch.swap_in green_rs.Sched.Switch.swap_out
    green_rs.Sched.Switch.take_sched_task
deschedule-Holds_example =
    deschedule-Holds 9 0 (true ∷ true ∷ []) true (green_of 9) resumed running blocked (no_task 0)
      refl

-- The task stands in the deque of another scheduler.
try_steals-Finds_example : Finds (try_steals (world_with 1 none))
try_steals-Finds_example = try_steals-Finds 1 1 (world_with 1 none) refl (refl, λ e. cc)

abbrev asleep : World
asleep = after (go_to_sleep (world_with 0 none)) (world_with 0 none)

abbrev neighbor : World
neighbor = record asleep { sched = sched_of 1 none }

abbrev handle_0 : SchedHandle
handle_0 = handle_of (sched_of 0 none)

go_to_sleep-enqueue_task_example :
    (w : World) × (enqueue_task (green_of 9) neighbor ≡ ok (tt, w))
    × (w.mem.sleepers ≡ [])
    × (w.mem.fired ≡ asleep.mem.fired ++ 0 ∷ [])
    × (contents (w.mem.inboxes 0) ≡ contents (asleep.mem.inboxes 0) ++ wake ∷ [])
    × (w.mem.deques 1 ≡ green_of 9 ∷ asleep.mem.deques 1)
unfolding go_to_sleep green_rs.Sched.Loop.set_idle green_rs.Sched.World.make_handle
    green_rs.SleeperList.push green_rs.Task.is_sched
go_to_sleep-enqueue_task_example =
    go_to_sleep-enqueue_task (world_with 0 none) asleep neighbor (green_of 9) refl refl refl refl
      refl refl

abbrev listed : World
listed = record (world_with 0 none) { mem = record (memory_with 0) { sleepers = handle_0 ∷ [] } }

abbrev homeless : GreenTask
homeless = record (green_of 7) { task_type = type_green none }

-- No deque holds a task.
abbrev empty_world : World
empty_world = record (world_with 0 none) { mem = record (memory_with 0) { deques = λ _. [] } }

run_sched_once-IsAsleep_example :
    (w : World) × (run_sched_once yielding 1 stask empty_world ≡ ok (some tt, w))
    × (w.sched.sleepy ≡ true)
    × (w.sched.idle_callback ≡ some false)
    × (w.mem.sleepers ≡ handle_0 ∷ [])
run_sched_once-IsAsleep_example =
    run_sched_once-IsAsleep yielding 0 stask std_task empty_world refl refl (record {
      deques = λ _. refl;
      items = refl;
      unlinked = refl;
      queues = omega arith;
      polled = refl;
      room = omega arith;
      awake = refl;
      stays = refl;
      own = refl;
      handle = refl;
      sleepers = refl;
    })
