-- ===== src/Sched/Held/Cleanups.antt =====
-- The cleanup jobs of libgreen/src/sched.rs and the change of context keep every task but the one
-- whose stack is recycled.
use green_rs.Prelude.{ℕ, ◌+◌, ◌≡◌, Bool, true, false, List, [], ◌∷◌, arith, unwrap}
use green_rs.Task.{GreenTask, is_sched, swap, convert}
use green_rs.Task.Laws.{convert-address, swap-address}
use green_rs.Sched.World.{
  World, Local, BlockedTask, Cleanup, park, switch, recycle, requeue, block_once, block_select,
}
use green_rs.Sched.Logic.{After, After-if, After-lift, After-expect}
use green_rs.Sched.Work.{enqueue_task}
use green_rs.Sched.Switch.{park_task, keep_blocked, requeue_blocked, offer, give_back, run_cleanup}
use green_rs.Sched.Held.{is_task, in_blocked, Holds}
use green_rs.Sched.Held.Sends.{enqueue_task-Holds}

-- What the job leaves of the task: a dead one is dropped.
abbrev pub kept : ℕ → Cleanup → GreenTask → ℕ
kept a recycle task = 0
kept a _ task = is_task a task

module _ {a k : ℕ} {l : Local} where
  park_task-Holds :
      (task : GreenTask) {w : World}
      → Holds a k l w
      → After (park_task task w) (λ _. Holds a (k + is_task a task) l)
  unfolding park_task
  park_task-Holds task h = ground (arith, h)

  keep_blocked-Holds :
      (t : BlockedTask) {w : World}
      → Holds a k l w
      → After (keep_blocked t w) (λ _. Holds a (k + in_blocked a t) l)
  unfolding keep_blocked
  keep_blocked-Holds t h = ground (arith, h)

  requeue_blocked-Holds :
      (t : BlockedTask) {w : World}
      → Holds a k l w
      → After (requeue_blocked t w) (λ _. Holds a (k + in_blocked a t) l)
  unfolding requeue_blocked
  requeue_blocked-Holds t {w} h =
      After-lift _ (convert t) _ w λ task e. enqueued task (convert-address t e)
    where
      enqueued :
          (task : GreenTask)
          → task.address ≡ t.1.address
          → After (enqueue_task task w) (λ _. Holds a (k + in_blocked a t) l)
      enqueued task same = rw (← same) (enqueue_task-Holds task h)

  offer-Holds :
      (answers : List Bool) (first : Bool) (t : BlockedTask) {w : World}
      → Holds a k l w
      → After (offer answers first t w) (λ _. Holds a (k + in_blocked a t) l)
  unfolding offer
  offer-Holds [] first t h = keep_blocked-Holds t h
  offer-Holds (true ∷ answers) first t h = offer-Holds answers first t h
  offer-Holds (false ∷ answers) true t h = requeue_blocked-Holds t h
  offer-Holds (false ∷ answers) false t h = keep_blocked-Holds t h

  -- A cleanup job keeps its task somewhere, unless it recycles the stack of a dead one.
  pub run_cleanup-Holds :
      (f : Cleanup) (task : GreenTask) {w : World}
      → Holds a k l w
      → After (run_cleanup f task w) (λ _. Holds a (k + kept a f task) l)
  unfolding run_cleanup give_back
  run_cleanup-Holds park task h = park_task-Holds task h
  run_cleanup-Holds switch task {w} h =
      After-if _ (is_sched task) (park_task task) (enqueue_task task) w
        (λ _. park_task-Holds task h) (λ _. enqueue_task-Holds task h)
  run_cleanup-Holds recycle task {w} h =
      After-expect _ unwrap task.coroutine _ w λ c _. ground (arith, h)
  run_cleanup-Holds requeue task h = enqueue_task-Holds task h
  run_cleanup-Holds (block_once true) task {w} h =
      After-lift _ (swap task) _ w λ t e. rw (← swap-address task e) (keep_blocked-Holds t h)
  run_cleanup-Holds (block_once false) task {w} h =
      After-lift _ (swap task) _ w λ t e. rw (← swap-address task e) (requeue_blocked-Holds t h)
  run_cleanup-Holds (block_select answers first) task {w} h =
      After-lift _ (swap task) _ w λ t e. rw (← swap-address task e) (offer-Holds answers first t h)
