-- ===== src/Sched/Held.antt =====
-- Where the tasks of libgreen/src/sched.rs are: how often a task is held by the queues, the blocked
-- tasks, the slots of the scheduler and the local task.
pub mod Sends
pub mod Moves
pub mod Cleanups
pub mod Swaps
pub mod Routes
pub mod Cycle
pub mod Once
pub mod Leaves
pub mod Conserved
use green_rs.Prelude.{
  ℕ, ◌+◌, ◌≡◌, Option, none, some, List, [], ◌∷◌, sum_of, Sum, ◌==◌, if◌then◌else◌,
}
use green_rs.MessageQueue.{Queue, contents}
use green_rs.Task.{GreenTask}
use green_rs.Sched.World.{
  World, SchedMessage, wake, shutdown, new_neighbor, pinned_task, task_from_friend, run_once,
  CleanupJob, BlockedTask, Local, vacant, other_task, green_task,
}

module _ (a : ℕ) where
  -- 1 for the task with address `a`.
  abbrev pub is_task : GreenTask → ℕ
  is_task t = if t.address == a then 1 else 0

  abbrev pub in_message : SchedMessage → ℕ
  in_message wake = 0
  in_message shutdown = 0
  in_message (new_neighbor _) = 0
  in_message (pinned_task t) = is_task t
  in_message (task_from_friend t) = is_task t
  in_message (run_once t) = is_task t

  abbrev pub in_inbox : Queue SchedMessage → ℕ
  in_inbox q = sum_of in_message (contents q)

  abbrev pub in_deque : List GreenTask → ℕ
  in_deque = sum_of is_task

  abbrev pub in_slot : Option GreenTask → ℕ
  in_slot none = 0
  in_slot (some t) = is_task t

  abbrev pub in_cleanup : Option CleanupJob → ℕ
  in_cleanup none = 0
  in_cleanup (some job) = is_task job.task

  abbrev pub in_blocked : BlockedTask → ℕ
  in_blocked t = is_task t.1

  abbrev pub in_local : Local → ℕ
  in_local vacant = 0
  in_local other_task = 0
  in_local (green_task t) = is_task t.1

  -- How often the task is held outside the queues.
  abbrev pub in_slots : World → ℕ
  in_slots w =
      sum_of in_blocked w.mem.blocked
      + in_slot w.sched.sched_task
      + in_cleanup w.sched.cleanup_job
      + in_local w.local

-- The task with address `a` is held `k` times, in the deques, the inboxes and the slots of the
-- scheduler and its thread; no cleanup job waits, and the local slot is `l`.
pub record Holds (a k : ℕ) (l : Local) (w : World) : Type 0 where
  pub in_deques : ℕ
  pub in_inboxes : ℕ
  pub deques : Sum (in_deque a) w.mem.deques in_deques
  pub inboxes : Sum (in_inbox a) w.mem.inboxes in_inboxes
  pub count : in_deques + in_inboxes + in_slots a w ≡ k
  pub clean : w.sched.cleanup_job ≡ none
  pub in_tls : w.local ≡ l

-- The same with one task in hand, or none.
pub record Took (a k : ℕ) (l : Local) (task : Option GreenTask) (w : World) : Type 0 where
  pub in_deques : ℕ
  pub in_inboxes : ℕ
  pub deques : Sum (in_deque a) w.mem.deques in_deques
  pub inboxes : Sum (in_inbox a) w.mem.inboxes in_inboxes
  pub count : in_deques + in_inboxes + in_slots a w + in_slot a task ≡ k
  pub clean : w.sched.cleanup_job ≡ none
  pub in_tls : w.local ≡ l
