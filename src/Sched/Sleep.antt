-- ===== src/Sched/Sleep.antt =====
-- Going to sleep and being woken in libgreen/src/sched.rs.
use green_rs.Prelude.{
  ℕ, ◌≡◌, ◌⊎◌, refl, true, false, some, List, [], ◌∷◌, ◌++◌, arith, ==_refl, update, if◌then◌else◌,
  ok,
}
use green_rs.MessageQueue.{contents}
use green_rs.MessageQueue.Fifo.{contents-push}
use green_rs.SleeperList
use green_rs.Task.{GreenTask, SchedHandle, is_sched}
use green_rs.Sched.World.{World, handle_of, make_handle, wake}
use green_rs.Sched.Work.{resume_idle, enqueue_task, push_work, notify_sleeper}
use green_rs.Sched.Loop.{go_to_sleep, set_idle}

-- A scheduler that stops polling has its handle on the sleeper list, last, unless one is already
-- out or it is shutting down; then the list is as it was.
pub go_to_sleep_lem :
    (w w' : World)
    → go_to_sleep w ≡ ok (tt, w')
    → (w'.sched.idle_callback ≡ some false)
      × ((w'.sched.sleepy ≡ true) ⊎ (w'.sched.no_sleep ≡ true))
      × (w'.mem.sleepers ≡ (
          if w.sched.sleepy
          then w.mem.sleepers
          else if w.sched.no_sleep
          then w.mem.sleepers
          else w.mem.sleepers ++ handle_of w.sched ∷ []))
unfolding go_to_sleep set_idle make_handle SleeperList.push
go_to_sleep_lem w w' e = ground arith

notify_head :
    (w : World) (handle : SchedHandle) (rest : List SchedHandle)
    → w.mem.sleepers ≡ handle ∷ rest
    → (w' : World) × (notify_sleeper w ≡ ok (tt, w'))
      × (w'.mem.sleepers ≡ rest)
      × (w'.mem.deques ≡ w.mem.deques)
      × (w'.mem.fired ≡ w.mem.fired ++ handle.remote ∷ [])
      × (contents (w'.mem.inboxes handle.queue)
          ≡ contents (w.mem.inboxes handle.queue) ++ wake ∷ [])
unfolding notify_sleeper
notify_head w handle rest e =
    rw (e, notify_sleeper)
      (_, refl, refl, refl, refl, rw ==_refl (contents-push wake (w.mem.inboxes handle.queue)))

-- With a sleeper on the list, enqueueing a task that is not a scheduler's succeeds: the task stands
-- first in the deque, and the first sleeper is off the list, sent `Wake`, and its event loop fired.
pub enqueue_task-wakes :
    (w : World) (t : GreenTask) (handle : SchedHandle) (rest : List SchedHandle)
    → is_sched t ≡ false
    → w.mem.sleepers ≡ handle ∷ rest
    → (w' : World) × (enqueue_task t w ≡ ok (tt, w'))
      × (w'.mem.sleepers ≡ rest)
      × (w'.mem.fired ≡ w.mem.fired ++ handle.remote ∷ [])
      × (contents (w'.mem.inboxes handle.queue)
          ≡ contents (w.mem.inboxes handle.queue) ++ wake ∷ [])
      × (w'.mem.deques w.sched.work_queue ≡ t ∷ w.mem.deques w.sched.work_queue)
unfolding enqueue_task push_work
enqueue_task-wakes w t handle rest green e =
    let (w', r, up, same, fired, sent) = notify_head pushed handle rest e in
    (w', rw (enqueue_task, push_work, green) r, up, fired, sent, rw same (rw ==_refl refl))
  where
    own : ℕ
    own = w.sched.work_queue

    pushed : World
    pushed = record w {
      sched = record w.sched { idle_callback = resume_idle w.sched.idle_callback };
      mem = record w.mem { deques = update w.mem.deques own (t ∷ w.mem.deques own) };
    }

-- When a scheduler has gone to sleep with nobody else on the list, the next green task that another
-- one enqueues takes its handle off the list, sends it `Wake` and fires its event loop, and the task
-- stands first in the other's deque.
pub go_to_sleep-enqueue_task :
    (w w' other : World) (t : GreenTask)
    → go_to_sleep w ≡ ok (tt, w')
    → w.sched.sleepy ≡ false
    → w.sched.no_sleep ≡ false
    → w.mem.sleepers ≡ []
    → other.mem ≡ w'.mem
    → is_sched t ≡ false
    → (other' : World) × (enqueue_task t other ≡ ok (tt, other'))
      × (other'.mem.sleepers ≡ [])
      × (other'.mem.fired ≡ w'.mem.fired ++ w.sched.sched_id ∷ [])
      × (contents (other'.mem.inboxes w.sched.message_queue)
          ≡ contents (w'.mem.inboxes w.sched.message_queue) ++ wake ∷ [])
      × (other'.mem.deques other.sched.work_queue ≡ t ∷ w'.mem.deques other.sched.work_queue)
go_to_sleep-enqueue_task w w' other t slept awake up alone same green =
    rw (← same) (enqueue_task-wakes other t (handle_of w.sched) [] green (rw same one))
  where
    one : w'.mem.sleepers ≡ handle_of w.sched ∷ []
    one = ground (arith, (go_to_sleep_lem w w' slept).2)
