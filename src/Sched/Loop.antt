-- ===== src/Sched/Loop.antt =====
-- libgreen/src/sched.rs: the work of the scheduler task, from `run_sched_once` to `do_work`.
use green_rs.Prelude.{
  ℕ, zero, suc, Bool, true, false, not, ◌&&◌, ◌||◌, Option, none, some, List, [], ◌∷◌, ◌++◌, unwrap,
  is_some, update, if◌then◌else◌,
}
use green_rs.MessageQueue
use green_rs.MessageQueue.{PopResult, item, inconsistent, empty}
use green_rs.SleeperList
use green_rs.Task.{GreenTask, SchedHandle, home_sched, give_home}
use green_rs.Sched.World.{
  M, ◌>>=◌, ◌>>◌, return, lift, expect, assert_that, this, modify, memory, modify_memory,
  SchedMessage, wake, shutdown, new_neighbor, pinned_task, task_from_friend, run_once, make_handle,
  send,
}
use green_rs.Sched.Work.{find_work}
use green_rs.Sched.Routing.{process_task}
use green_rs.Sched.Switch.{put_with_sched, resume_task_immediately}

pub data EffortLevel : Type 0 where
  dont_try_too_hard give_it_your_best : EffortLevel

unfoldable pub data_or_none : PopResult SchedMessage → Option SchedMessage
data_or_none (item t) = some t
data_or_none inconsistent = none
data_or_none empty = none

unfoldable pub pop_with :
    EffortLevel
    → MessageQueue.Queue SchedMessage
    → Option SchedMessage × MessageQueue.Queue SchedMessage
pop_with dont_try_too_hard q = MessageQueue.casual_pop q
pop_with give_it_your_best q = let (r, q') = MessageQueue.pop q in (data_or_none r, q')

unfoldable pub pop_message : EffortLevel → M (Option SchedMessage)
pop_message effort = do
  s ← this
  m ← memory
  let (msg, rest) = pop_with effort (m.inboxes s.message_queue)
  modify_memory λ m. record m { inboxes = update m.inboxes s.message_queue rest }
  return msg

-- The loop of `Shutdown` over the sleeper list.
unfoldable pub wake_all : List SchedHandle → M (Unit {0})
wake_all [] = return tt
wake_all (handle ∷ rest) = do
  modify_memory λ m. record m { sleepers = rest }
  send handle wake
  wake_all rest

unfoldable pub set_idle : Bool → M (Unit {0})
set_idle active = do
  s ← this
  _ ← expect unwrap s.idle_callback
  modify λ s. record s { idle_callback = some active }

-- The end of `run_sched_once` where no work was done.
unfoldable pub go_to_sleep : M (Unit {0})
go_to_sleep = do
  s ← this
  if not s.sleepy && not s.no_sleep
      then (do
        modify λ s. record s { sleepy = true }
        handle ← make_handle
        m ← memory
        sleepers ← lift (SleeperList.push handle m.sleepers)
        modify_memory λ m. record m { sleepers = sleepers }
        set_idle false)
      else set_idle false

unfoldable pub finish_once : Option (GreenTask × Bool) → M (Option (Unit {0}))
finish_once none = return none
finish_once (some (stask, true)) = do put_with_sched stask; return (some tt)
finish_once (some (stask, false)) = do go_to_sleep; put_with_sched stask; return (some tt)

module _ (run_green : M GreenTask) where
  abbrev pub process : GreenTask → GreenTask → M GreenTask
  process = process_task (λ stask. stask) (resume_task_immediately run_green)

  -- Whether the message counts as work.
  unfoldable pub on_message : GreenTask → Option SchedMessage → M (GreenTask × Bool)
  on_message stask none = return (stask, false)
  on_message stask (some (pinned_task task)) = do
    handle ← make_handle
    task ← lift (give_home (home_sched handle) task)
    stask ← resume_task_immediately run_green stask task
    return (stask, true)
  on_message stask (some (task_from_friend task)) = do
    stask ← process stask task
    return (stask, true)
  on_message stask (some (run_once task)) = do
    stask ← resume_task_immediately run_green stask task
    return (stask, true)
  on_message stask (some wake) = do modify λ s. record s { sleepy = false }; return (stask, true)
  on_message stask (some shutdown) = do
    s ← this
    m ← memory
    if s.sleepy then wake_all m.sleepers else return tt
    modify λ s. record s { no_sleep = true; sleepy = false }
    return (stask, true)
  on_message stask (some (new_neighbor neighbor)) = do
    modify λ s. record s { work_queues = s.work_queues ++ neighbor ∷ [] }
    return (stask, false)

  unfoldable pub interpret_message_queue : GreenTask → EffortLevel → M (GreenTask × Bool)
  interpret_message_queue stask effort = do msg ← pop_message effort; on_message stask msg

  abbrev pub run_found : GreenTask → Option GreenTask → M (GreenTask × Bool)
  run_found stask none = return (stask, false)
  run_found stask (some task) = do stask ← process stask task; return (stask, true)

  unfoldable pub do_work : GreenTask → M (GreenTask × Bool)
  do_work stask = do found ← find_work; run_found stask found

  -- One pass of the `while` loop: work, then a message; the answer is the new `did_work`.
  unfoldable pub work_round : GreenTask → M (GreenTask × Bool)
  work_round stask = do
    (stask, worked) ← do_work stask
    (stask, handled) ← interpret_message_queue stask give_it_your_best
    return (stask, worked || handled)

  -- `none` means that the fuel ran out; `did_work` is the flag before the loop.
  unfoldable pub work_loop : ℕ → Bool → GreenTask → Bool → M (Option (GreenTask × Bool))
  work_loop fuel false stask did_work = return (some (stask, did_work))
  work_loop zero true stask did_work = return none
  work_loop (suc fuel) true stask did_work = do
    (stask, worked) ← work_round stask
    m ← memory
    work_loop fuel (worked && not m.active_io) stask worked

  unfoldable pub run_sched_once : ℕ → GreenTask → M (Option (Unit {0}))
  run_sched_once fuel stask = do
    s ← this
    assert_that (not (is_some s.sched_task))
    set_idle true
    (stask, did_work) ← interpret_message_queue stask dont_try_too_hard
    m ← memory
    ended ← work_loop fuel (not did_work || not m.active_io) stask did_work
    finish_once ended
