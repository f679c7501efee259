-- ===== src/Sched/Routing.antt =====
-- libgreen/src/sched.rs: `process_task`, `send_task_home` and `send_to_friend`.
use green_rs.Prelude.{not, Option, none, some, abort, ◌==◌, if◌then◌else◌}
use green_rs.Task.{GreenTask, Home, any_sched, home_sched, SchedHandle, give_home, take_unwrap_home}
use green_rs.Sched.World.{
  M, ◌>>=◌, ◌>>◌, return, lift, fail, this, send, pinned_task, task_from_friend,
}

abbrev pub go_home : Home → GreenTask → M (Unit {0})
go_home any_sched task = fail abort
go_home (home_sched handle) task = send handle (pinned_task task)

unfoldable pub send_task_home : GreenTask → M (Unit {0})
send_task_home task = do (home, task) ← lift (take_unwrap_home task); go_home home task

abbrev pub befriend : Option SchedHandle → GreenTask → M (Unit {0})
befriend none task = fail abort
befriend (some handle) task = send handle (task_from_friend task)

unfoldable pub send_to_friend : GreenTask → M (Unit {0})
send_to_friend task = do s ← this; befriend s.friend_handle task

-- `schedule_fn` switches to the task; where it is sent elsewhere, `stay` is what is returned.
-- Every branch first gives the home back that `process_task` took.
abbrev pub route {ℓ} :
    {A : Type ℓ}
    → (stay : GreenTask → A) (schedule_fn : GreenTask → GreenTask → M A) → GreenTask
    → Home
    → GreenTask
    → M A
route stay schedule_fn cur (home_sched handle) next = do
  s ← this
  if not (handle.sched_id == s.sched_id)
      then (do
        next ← lift (give_home (home_sched handle) next)
        send_task_home next
        return (stay cur))
      else (do next ← lift (give_home (home_sched handle) next); schedule_fn cur next)
route stay schedule_fn cur any_sched next = do
  s ← this
  if s.run_anything
      then (do next ← lift (give_home any_sched next); schedule_fn cur next)
      else (do next ← lift (give_home any_sched next); send_to_friend next; return (stay cur))

unfoldable pub process_task {ℓ} :
    {A : Type ℓ}
    → (stay : GreenTask → A) (schedule_fn : GreenTask → GreenTask → M A) → (cur next : GreenTask)
    → M A
process_task stay schedule_fn cur next = do
  (home, next) ← lift (take_unwrap_home next)
  route stay schedule_fn cur home next
