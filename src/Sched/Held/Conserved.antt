-- ===== src/Sched/Held/Conserved.antt =====
-- What runs of libgreen/src/sched.rs that return do to the count of a task.
use green_rs.Prelude.{ℕ, ◌+◌, ◌≡◌, Bool, Option, some, List, ok}
use green_rs.Task.{GreenTask}
use green_rs.Sched.World.{World, M, BlockedTask, Local, vacant, green_task}
use green_rs.Sched.Logic.{After-ok}
use green_rs.Sched.Work.{find_work}
use green_rs.Sched.Loop.{run_sched_once}
use green_rs.Sched.Green.{yield_green, terminate, deschedule}
use green_rs.Sched.Held.{is_task, Holds, Took}
use green_rs.Sched.Held.Swaps.{GreenKeeps}
use green_rs.Sched.Held.Moves.{find_work-Took}
use green_rs.Sched.Held.Once.{Parked, run_sched_once-Parked}
use green_rs.Sched.Held.Leaves.{yield_green-Took, terminate-Took, deschedule-Took}

-- If the green tasks neither lose nor double the task with address `a`, then a run of
-- `run_sched_once` that returns holds it exactly as often as before, with the scheduler task that the run
-- was given, and no cleanup job waits; a green task is in the local slot then.
pub run_sched_once-Holds :
    (a k : ℕ) (run_green : M GreenTask) (fuel : ℕ) (stask : GreenTask) (w w' : World)
    → GreenKeeps a run_green
    → Holds a k vacant w
    → run_sched_once run_green fuel stask w ≡ ok (some tt, w')
    → (b : BlockedTask) × Holds a (k + is_task a stask) (green_task b) w'
run_sched_once-Holds a k run_green fuel stask w w' keeps h e =
    After-ok (Parked a (k + is_task a stask)) e (run_sched_once-Parked run_green fuel stask keeps h)

-- What a search for work finds, it takes from where the task was held; all else stays held.
pub find_work-Holds :
    (a k : ℕ) (l : Local) (w w' : World) (found : Option GreenTask)
    → Holds a k l w
    → find_work w ≡ ok (found, w')
    → Took a k l found w'
find_work-Holds a k l w w' found h e = After-ok (Took a k l) e (find_work-Took h)

-- After a yield that returns, each task is held as often as before, the one that yielded included,
-- with the task that is now in hand, and no cleanup job waits.
pub yield_green-Holds :
    (a k : ℕ) (cur stask : GreenTask) (w w' : World)
    → Holds a k vacant w
    → yield_green cur w ≡ ok (stask, w')
    → Took a (k + is_task a cur) vacant (some stask) w'
yield_green-Holds a k cur stask w w' h e =
    After-ok (λ t. Took a (k + is_task a cur) vacant (some t)) e (yield_green-Took cur h)

-- After the end of a task, each task is held as often as before outside the task that ended, with
-- the task that is now in hand, and no cleanup job waits.
pub terminate-Holds :
    (a k : ℕ) (cur stask : GreenTask) (w w' : World)
    → Holds a k vacant w
    → terminate cur w ≡ ok (stask, w')
    → Took a k vacant (some stask) w'
terminate-Holds a k cur stask w w' h e =
    After-ok (λ t. Took a k vacant (some t)) e (terminate-Took cur h)

-- After a task has blocked, for one handle or several and whatever the closure answers, each task is
-- held as often as before, the one that blocked included, with the task that is now in hand, and no
-- cleanup job waits.
pub deschedule-Holds :
    (a k : ℕ) (answers : List Bool) (first : Bool) (cur stask : GreenTask) (w w' : World)
    → Holds a k vacant w
    → deschedule answers first cur w ≡ ok (stask, w')
    → Took a (k + is_task a cur) vacant (some stask) w'
deschedule-Holds a k answers first cur stask w w' h e =
    After-ok (λ t. Took a (k + is_task a cur) vacant (some t)) e
      (deschedule-Took answers first cur h)
