-- ===== src/Sched/Held/Once.antt =====
-- The count of a task through `run_sched_once` of libgreen/src/sched.rs.
use green_rs.Prelude.{
  ℕ, ◌+◌, not, ◌&&◌, ◌||◌, Bool, true, false, Option, none, some, List, arith, is_some, unwrap,
}
use green_rs.SleeperList
use green_rs.Task.{GreenTask, SchedHandle}
use green_rs.Sched.World.{World, M, BlockedTask, Local, vacant, green_task, make_handle}
use green_rs.Sched.Logic.{After, After-bind, After-if, After-lift, After-expect, After-assert}
use green_rs.Sched.Switch.{put_with_sched}
use green_rs.Sched.Loop.{
  dont_try_too_hard, interpret_message_queue, work_loop, set_idle, go_to_sleep, finish_once,
  run_sched_once,
}
use green_rs.Sched.Held.{is_task, Holds, Took}
use green_rs.Sched.Held.Swaps.{GreenKeeps, put-Holds}
use green_rs.Sched.Held.Cycle.{InHand, EndedInHand, Took-rest, interpret-InHand, work_loop-InHand}

-- The scheduler task is back in the local slot.
abbrev pub Parked : ℕ → ℕ → Option (Unit {0}) → World → Type 0
Parked a k none w = Unit
Parked a k (some _) w = (b : BlockedTask) × Holds a k (green_task b) w

module _ {a k : ℕ} where
  set_idle-Holds :
      (active : Bool) {l : Local} {w : World}
      → Holds a k l w
      → After (set_idle active w) (λ _. Holds a k l)
  unfolding set_idle
  set_idle-Holds active {w} h =
      After-expect _ unwrap w.sched.idle_callback _ w λ _ _. ground (arith, h)

  go_to_sleep-Holds :
      {l : Local} {w : World} → Holds a k l w → After (go_to_sleep w) (λ _. Holds a k l)
  unfolding go_to_sleep SleeperList.push make_handle
  go_to_sleep-Holds {l} {w} h =
      After-if _ (not w.sched.sleepy && not w.sched.no_sleep) _ (set_idle false) w
        (λ _.
          After-lift _ (SleeperList.push _ w.mem.sleepers) _ _
            λ sleepers _. set_idle-Holds false {l = l} {w = asleep w sleepers} (ground (arith, h)))
        (λ _. set_idle-Holds false h)
    where
      asleep : World → List SchedHandle → World
      asleep w sleepers = record w {
        sched = record w.sched { sleepy = true };
        mem = record w.mem { sleepers = sleepers };
      }

  put_with_sched-Parked :
      (stask : GreenTask) {w : World}
      → Took a k vacant (some stask) w
      → After (put_with_sched stask w) (λ _ w'. (b : BlockedTask) × Holds a k (green_task b) w')
  unfolding put_with_sched
  put_with_sched-Parked stask {w} h =
      let (rest, e, held) = Took-rest stask h in
      After-assert _ (not (is_some stask.sched)) _ w
        λ _. rw (← e) (put-Holds (record stask { sched = some w.sched.sched_id }) held)

finish_once-Parked :
    (a k : ℕ) (ended : Option (GreenTask × Bool)) (w : World)
    → EndedInHand a k ended w
    → After (finish_once ended w) (Parked a k)
unfolding finish_once
finish_once-Parked a k none w h = tt
finish_once-Parked a k (some (stask, true)) w h =
    After-bind _ (λ _ w'. (b : BlockedTask) × Holds a k (green_task b) w') (put_with_sched stask) _
      w (put_with_sched-Parked stask h) λ _ w' p. p
finish_once-Parked a k (some (stask, false)) w h =
    let (rest, e, held) = Took-rest stask h in
    After-bind _ (λ _. Holds a rest vacant) go_to_sleep _ w (go_to_sleep-Holds held)
      λ _ w₁ h₁.
        let back : Took a k vacant (some stask) w₁ = ground (arith, h₁, e) in
        After-bind _ (λ _ w'. (b : BlockedTask) × Holds a k (green_task b) w')
          (put_with_sched stask) _ w₁ (put_with_sched-Parked stask back) λ _ w₂ p. p

-- If the green tasks neither lose nor double the task with address `a`, then a run of
-- `run_sched_once` that returns holds it exactly as often as before, the scheduler task included,
-- which is back in the local slot, and no cleanup job waits.
pub run_sched_once-Parked :
    {a k : ℕ} (run_green : M GreenTask) (fuel : ℕ) (stask : GreenTask) {w : World}
    → GreenKeeps a run_green
    → Holds a k vacant w
    → After (run_sched_once run_green fuel stask w) (Parked a (k + is_task a stask))
unfolding run_sched_once
run_sched_once-Parked {a} {k} run_green fuel stask {w} keeps h =
    After-assert _ (not (is_some w.sched.sched_task)) _ w λ _.
      After-bind _ (λ _. Holds a k vacant) (set_idle true) _ w (set_idle-Holds true h)
        λ _ w₁ h₁.
          After-bind _ (InHand a (k + is_task a stask))
            (interpret_message_queue run_green stask dont_try_too_hard) _ w₁
            (interpret-InHand run_green keeps stask dont_try_too_hard h₁)
            λ r w₂ h₂.
              After-bind _ (EndedInHand a (k + is_task a stask))
                (work_loop run_green fuel (not r.1 || not w₂.mem.active_io) r.0 r.1) finish_once w₂
                (work_loop-InHand run_green keeps fuel (not r.1 || not w₂.mem.active_io) r.0 r.1 h₂)
                λ ended w₃ h₃. finish_once-Parked a (k + is_task a stask) ended w₃ h₃
