-- ===== src/Sched/Idle/Asleep.antt =====
-- `run_sched_once` of libgreen/src/sched.rs for a scheduler without work.
use green_rs.Prelude.{
  ℕ, suc, ◌≡◌, refl, Bool, true, false, not, ◌&&◌, Option, none, some, [], ◌∷◌, ◌++◌, arith, ok,
  is_some, length, ltb,
}
use green_rs.SleeperList
use green_rs.SleeperList.{capacity}
use green_rs.Task.{GreenTask, StdTask, swap}
use green_rs.Sched.World.{World, M, make_handle, handle_of}
use green_rs.Sched.Work.{find_work}
use green_rs.Sched.Switch.{put_with_sched, put}
use green_rs.Sched.Loop.{
  EffortLevel, dont_try_too_hard, give_it_your_best, pop_message, on_message,
  interpret_message_queue, do_work, work_round, work_loop, set_idle, go_to_sleep, finish_once,
  run_sched_once,
}
use green_rs.Sched.Ends.{Ends, Ends-bind, Ends-then, Ends-assert, Ends-lift, Ends-mono, Ends-ok}
use green_rs.Sched.Idle.{IsIdle, Nothing, pop_message-Nothing, find_work-Nothing}

-- The scheduler task is in hand, and no work has been done.
abbrev Unworked : World → GreenTask → GreenTask × Bool → World → Type 0
Unworked base stask r w = (r ≡ (stask, false)) × IsIdle base w

module _ {base : World} (run_green : M GreenTask) (stask : GreenTask) where
  interpret-Unworked :
      (effort : EffortLevel) (w : World)
      → IsIdle base w
      → Ends (interpret_message_queue run_green stask effort w) (Unworked base stask)
  unfolding interpret_message_queue on_message
  interpret-Unworked effort w h =
      Ends-bind (Unworked base stask) (Nothing base) (pop_message effort) _ w
        (pop_message-Nothing effort w h) λ r w' p. rw p.0 (refl, p.1)

  do_work-Unworked :
      (w : World) → IsIdle base w → Ends (do_work run_green stask w) (Unworked base stask)
  unfolding do_work
  do_work-Unworked w h =
      Ends-bind (Unworked base stask) (Nothing base) find_work _ w (find_work-Nothing w h)
        λ r w' p. rw p.0 (refl, p.1)

  work_round-Unworked :
      (w : World) → IsIdle base w → Ends (work_round run_green stask w) (Unworked base stask)
  unfolding work_round
  work_round-Unworked w h =
      Ends-bind (Unworked base stask) (Unworked base stask) (do_work run_green stask) _ w
        (do_work-Unworked w h)
        λ r w₁ p. rw p.0 (
          Ends-bind (Unworked base stask) (Unworked base stask)
            (interpret_message_queue run_green stask give_it_your_best) _ w₁
            (interpret-Unworked give_it_your_best w₁ p.1) λ r' w₂ p'. rw p'.0 (refl, p'.1))

-- Asleep: the handle is on the list of sleepers, the idle callback is paused, and the scheduler task
-- is in the local slot.
abbrev pub IsAsleep : World → Option (Unit {0}) → World → Type 0
IsAsleep base r w =
    (r ≡ some tt)
    × (w.sched.sleepy ≡ true)
    × (w.sched.idle_callback ≡ some false)
    × (w.mem.sleepers ≡ base.mem.sleepers ++ handle_of base.sched ∷ [])

abbrev SleepsAs : World → Unit {0} → World → Type 0
SleepsAs base _ w =
    (w.sched.sleepy ≡ true)
    × (w.sched.idle_callback ≡ some false)
    × (w.mem.sleepers ≡ base.mem.sleepers ++ handle_of base.sched ∷ [])

set_idle-ends :
    (active : Bool) (w : World)
    → is_some w.sched.idle_callback ≡ true
    → Ends
        (set_idle active w)
        (λ _ w'. w' ≡ record w { sched = record w.sched { idle_callback = some active } })
unfolding set_idle
set_idle-ends active w h = by_callback w.sched.idle_callback refl
  where
    by_callback :
        (o : Option Bool)
        → w.sched.idle_callback ≡ o
        → Ends
            (set_idle active w)
            (λ _ w'. w' ≡ record w { sched = record w.sched { idle_callback = some active } })
    by_callback none e = absurd (ground (arith, h, e))
    by_callback (some b) e = rw (set_idle, e) refl

go_to_sleep-ends : (base w : World) → IsIdle base w → Ends (go_to_sleep w) (SleepsAs base)
unfolding go_to_sleep make_handle SleeperList.push
go_to_sleep-ends base w h =
    let listed : World = record w {
      sched = record w.sched { sleepy = true };
      mem = record w.mem { sleepers = w.mem.sleepers ++ handle_of w.sched ∷ [] };
    } in
    Ends-then (SleepsAs base) (not w.sched.sleepy && not w.sched.no_sleep) _ (set_idle false) w
      (ground (arith, h.awake, h.stays))
      (Ends-lift (SleepsAs base) (SleeperList.push (handle_of w.sched) w.mem.sleepers) _ _ _
        (rw (SleeperList.push, room) refl)
        (Ends-mono (SleepsAs base) _ (set_idle false listed) (set_idle-ends false listed h.polled)
          λ _ w' e. rw e (refl, refl, rw (h.sleepers, h.handle) refl)))
  where
    room : ltb (length w.mem.sleepers) capacity ≡ true
    room = ground (arith, h.room)

put_with_sched-ends :
    (base w : World) (stask : GreenTask) (std : StdTask)
    → stask.sched ≡ none
    → stask.task ≡ some std
    → SleepsAs base tt w
    → Ends (put_with_sched stask w) (SleepsAs base)
unfolding put_with_sched put swap
put_with_sched-ends base w stask std free has h = rw (free, has) h

finish_once-IsAsleep :
    (base w : World) (stask : GreenTask) (std : StdTask)
    → stask.sched ≡ none
    → stask.task ≡ some std
    → IsIdle base w
    → Ends (finish_once (some (stask, false)) w) (IsAsleep base)
unfolding finish_once
finish_once-IsAsleep base w stask std free has h =
    Ends-bind (IsAsleep base) (SleepsAs base) go_to_sleep _ w (go_to_sleep-ends base w h) λ _ w₁ p.
      Ends-bind (IsAsleep base) (SleepsAs base) (put_with_sched stask) _ w₁
        (put_with_sched-ends base w₁ stask std free has p) λ _ w₂ q. (refl, q.0, q.1, q.2)

work_loop-once :
    (base w : World) (run_green : M GreenTask) (stask : GreenTask) (fuel : ℕ)
    → IsIdle base w
    → Ends
        (work_loop run_green (suc fuel) true stask false w)
        (λ r w'. (r ≡ some (stask, false)) × IsIdle base w')
unfolding work_loop
work_loop-once base w run_green stask fuel h =
    Ends-bind (λ r w'. (r ≡ some (stask, false)) × IsIdle base w') (Unworked base stask)
      (work_round run_green stask) _ w (work_round-Unworked run_green stask w h)
      λ r w' p. rw p.0 (refl, p.1)

-- Let a scheduler be awake and not shutting down, with its scheduler task in hand, with an idle
-- callback, at least one deque that it knows and room on the list of sleepers. If no deque holds a
-- task and no message waits, its pass ends within one unit of fuel, whatever the green tasks would
-- do; it is then asleep, its callback paused and its handle last on the list.
pub run_sched_once-IsAsleep :
    (run_green : M GreenTask) (fuel : ℕ) (stask : GreenTask) (std : StdTask) (w : World)
    → stask.sched ≡ none
    → stask.task ≡ some std
    → IsIdle w w
    → (w' : World) × (run_sched_once run_green (suc fuel) stask w ≡ ok (some tt, w'))
      × (w'.sched.sleepy ≡ true)
      × (w'.sched.idle_callback ≡ some false)
      × (w'.mem.sleepers ≡ w.mem.sleepers ++ handle_of w.sched ∷ [])
unfolding run_sched_once
run_sched_once-IsAsleep run_green fuel stask std w free has h =
    let (r, w', e, asleep) =
      Ends-ok (IsAsleep w) (run_sched_once run_green (suc fuel) stask w) whole in
    (w', rw asleep.0 at e, asleep.1, asleep.2, asleep.3)
  where
    active : World
    active = record w { sched = record w.sched { idle_callback = some true } }

    started : IsIdle w active
    started = ground (arith, h)

    whole : Ends (run_sched_once run_green (suc fuel) stask w) (IsAsleep w)
    whole =
        Ends-assert (IsAsleep w) (not (is_some w.sched.sched_task)) _ w (ground (arith, h.own)) (
          Ends-bind (IsAsleep w) (λ _. IsIdle w) (set_idle true) _ w
            (Ends-mono (λ _. IsIdle w) _ (set_idle true w) (set_idle-ends true w h.polled)
              λ _ w' e. rw e started)
            λ _ w₁ h₁.
              Ends-bind (IsAsleep w) (Unworked w stask)
                (interpret_message_queue run_green stask dont_try_too_hard) _ w₁
                (interpret-Unworked run_green stask dont_try_too_hard w₁ h₁)
                λ r w₂ p. rw p.0 (
                  Ends-bind (IsAsleep w) (λ r w'. (r ≡ some (stask, false)) × IsIdle w w')
                    (work_loop run_green (suc fuel) true stask false) finish_once w₂
                    (work_loop-once w w₂ run_green stask fuel p.1)
                    λ ended w₃ q. rw q.0 (finish_once-IsAsleep w w₃ stask std free has q.1)))
