-- ===== src/Sched/Idle.antt =====
-- A scheduler of libgreen/src/sched.rs that finds no work.
pub mod Asleep
use native.Mathlib.Nat.{mod-lt}
use green_rs.Prelude.{
  ℕ, zero, suc, ◌+◌, ◌%◌, ◌<◌, ◌≡◌, refl, Bool, true, false, not, ◌&&◌, ◌||◌, Option, none, some,
  List, [], ◌∷◌, ◌++◌, arith, Result, ok, fault, is_some, length, ltb, get_elem?, update, ==_refl,
  if◌then◌else◌,
}
use green_rs.MessageQueue.{Queue, empty, pop, casual_pop}
use green_rs.SleeperList
use green_rs.SleeperList.{capacity}
use green_rs.Task.{GreenTask, StdTask, swap}
use green_rs.Sched.World.{
  World, M, SchedMessage, lift, assert_that, ◌>>◌, ◌>>=◌, rand, make_handle, handle_of, green_task,
}
use green_rs.Sched.Work.{
  find_work, find_local, pop_work, try_steals, gen_range, steal, steal_rounds, oldest,
}
use green_rs.Sched.Switch.{put_with_sched, put}
use green_rs.Sched.Loop.{
  EffortLevel, dont_try_too_hard, give_it_your_best, pop_message, pop_with, data_or_none,
  on_message, interpret_message_queue, do_work, work_round, work_loop, set_idle, go_to_sleep,
  finish_once, run_sched_once,
}
use green_rs.Sched.Ends.{
  Ends, Ends-bind, Ends-if, Ends-then, Ends-assert, Ends-lift, Ends-mono, Ends-ok,
}

-- No deque holds a task, no message waits, and the scheduler may go to sleep; `base` is where it
-- began.
pub record IsIdle (base w : World) : Type 0 where
  pub deques : (q : ℕ) → w.mem.deques q ≡ []
  pub items : (w.mem.inboxes w.sched.message_queue).items ≡ []
  pub unlinked : (w.mem.inboxes w.sched.message_queue).unlinked ≡ []
  pub queues : 0 < length w.sched.work_queues
  pub polled : is_some w.sched.idle_callback ≡ true
  pub room : length w.mem.sleepers < capacity
  pub awake : w.sched.sleepy ≡ false
  pub stays : w.sched.no_sleep ≡ false
  pub own : w.sched.sched_task ≡ none
  pub handle : handle_of w.sched ≡ handle_of base.sched
  pub sleepers : w.mem.sleepers ≡ base.mem.sleepers

get_elem?-lt {ℓ} :
    {A : Type ℓ} (xs : List A) (i : ℕ) → i < length xs → (x : A) × (get_elem? xs i ≡ some x)
get_elem?-lt [] i h = absurd (omega arith)
get_elem?-lt (x ∷ xs) zero h = (x, refl)
get_elem?-lt (x ∷ xs) (suc i) h = get_elem?-lt xs i (omega arith)

-- The call finds nothing, and the scheduler is as idle as before.
abbrev pub Nothing {ℓ} : {A : Type ℓ} → World → Option A → World → Type ℓ
Nothing base r w = (r ≡ none) × IsIdle base w

pop-empty : (q : Queue SchedMessage) → q.items ≡ [] → q.unlinked ≡ [] → pop q ≡ (empty, q)
unfolding pop
pop-empty q e f = ground (arith, e, f)

pop_with-empty :
    (effort : EffortLevel) (q : Queue SchedMessage)
    → q.items ≡ []
    → q.unlinked ≡ []
    → pop_with effort q ≡ (none, q)
unfolding pop_with data_or_none casual_pop
pop_with-empty dont_try_too_hard q e f = ground (arith, pop-empty q e f)
pop_with-empty give_it_your_best q e f = ground (arith, pop-empty q e f)

module _ {base : World} where
  deque-IsIdle :
      (w : World) (q : ℕ) (tasks : List GreenTask)
      → tasks ≡ []
      → IsIdle base w
      → IsIdle base (record w { mem = record w.mem { deques = update w.mem.deques q tasks } })
  deque-IsIdle w q tasks e h = record {
    deques = λ r. ground (arith, e, h.deques r);
    items = h.items;
    unlinked = h.unlinked;
    queues = h.queues;
    polled = h.polled;
    room = h.room;
    awake = h.awake;
    stays = h.stays;
    own = h.own;
    handle = h.handle;
    sleepers = h.sleepers;
  }

  inbox-IsIdle :
      (w : World) (q : Queue SchedMessage)
      → q.items ≡ []
      → q.unlinked ≡ []
      → IsIdle base w
      → IsIdle base (record w {
        mem = record w.mem { inboxes = update w.mem.inboxes w.sched.message_queue q };
      })
  inbox-IsIdle w q e f h = record {
    deques = h.deques;
    items = rw ==_refl e;
    unlinked = rw ==_refl f;
    queues = h.queues;
    polled = h.polled;
    room = h.room;
    awake = h.awake;
    stays = h.stays;
    own = h.own;
    handle = h.handle;
    sleepers = h.sleepers;
  }

  steal-Nothing : (q : ℕ) (w : World) → IsIdle base w → Ends (steal q w) (Nothing base)
  unfolding steal oldest
  steal-Nothing q w h = by_race (w.mem.contended q) refl
    where
      by_race : (lost : Bool) → w.mem.contended q ≡ lost → Ends (steal q w) (Nothing base)
      by_race true e = rw (steal, e) (refl, h)
      by_race false e = rw (steal, e, h.deques q, oldest) (refl, deque-IsIdle w q [] refl h)

  pop_work-Nothing : (w : World) → IsIdle base w → Ends (pop_work w) (Nothing base)
  unfolding pop_work
  pop_work-Nothing w h =
      rw (h.deques w.sched.work_queue) (refl, deque-IsIdle w w.sched.work_queue [] refl h)

  pub pop_message-Nothing :
      (effort : EffortLevel) (w : World)
      → IsIdle base w
      → Ends (pop_message effort w) (Nothing base)
  unfolding pop_message
  pop_message-Nothing effort w h =
      let own : Queue SchedMessage = w.mem.inboxes w.sched.message_queue in
      rw (pop_with-empty effort own h.items h.unlinked)
        (refl, inbox-IsIdle w own h.items h.unlinked h)

  steal_rounds-Nothing :
      (rounds i : ℕ) (queues : List ℕ) (w : World)
      → 0 < length queues
      → IsIdle base w
      → Ends (steal_rounds rounds i queues w) (Nothing base)
  unfolding steal_rounds
  steal_rounds-Nothing zero i queues w some_queue h = (refl, h)
  steal_rounds-Nothing (suc rounds) i queues w some_queue h =
      let (q, e) = get_elem?-lt queues (i % length queues) (mod-lt i some_queue) in
      rw (steal_rounds, e)
        (Ends-bind (Nothing base) (Nothing base) (steal q) _ w (steal-Nothing q w h)
          λ r w' p. rw p.0 (steal_rounds-Nothing rounds (i + 1) queues w' some_queue p.1))

  gen_range-ends :
      (n : ℕ) (w : World) → 0 < n → IsIdle base w → Ends (gen_range n w) (λ _. IsIdle base)
  unfolding gen_range rand
  gen_range-ends zero w some_queue h = absurd (omega arith)
  gen_range-ends (suc n) w some_queue h = ground (arith, h)

  try_steals-Nothing : (w : World) → IsIdle base w → Ends (try_steals w) (Nothing base)
  unfolding try_steals
  try_steals-Nothing w h =
      let queues : List ℕ = w.sched.work_queues in
      Ends-bind (Nothing base) (λ _. IsIdle base) (gen_range (length queues)) _ w
        (gen_range-ends (length queues) w h.queues h)
        λ start w' h'. steal_rounds-Nothing (length queues) start queues w' h.queues h'

  find_local-Nothing : (w : World) → IsIdle base w → Ends (find_local w) (Nothing base)
  unfolding find_local
  find_local-Nothing w h =
      Ends-bind (Nothing base) (Nothing base) pop_work _ w (pop_work-Nothing w h)
        λ r w' p. rw p.0 (try_steals-Nothing w' p.1)

  pub find_work-Nothing : (w : World) → IsIdle base w → Ends (find_work w) (Nothing base)
  unfolding find_work
  find_work-Nothing w h =
      Ends-if (Nothing base) (not w.sched.steal_for_yield) find_local _ w (find_local-Nothing w h) (
        Ends-bind (Nothing base) (Nothing base) try_steals _ cleared
          (try_steals-Nothing cleared (ground (arith, h)))
          λ r w' p. rw p.0 (find_local-Nothing w' p.1))
    where
      cleared : World
      cleared = record w { sched = record w.sched { steal_for_yield = false } }
