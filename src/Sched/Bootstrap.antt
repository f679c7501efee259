-- ===== src/Sched/Bootstrap.antt =====
-- The start and the end of a scheduler: `bootstrap` and `run` of libgreen/src/sched.rs.
use green_rs.Prelude.{
  ℕ, ◌≡◌, refl, Bool, true, false, Option, none, some, Result, ok, fault, unwrap, update,
}
use green_rs.MessageQueue
use green_rs.MessageQueue.{PopResult, item, inconsistent, empty}
use green_rs.Task.{GreenTask, StdTask, type_sched, coroutine_empty, new_typed, convert}
use green_rs.Sched.World.{
  M, ◌>>=◌, ◌>>◌, return, lift, expect, assert_that, this, modify, memory, modify_memory, World,
  green_task, vacant,
}
use green_rs.Sched.Switch.{put_with_sched, take_sched}
use green_rs.Sched.Loop.{set_idle}
use green_rs.Sched.Green.{local_green}

unfoldable pub is_empty {ℓ} : {A : Type ℓ} → PopResult A → Bool
is_empty empty = true
is_empty (item _) = false
is_empty inconsistent = false

-- `event_loop` is what a run of the event loop does.
module _ (event_loop : M (Unit {0})) where
  unfoldable pub run : GreenTask → M GreenTask
  run stask = do
    put_with_sched stask
    event_loop
    t ← λ w. local_green w.local w
    λ w. ok (tt, record w { local = vacant })
    lift (convert t)

  -- The end of `bootstrap`, after the second run.
  abbrev pub stopped : GreenTask → M (Unit {0})
  stopped stask = do
    s ← this
    m ← memory
    let (message, rest) = MessageQueue.pop (m.inboxes s.message_queue)
    modify_memory λ m. record m { inboxes = update m.inboxes s.message_queue rest }
    assert_that (is_empty message)
    _ ← expect unwrap stask.task
    return tt

  -- `bootstrap` from where it closes the idle callback.
  unfoldable pub close_idle : GreenTask → M (Unit {0})
  close_idle stask = do
    stask ← take_sched stask
    modify λ s. record s { idle_callback = none }
    stask ← run stask
    stopped stask

  -- The task's address is that of the scheduler's own task; `active` is whether the event loop makes an
  -- idle callback that is active from the start.
  unfoldable pub bootstrap : (active : Bool) (address : ℕ) → M (Unit {0})
  bootstrap active address = do
    modify λ s. record s { idle_callback = some active }
    set_idle true
    stask ← run (new_typed address (some coroutine_empty) type_sched)
    close_idle stask

abbrev std : StdTask
std = record { name = none; on_exit = none }

abbrev pub stask_at : ℕ → GreenTask
stask_at address = new_typed address (some coroutine_empty) type_sched

abbrev pub with_idle : Option Bool → World → World
with_idle active w = record w { sched = record w.sched { idle_callback = active } }

new_sched : (address : ℕ) → (stask_at address).sched ≡ none
unfolding new_typed
new_sched address = refl

abbrev pub popped : World → World
popped w = record w {
  mem = record w.mem {
    inboxes =
        update w.mem.inboxes w.sched.message_queue
          (MessageQueue.pop (w.mem.inboxes w.sched.message_queue)).1;
  };
}

-- No message is left.
abbrev pub is_done : World → Bool
is_done w = is_empty (MessageQueue.pop (w.mem.inboxes w.sched.message_queue)).0

-- The world in which the loop runs.
abbrev within : StdTask → GreenTask → World → World
within task stask w = record w {
  local = green_task (task, record stask { sched = some w.sched.sched_id; task = none });
}

-- An event loop, and the world after a run of it.
module _ (g : World → World) where
  abbrev pub loop : M (Unit {0})
  loop w = ok (tt, g w)

  abbrev pub after_run : ℕ → World → World
  after_run address w = record (g (within std (stask_at address) w)) { local = vacant }

-- A run of an event loop that leaves the local task in its slot.
module _ (g : World → World) (keeps : (w : World) → (g w).local ≡ w.local) where
  abbrev then_go :
      (GreenTask → M (Unit {0})) → Result (GreenTask × World) → Result (Unit {0} × World)
  then_go f (ok (stask, w)) = f stask w
  then_go f (fault e) = fault e
