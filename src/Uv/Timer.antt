-- ===== src/Uv/Timer.antt =====
-- librustuv/src/timer.rs: a timer and the action that it takes when it fires. Tasks and callbacks go
-- by ids. All code here runs on the timer's event loop, so that a call is one step.
pub mod Requests
pub mod Actions
use green_rs.Prelude.{
  ℕ, ◌+◌, Bool, true, false, Option, none, some, Result, ok, fault, assertion, unwrap, ◌==◌,
  if◌then◌else◌,
}
use green_rs.Stack.{uint}

pub data Action : Type 0 where
  wake_task call_once : ℕ → Action
  -- the callback, and the timer's id when it was set
  call_many : ℕ → ℕ → Action

-- A timer with its `Data`. `started` are the delay and the period for which libuv's timer was last
-- started, if it has not been stopped since.
pub record Timer : Type 0 where
  pub action : Option Action
  pub id : ℕ
  pub started : Option (ℕ × ℕ)
  pub closing : Bool

unfoldable pub new : Timer
new = record { action = none; id = 0; started = none; closing = false }

-- Durations are in milliseconds; a negative one counts as 0. `sleep` up to where its task blocks:
-- the earlier action has been taken by the time of the assertion.
unfoldable pub sleep : (ms task : ℕ) → Timer → Timer
sleep ms task t = record t {
  action = some (wake_task task);
  id = uint (t.id + 1);
  started = some (ms, 0);
}

unfoldable pub oneshot : (ms callback : ℕ) → Timer → Timer
oneshot ms callback t = record t {
  action = some (call_once callback);
  id = uint (t.id + 1);
  started = some (ms, 0);
}

unfoldable pub periodic : (ms callback : ℕ) → Timer → Timer
periodic ms callback t =
    let period : ℕ = if ms == 0 then 1 else ms in
    let id = uint (t.id + 1) in
    record t { action = some (call_many callback id); id = id; started = some (period, period) }

unfoldable pub drop_timer : Timer → Timer
drop_timer t = record t { action = none; id = uint (t.id + 1); started = none; closing = true }

-- The end of `CallMany`.
unfoldable pub restore : (callback id : ℕ) → Timer → Timer
restore callback id t = if t.id == id then record t { action = some (call_many callback id) } else t

-- `call` is what a callback does to this timer. The task that is reawakened comes with the timer.
run_action : (ℕ → Timer → Timer) → Option Action → Timer → Result (Timer × Option ℕ)
unfolding restore
run_action call none t = fault unwrap
run_action call (some (wake_task task)) t = ok (t, some task)
run_action call (some (call_once callback)) t = ok (call callback t, none)
run_action call (some (call_many callback id)) t = ok (restore callback id (call callback t), none)

unfoldable pub timer_cb : (ℕ → Timer → Timer) → Timer → Result (Timer × Option ℕ)
unfolding run_action
timer_cb call t = run_action call t.action (record t { action = none })

-- The callback of `close`, which frees the timer.
unfoldable pub close_cb : Timer → Result (Unit {0})
close_cb t = elim t.action [ none ↦ ok tt | some _ ↦ fault assertion ]
