-- ===== src/Uv/Async.antt =====
-- librustuv/src/async.rs: a handle that other threads fire, and whose drop tells the callback to close
-- it. libuv keeps whether the handle has been sent since its callback last began.
pub mod Closes
use green_rs.Prelude.{Bool, true, false, not, ◌&&◌, if◌then◌else◌}

pub record Async : Type 0 where
  pub exit_flag : Bool
  pub sent : Bool
  pub closed : Bool

unfoldable pub new : Async
new = record { exit_flag = false; sent = false; closed = false }

unfoldable pub fire : Async → Async
fire a = record a { sent = true }

-- The drop sets the flag and sends under the lock, as one step.
unfoldable pub drop_async : Async → Async
drop_async a = record a { exit_flag = true; sent = true }

-- `async_cb` up to the call of the user's callback, with the flag that it has read under the lock.
unfoldable pub begin_cb : Async → Bool × Async
begin_cb a = (a.exit_flag, record a { sent = false })

-- What follows that call.
unfoldable pub end_cb : Bool → Async → Async
end_cb should_exit a = if should_exit then record a { closed = true } else a
