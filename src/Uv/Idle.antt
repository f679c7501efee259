-- ===== src/Uv/Idle.antt =====
-- librustuv/src/idle.rs: a handle whose callback runs while there is nothing else to do, and `callback`
-- of librustuv/src/event_loop.rs, which uses one once. Callbacks go by ids.
use green_rs.Prelude.{ℕ, Bool, true, false, Option, none, some, if◌then◌else◌}

pub record Idle : Type 0 where
  pub callback : ℕ
  pub started : Bool
  pub closed : Bool

unfoldable pub new_on : ℕ → Idle
new_on cb = record { callback = cb; started = false; closed = false }

unfoldable pub pause : Idle → Idle
pause i = record i { started = false }

unfoldable pub resume : Idle → Idle
resume i = record i { started = true }

-- What libuv calls in an iteration of its loop.
unfoldable pub idle_cb : Idle → Option ℕ
idle_cb i = if i.started then some i.callback else none

unfoldable pub drop_idle : Idle → Idle
drop_idle i = record i { started = false; closed = true }

-- `callback` of the event loop, and its `onetime`, which closes the handle and then calls.
unfoldable pub callback : ℕ → Idle
callback f = record { callback = f; started = true; closed = false }

unfoldable pub onetime : Idle → Idle × ℕ
onetime i = (record i { started = false; closed = true }, i.callback)
