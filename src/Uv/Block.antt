-- ===== src/Uv/Block.antt =====
-- `block` and `wakeup` of librustuv/src/lib.rs, and `has_active_io` of librustuv/src/event_loop.rs.
-- The data pointer of an event loop counts the tasks that are blocked on it.
pub mod Overlap
use green_rs.Prelude.{ℕ, ◌+◌, Bool, Option, none, some, Result, ok, fault, assertion, ltb}
use green_rs.Stack.{uint}

-- `block` until the task is descheduled: the count that it keeps, and the new count.
unfoldable pub block_start : ℕ → ℕ × ℕ
block_start cnt = (cnt, uint (cnt + 1))

-- `block` after the task has been reawakened, with the count that it has kept.
unfoldable pub block_end : (kept now : ℕ) → ℕ
block_end kept now = kept

-- The task that is reawakened, and the slot.
unfoldable pub wakeup : Option ℕ → Result (ℕ × Option ℕ)
wakeup none = fault assertion
wakeup (some task) = ok (task, none)

unfoldable pub has_active_io : ℕ → Bool
has_active_io cnt = ltb 0 cnt
