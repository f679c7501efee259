-- ===== src/TaskState.antt =====
-- `TaskState` of libgreen/src/lib.rs: the count of the tasks that run in a pool.
pub mod Shutdown
use green_rs.Prelude.{ℕ, ◌+◌, ◌-◌, ◌^◌, Bool, not, ◌==◌, if◌then◌else◌}
use green_rs.Stack.{uint}

-- `cnt`, and the messages that have been sent on `done`.
pub record TaskState : Type 0 where
  pub cnt : ℕ
  pub done : ℕ

unfoldable pub new : TaskState
new = record { cnt = 0; done = 0 }

-- `fetch_add` and `fetch_sub` wrap.
unfoldable pub increment : TaskState → TaskState
increment s = record s { cnt = uint (s.cnt + 1) }

unfoldable pub active : TaskState → Bool
active s = not (s.cnt == 0)

unfoldable pub decrement : TaskState → TaskState
decrement s = record {
  cnt = uint (s.cnt + 2 ^ 64 - 1);
  done = if s.cnt == 1 then s.done + 1 else s.done;
}
