-- ===== src/Uv/Homing.antt =====
-- librustuv/src/homing.rs: the way of a task to the event loop of a handle, and the check on its way
-- back.
pub mod Arrives
use green_rs.Prelude.{
  ℕ, ◌==◌, Bool, true, false, Option, none, some, Result, ok, fault, assertion, unwrap,
  if◌then◌else◌, then_ok, ℤ, pos,
}
use green_rs.Uv.Stream.{UvResult, uv_ok, uv_err}
use green_rs.Uv.EventLoop.{LocalLoop, borrow_raw}
use green_rs.Uv.QueuePool
use green_rs.Uv.QueuePool.{QueuePool}

-- `none` is `Err`, which is unwrapped.
abbrev unwrap_uv : UvResult ℕ → Result ℕ
unwrap_uv (uv_ok p) = ok p
unwrap_uv (uv_err e) = fault unwrap

unfoldable pub local_id : LocalLoop → Result ℕ
unfolding borrow_raw
local_id l = unwrap_uv (borrow_raw (pos 0) l)

-- `go_home` until the task goes on or blocks: whether it is at home, and the queue of the home loop.
unfoldable pub go_home : (destination task : ℕ) → LocalLoop → QueuePool → Result (Bool × QueuePool)
go_home destination task l pool = then_ok (local_id l) (λ cur_loop_id.
    ok (if cur_loop_id == destination then (true, pool) else (false, QueuePool.push task pool)))

-- `go_home` after the task has been reawakened, on some thread.
unfoldable pub arrive : ℕ → LocalLoop → Result ℕ
arrive destination l =
    then_ok (local_id l)
      (λ cur_loop_id. if cur_loop_id == destination then ok destination else fault assertion)

-- `check` of a missile, and its drop, which checks.
unfoldable pub check : ℕ → LocalLoop → Result (Unit {0})
check io_home l =
    then_ok (local_id l) (λ cur_loop_id. if cur_loop_id == io_home then ok tt else fault assertion)
