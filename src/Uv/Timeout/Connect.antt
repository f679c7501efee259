-- ===== src/Uv/Timeout/Connect.antt =====
-- `ConnectCtx` of librustuv/src/timeout.rs: a connection that a task waits for, with a timeout. All
-- callbacks run on the thread of one event loop.
pub mod Waits
use green_rs.Prelude.{
  ℕ, Bool, true, false, Option, none, some, Result, ok, fault, abort, if◌then◌else◌, is_some, ℤ,
  pos, negsuc, ◌==ℤ◌, ◌==◌,
}
use green_rs.Uv.Block.{wakeup}
use green_rs.Uv.Stream.{UvResult, uv_ok, uv_err}

-- The timer is `some` of whether libuv still has to fire it.
pub record ConnectCtx : Type 0 where
  pub status : ℤ
  pub task : Option ℕ
  pub timer : Option Bool

unfoldable pub new : ConnectCtx
new = record { status = negsuc 0; task = none; timer = none }

-- The context in the frame of `connect`, whether that runs, whether the request's data point to the
-- context or are null, and whether the request has been freed.
pub record Connecting : Type 0 where
  pub context : ConnectCtx
  pub runs : Bool
  pub attached : Bool
  pub freed : Bool

abbrev is_positive : ℤ → Bool
is_positive (pos n) = if n == 0 then false else true
is_positive (negsuc n) = false

-- `connect` until its task blocks. `send` is the error of the request, if it has one, and the timeout
-- is in milliseconds; `canceled` is libuv's ECANCELED.
unfoldable pub connect_begin :
    (canceled : ℤ)
    → (send : Option ℤ) → (timeout : Option ℤ) → (task : ℕ)
    → Connecting × Option (UvResult (Unit {0}))
unfolding new
connect_begin canceled (some e) timeout task =
    (record { context = new; runs = false; attached = false; freed = true }, some (uv_err e))
connect_begin canceled none (some t) task =
    if is_positive t
    then (
      record {
        context = record new { task = some task; timer = some true };
        runs = true;
        attached = true;
        freed = false;
      },
      none,
    )
    else (
      record { context = new; runs = false; attached = true; freed = false },
      some (uv_err canceled),
    )
connect_begin canceled none none task = (
  record { context = record new { task = some task }; runs = true; attached = true; freed = false },
  none,
)

-- `connect` after its task has been reawakened.
unfoldable pub connect_end : Connecting → Connecting × UvResult (Unit {0})
connect_end c = (
  record c { runs = false; attached = false },
  if c.context.status ==ℤ pos 0 then uv_ok tt else uv_err c.context.status,
)

-- The timer has fired, and is not started again.
unfoldable pub timer_cb : ℤ → Connecting → Result (Connecting × Option ℕ)
unfolding wakeup
timer_cb canceled c = elim (wakeup c.context.task) [
  | fault e ↦ fault e
  | ok (task, slot) ↦ ok (
    record c { context = record { status = canceled; task = slot; timer = some false } },
    some task,
  )
]

abbrev stop : Option Bool → Option Bool
stop none = none
stop (some started) = some false

-- To write to the context of a `connect` that has returned is an error of memory.
unfoldable pub connect_cb : (canceled status : ℤ) → Connecting → Result (Connecting × Option ℕ)
connect_cb canceled status c =
    if status ==ℤ canceled
    then ok (record c { freed = true }, none)
    else if c.attached
    then if c.runs
      then ok (
        record c {
          context = record { status = status; task = none; timer = stop c.context.timer };
          freed = true;
        },
        c.context.task,
      )
      else fault abort
    else ok (record c { freed = true }, none)
