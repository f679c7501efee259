-- ===== src/Simple.antt =====
-- libgreen/src/simple.rs: a task that blocks its thread. Its own thread and the one that reawakens it
-- take the lock in turn, and each function is cut where the other thread may come in.
pub mod Wakes
use green_rs.Prelude.{
  Bool, true, false, Option, none, some, Result, ok, fault, assertion, ◌==◌, if◌then◌else◌, ℕ,
}

-- Who has the lock, and whether the task's thread is in `wait`, which it leaves when it is signalled.
pub record SimpleTask : Type 0 where
  pub locked : Bool
  pub awoken : Bool
  pub in_wait : Bool

unfoldable pub new : SimpleTask
new = record { locked = false; awoken = false; in_wait = false }

-- `deschedule` up to the call of `f`, once the lock is free.
unfoldable pub begin_deschedule : ℕ → SimpleTask → Result (Option SimpleTask)
begin_deschedule times t =
    if times == 1
    then (if t.locked then ok none else ok (some (record t { locked = true; awoken = false })))
    else fault assertion

-- `f` refuses to block: the guard is dropped.
unfoldable pub refuse : SimpleTask → SimpleTask
refuse t = record t { locked = false }

-- The test of the loop around `wait`, with the lock; the answer is whether `deschedule` ends, which
-- drops the guard. A wait gives the lock up.
unfoldable pub test_awoken : SimpleTask → Bool × SimpleTask
test_awoken t =
    if t.awoken
    then (true, record t { locked = false })
    else (false, record t { locked = false; in_wait = true })

-- `wait` returns, once it has been signalled and the lock is free.
unfoldable pub end_wait : SimpleTask → Option SimpleTask
end_wait t =
    if t.in_wait then none else if t.locked then none else some (record t { locked = true })

-- `reawaken` takes the lock; then it sets the flag, signals and drops the guard.
unfoldable pub begin_reawaken : SimpleTask → Option SimpleTask
begin_reawaken t = if t.locked then none else some (record t { locked = true })

unfoldable pub end_reawaken : SimpleTask → SimpleTask
end_reawaken t = record t { awoken = true; in_wait = false; locked = false }
