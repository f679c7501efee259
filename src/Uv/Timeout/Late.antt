-- ===== src/Uv/Timeout/Late.antt =====
-- Timeouts of librustuv/src/timeout.rs that fire for a task that has been reawakened already, but
-- has not run yet.
use green_rs.Prelude.{ℕ, ◌≡◌, true, Option, some, [], ◌∷◌, ok, fault, unreachable, arith, ℤ}
use green_rs.Uv.Access.{Inner, release, dequeue}
use green_rs.Uv.Block.{wakeup}
use green_rs.Uv.Stream.{Reading, read_cb, cancel_read}
use green_rs.Uv.Timeout.{AccessTimeout, timeout_pending, access_pending, request_pending, timer_cb}

-- Once libuv has reported to a read, the timeout of that read panics if it fires before the reader
-- has run: there is no task to reawaken.
pub read_cb-timer_cb {ℓ} :
    {A : Type ℓ} (canceled reason n : ℤ) (r r' : Reading) (task token payload : ℕ)
    (t : AccessTimeout) (i : Inner A)
    → r.attached ≡ true
    → read_cb canceled n r ≡ ok (r', task)
    → t.state ≡ timeout_pending request_pending
    → t.payload ≡ some payload
    → timer_cb (λ _. (cancel_read reason r').1) token t i ≡ fault unreachable
unfolding read_cb cancel_read timer_cb wakeup
read_cb-timer_cb canceled reason n r r' task token payload t i attached e pending given =
    ground (arith, attached, e, pending, given)

-- Once a guard's drop has handed the access over to the only task that waits for it, the timeout of
-- that task panics if it fires before the task has run.
pub release-timer_cb {ℓ} :
    {A : Type ℓ} (unblock : ℕ → Option ℕ) (task token : ℕ) (t : AccessTimeout) (i : Inner A)
    → i.queue ≡ record { task = task; token = token } ∷ []
    → t.state ≡ timeout_pending access_pending
    → ((release i).0 ≡ some task) × (timer_cb unblock token t (release i).1 ≡ fault unreachable)
unfolding release timer_cb dequeue
release-timer_cb unblock task token t i alone pending =
    (ground (arith, alone), ground (arith, alone, pending))
