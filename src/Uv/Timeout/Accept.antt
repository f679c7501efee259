-- ===== src/Uv/Timeout/Accept.antt =====
-- `AcceptTimeout` and `Pusher` of librustuv/src/timeout.rs: connections that have come in and the
-- tasks that accept them. The access that the clones share stands beside the timeout of a clone.
pub mod Runs
pub mod States
pub mod Accepts
pub mod Steps
pub mod Order
use green_rs.Prelude.{
  ℕ, Bool, true, false, not, ◌&&◌, Option, none, some, List, [], ◌∷◌, ◌++◌, Result, ok, fault,
  if◌then◌else◌, then_ok, ℤ,
}
use green_rs.Uv.Access
use green_rs.Uv.Access.{Inner, is_closed}
use green_rs.Uv.Stream.{UvResult, uv_ok, uv_err}
use green_rs.Uv.Timeout.{
  State, Client, no_timeout, timed_out, timeout_pending, no_waiter, access_pending, request_pending,
  AccessTimeout, Outcome, guard, blocks, canceled, begin_grant, resume_grant, drop_guard, timer_cb,
  has_timed_out,
}

pub record AcceptorState {ℓ} (A : Type ℓ) : Type ℓ where
  pub blocked_acceptor : Option ℕ
  pub pending : List (UvResult A)

-- What a call to `accept` comes to: it returns, or its task blocks, for the access or for a
-- connection.
pub data Accepting {ℓ} (A : Type ℓ) : Type ℓ where
  returns : UvResult A → Accepting A
  awaits_access awaits_connection : Accepting A

-- `code` and `eof` are libuv's ECANCELED and EOF. The task that a call reawakens comes last.
module _ {ℓ} {A : Type ℓ} (code eof : ℤ) where
  -- `accept` returns, which drops the guard.
  abbrev leave :
      UvResult A
      → AccessTimeout
      → Inner (AcceptorState A)
      → Result (Accepting A × AccessTimeout × Inner (AcceptorState A) × Option ℕ)
  leave answer t i =
      then_ok (drop_guard t i) (λ (t', i', woken). ok (returns answer, t', i', woken))

  -- The poll after a timeout.
  abbrev poll : List (UvResult A) → Inner (AcceptorState A) → UvResult A × Inner (AcceptorState A)
  poll [] i = (uv_err code, i)
  poll (msg ∷ rest) i = (msg, record i { value = record i.value { pending = rest } })

  abbrev peel :
      List (UvResult A)
      → ℕ
      → AccessTimeout
      → Inner (AcceptorState A)
      → Result (Accepting A × AccessTimeout × Inner (AcceptorState A) × Option ℕ)
  peel [] task t i = ok (
    awaits_connection,
    t,
    record i { value = record i.value { blocked_acceptor = some task } },
    none,
  )
  peel (msg ∷ rest) task t i = leave msg t (record i { value = record i.value { pending = rest } })

  -- `accept` with the guard.
  unfoldable pub accept_guarded :
      ℕ
      → AccessTimeout
      → Inner (AcceptorState A)
      → Result (Accepting A × AccessTimeout × Inner (AcceptorState A) × Option ℕ)
  accept_guarded task t i =
      if i.closed then leave (uv_err eof) t i else peel i.value.pending task t i

  abbrev granted :
      ℕ
      → Outcome × AccessTimeout × Inner (AcceptorState A) × Option ℕ
      → Result (Accepting A × AccessTimeout × Inner (AcceptorState A) × Option ℕ)
  granted task (guard _, t, i, woken) = accept_guarded task t i
  granted task (blocks, t, i, woken) = ok (awaits_access, t, i, woken)
  granted task (canceled, t, i, woken) = ok (returns (uv_err code), t, i, woken)

  unfoldable pub accept :
      (task token : ℕ)
      → AccessTimeout
      → Inner (AcceptorState A)
      → Result (Accepting A × AccessTimeout × Inner (AcceptorState A) × Option ℕ)
  unfolding accept_guarded
  accept task token t i =
      if has_timed_out t && not (is_closed i)
      then ok (returns (poll i.value.pending i).0, t, (poll i.value.pending i).1, none)
      else granted task (begin_grant task token t i)

  -- `accept` after its task has been reawakened, with the access, and for a connection.
  unfoldable pub accept_with_access :
      ℕ
      → AccessTimeout
      → Inner (AcceptorState A)
      → Result (Accepting A × AccessTimeout × Inner (AcceptorState A) × Option ℕ)
  unfolding accept_guarded
  accept_with_access task t i = then_ok (resume_grant t i) (granted task)

  -- A connection that has come is lost if the acceptor has been closed.
  unfoldable pub accept_connection :
      AccessTimeout
      → Inner (AcceptorState A)
      → Result (Accepting A × AccessTimeout × Inner (AcceptorState A) × Option ℕ)
  accept_connection t i =
      let (answer, i') = poll i.value.pending i in
      leave (if i'.closed then uv_err eof else answer) t i'

module _ {ℓ} {A : Type ℓ} where
  unfoldable pub push : UvResult A → Inner (AcceptorState A) → Inner (AcceptorState A) × Option ℕ
  push msg i = (
    record i { value = record { blocked_acceptor = none; pending = i.value.pending ++ msg ∷ [] } },
    i.value.blocked_acceptor,
  )

  unfoldable pub close : Inner (AcceptorState A) → Inner (AcceptorState A) × Option ℕ
  close i = (
    record (Access.close i) { value = record i.value { blocked_acceptor = none } },
    i.value.blocked_acceptor,
  )

  unfoldable pub cancel_accept : Inner (AcceptorState A) → Inner (AcceptorState A) × Option ℕ
  cancel_accept i =
      (record i { value = record i.value { blocked_acceptor = none } }, i.value.blocked_acceptor)

  -- The timeout's callback, which calls `cancel_accept` only for a request.
  abbrev expire :
      State
      → ℕ
      → AccessTimeout
      → Inner (AcceptorState A)
      → Result (AccessTimeout × Inner (AcceptorState A) × Option ℕ)
  expire (timeout_pending request_pending) token t i =
      let (i', found) = cancel_accept i in timer_cb (λ _. found) token t i'
  expire _ token t i = timer_cb (λ _. none) token t i

  unfoldable pub accept_timeout :
      ℕ
      → AccessTimeout
      → Inner (AcceptorState A)
      → Result (AccessTimeout × Inner (AcceptorState A) × Option ℕ)
  unfolding cancel_accept
  accept_timeout token t i = expire t.state token t i
