-- ===== src/Uv/Timeout.antt =====
-- `AccessTimeout` of librustuv/src/timeout.rs: access to half of a stream that can time out. The
-- access is shared by the clones, so it stands beside the rest; a token is the address of a clone.
pub mod Laws
pub mod Late
pub mod Connect
pub mod Accept
use green_rs.Prelude.{
  ℕ, Bool, true, false, Option, none, some, Result, ok, fault, unreachable, unwrap, ltb, is_some,
  if◌then◌else◌,
}
use green_rs.Uv.Access.{Inner, grant, regrant, release, dequeue}

pub data Client : Type 0 where
  no_waiter access_pending request_pending : Client

pub data State : Type 0 where
  no_timeout : State
  timeout_pending : Client → State
  timed_out : State

-- The timer is `some` of the time for which it is started, if it is. `payload` is what the callback
-- is given, `none` before the first timeout.
pub record AccessTimeout : Type 0 where
  pub state : State
  pub timer : Option (Option ℕ)
  pub payload : Option ℕ

unfoldable pub new : AccessTimeout
new = record { state = no_timeout; timer = none; payload = none }

-- What a call to `grant` comes to: a guard, with whether it can time out; the task blocks; or
-- `Err(ECANCELED)`.
pub data Outcome : Type 0 where
  guard : Bool → Outcome
  blocks canceled : Outcome

-- The flag before the access is asked for.
flag_access : State → State
flag_access (timeout_pending _) = timeout_pending access_pending
flag_access no_timeout = no_timeout
flag_access timed_out = timed_out

module _ {ℓ} {A : Type ℓ} where
  -- `grant` once it has the access. On a timeout it returns an error, and the guard that it has is
  -- dropped; the task that the drop reawakens comes with the outcome.
  finish_in : State → AccessTimeout → Inner A → Outcome × AccessTimeout × Inner A × Option ℕ
  finish_in no_timeout t i = (guard false, t, i, none)
  finish_in (timeout_pending _) t i =
      (guard true, record t { state = timeout_pending request_pending }, i, none)
  finish_in timed_out t i = let (woken, i') = release i in (canceled, t, i', woken)

  unfoldable pub finish_grant :
      AccessTimeout → Inner A → Outcome × AccessTimeout × Inner A × Option ℕ
  unfolding finish_in release
  finish_grant t i = finish_in t.state t i

  begin_in : State → ℕ → ℕ → AccessTimeout → Inner A → Outcome × AccessTimeout × Inner A × Option ℕ
  unfolding grant finish_grant flag_access
  begin_in timed_out task token t i = (canceled, t, i, none)
  begin_in state task token t i =
      let flagged = record t { state = flag_access t.state } in
      let asked = grant task token i in
      if asked.0 then finish_grant flagged asked.1 else (blocks, flagged, asked.1, none)

  unfoldable pub begin_grant :
      ℕ → ℕ → AccessTimeout → Inner A → Outcome × AccessTimeout × Inner A × Option ℕ
  unfolding begin_in
  begin_grant task token t i = begin_in t.state task token t i

  -- `grant` after its task has been reawakened.
  unfoldable pub resume_grant :
      AccessTimeout → Inner A → Result (Outcome × AccessTimeout × Inner A × Option ℕ)
  unfolding regrant finish_grant
  resume_grant t i = elim (regrant i) [ ok i' ↦ ok (finish_grant t i') | fault e ↦ fault e ]

  drop_in : State → AccessTimeout → Inner A → Result (AccessTimeout × Inner A × Option ℕ)
  drop_in no_timeout t i = let (woken, i') = release i in ok (t, i', woken)
  drop_in timed_out t i = let (woken, i') = release i in ok (t, i', woken)
  drop_in (timeout_pending request_pending) t i =
      let (woken, i') = release i in ok (record t { state = timeout_pending no_waiter }, i', woken)
  drop_in (timeout_pending no_waiter) t i = fault unreachable
  drop_in (timeout_pending access_pending) t i = fault unreachable

  -- The drop of a guard, and of the access in it.
  unfoldable pub drop_guard : AccessTimeout → Inner A → Result (AccessTimeout × Inner A × Option ℕ)
  unfolding drop_in release
  drop_guard t i = drop_in t.state t i

  -- `unblock` is what the user's callback answers for the payload.
  fire_in :
      State
      → (ℕ → Option ℕ)
      → ℕ
      → AccessTimeout
      → Inner A
      → Result (AccessTimeout × Inner A × Option ℕ)
  unfolding dequeue
  fire_in no_timeout unblock token t i = fault unreachable
  fire_in timed_out unblock token t i = fault unreachable
  fire_in (timeout_pending no_waiter) unblock token t i =
      ok (record t { state = timed_out }, i, none)
  fire_in (timeout_pending access_pending) unblock token t i =
      let found = dequeue token i in
      elim found.0 [
        | none ↦ fault unreachable
        | some task ↦ ok (record t { state = timed_out }, found.1, some task)
      ]
  fire_in (timeout_pending request_pending) unblock token t i = elim t.payload [
    | none ↦ fault unwrap
    | some payload ↦ elim (unblock payload) [
      | none ↦ fault unreachable
      | some task ↦ ok (record t { state = timed_out }, i, some task)
    ]
  ]

  -- `timer_cb` of `set_timeout`.
  unfoldable pub timer_cb :
      (ℕ → Option ℕ) → ℕ → AccessTimeout → Inner A → Result (AccessTimeout × Inner A × Option ℕ)
  unfolding fire_in
  timer_cb unblock token t i = fire_in t.state unblock token t i

unfoldable pub has_timed_out : AccessTimeout → Bool
has_timed_out t = elim t.state [ timed_out ↦ true | _ ↦ false ]

-- The duration in milliseconds, where a negative one counts as 0; without one the timer is stopped.
unfoldable pub set_timeout : Option ℕ → ℕ → AccessTimeout → AccessTimeout
set_timeout none payload t = record t {
  state = no_timeout;
  timer = elim t.timer [ none ↦ none | some _ ↦ some none ];
}
set_timeout (some ms) payload t = record {
  state = timeout_pending no_waiter;
  timer = some (some ms);
  payload = some payload;
}
