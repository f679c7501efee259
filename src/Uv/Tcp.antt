-- ===== src/Uv/Tcp.antt =====
-- librustuv/src/tcp.rs: the read half of a connection, which its clones share, the shutdown of the write
-- half, and the callback of a listener. librustuv/src/pipe.rs has the same code for pipes.
pub mod Closed
pub mod Writing
pub mod Turns
use green_rs.Prelude.{
  ℕ, Bool, true, false, Option, none, some, Result, ok, fault, assertion, if◌then◌else◌, then_ok, ℤ,
  pos, is_negative, ◌==ℤ◌,
}
use green_rs.Uv.Access
use green_rs.Uv.Access.{Inner, is_closed}
use green_rs.Uv.Block.{wakeup}
use green_rs.Uv.Stream.{UvResult, uv_ok, uv_err, Reading, read_begin, read_end, cancel_read}
use green_rs.Uv.Timeout.{
  AccessTimeout, Outcome, guard, blocks, canceled, begin_grant, resume_grant, drop_guard,
}
use green_rs.Uv.Timeout.Accept.{AcceptorState, push}

-- A clone with the access and the stream that it shares.
pub record Tcp : Type 0 where
  pub read_access : AccessTimeout
  pub access : Inner (Unit {0})
  pub stream : Reading

-- What a call to `uv_read` comes to: it returns, or its task blocks, for the access or for data.
pub data Read : Type 0 where
  returns : UvResult ℕ → Read
  awaits_access awaits_data : Read

-- The return of a task that has a guard.
abbrev leave : UvResult ℕ → Tcp → Result (Read × Tcp)
leave answer s =
    then_ok (drop_guard s.read_access s.access)
      (λ (t, i, woken). ok (returns answer, record s { read_access = t; access = i }))

-- `code` and `eof` are libuv's ECANCELED and EOF; `start` is the error of `read_start`, if it has one.
module _ (code eof : ℤ) (buf task : ℕ) (start : Option ℤ) where
  abbrev read_guarded : Reading × Option (UvResult ℕ) → Tcp → Result (Read × Tcp)
  read_guarded (r, some answer) s = leave answer (record s { stream = r })
  read_guarded (r, none) s = ok (awaits_data, record s { stream = r })

  abbrev granted : Outcome × AccessTimeout × Inner (Unit {0}) × Option ℕ → Tcp → Result (Read × Tcp)
  granted (blocks, t, i, woken) s = ok (awaits_access, record s { read_access = t; access = i })
  granted (canceled, t, i, woken) s =
      ok (returns (uv_err code), record s { read_access = t; access = i })
  granted (guard _, t, i, woken) s =
      if is_closed i
      then leave (uv_err eof) (record s { read_access = t; access = i })
      else read_guarded (read_begin buf task start) (record s { read_access = t; access = i })

  unfoldable pub uv_read : ℕ → Tcp → Result (Read × Tcp)
  uv_read token s = granted (begin_grant task token s.read_access s.access) s

  -- `uv_read` after its task has been reawakened with the access.
  unfoldable pub read_with_access : Tcp → Result (Read × Tcp)
  read_with_access s = then_ok (resume_grant s.read_access s.access) (λ o. granted o s)

-- `uv_read` after its task has been reawakened with data.
unfoldable pub read_data : Tcp → Result (Read × Tcp)
read_data s = then_ok (read_end s.stream) (λ (r, answer). leave answer (record s { stream = r }))

-- The task that is reawakened comes with the connection.
unfoldable pub close_read : ℤ → Tcp → Tcp × Option ℕ
close_read eof s =
    let (r, task) = cancel_read eof s.stream in
    (record s { access = Access.close s.access; stream = r }, task)

-- `shutdown`: until its task blocks, if the request is not refused; its callback; and its end. The
-- request is freed on both ways.
pub record Ctx : Type 0 where
  pub slot : Option ℕ
  pub status : ℤ

unfoldable pub shutdown_begin : (task : ℕ) → (send : Option ℤ) → UvResult Ctx
shutdown_begin task none = uv_ok (record { slot = some task; status = pos 0 })
shutdown_begin task (some e) = uv_err e

unfoldable pub shutdown_cb : (code status : ℤ) → Ctx → Result (Ctx × ℕ)
unfolding wakeup
shutdown_cb code status c = if status ==ℤ code then fault assertion else elim (wakeup c.slot) [
  | fault e ↦ fault e
  | ok (task, slot) ↦ ok (record { slot = slot; status = status }, task)
]

unfoldable pub shutdown_end : Ctx → UvResult (Unit {0})
shutdown_end c = if is_negative c.status then uv_err c.status else uv_ok tt

-- `accepted` is what `accept` of the listener answers.
unfoldable pub listen_cb {ℓ} :
    {A : Type ℓ}
    → (code status : ℤ) → UvResult A
    → Inner (AcceptorState A)
    → Result (Inner (AcceptorState A) × Option ℕ)
unfolding push
listen_cb code status accepted i =
    if status ==ℤ code
    then fault assertion
    else ok (push (if status ==ℤ pos 0 then accepted else uv_err status) i)
