-- ===== src/Uv/Tcp/Writing.antt =====
-- Writes to a connection of librustuv/src/tcp.rs, of which each task has its own clone, one at a time.
use green_rs.Prelude.{ℕ, Bool, true, false, Option, none, Result, ok, then_ok, ℤ}
use green_rs.Uv.Access
use green_rs.Uv.Access.{Inner}
use green_rs.Uv.Stream.{UvResult, uv_ok, uv_err, Writing, WriteContext, write_begin, write_end}

-- What a clone of a connection has for its writes: the access, which all clones share, and its own stream.
pub record Writer : Type 0 where
  pub write_access : Inner (Unit {0})
  pub stream : Writing

-- What a call to `uv_write` comes to: it returns, or its task blocks, for the access or for its request.
pub data Write : Type 0 where
  returns : UvResult (Unit {0}) → Write
  awaits_access : Write
  awaits_request : ℕ → WriteContext → Write

-- The drop of the guard; the task that is reawakened comes with the answer.
abbrev leave : UvResult (Unit {0}) → Writer → Write × Writer × Option ℕ
leave answer s =
    let (woken, i) = Access.release s.write_access in
    (returns answer, record s { write_access = i }, woken)

abbrev write_sent : Writing × UvResult (ℕ × WriteContext) → Writer → Write × Writer × Option ℕ
write_sent (w, uv_err e) s = leave (uv_err e) (record s { stream = w })
write_sent (w, uv_ok (req, c)) s = (awaits_request req c, record s { stream = w }, none)

-- `send` is the error of the request, if it is refused.
module _ (task : ℕ) (send : Option ℤ) where
  abbrev pub write_granted : Bool × Inner (Unit {0}) → Writer → Write × Writer × Option ℕ
  write_granted (false, i) s = (awaits_access, record s { write_access = i }, none)
  write_granted (true, i) s =
      write_sent (write_begin task send s.stream) (record s { write_access = i })

  unfoldable pub uv_write : Writer → Write × Writer × Option ℕ
  unfolding Access.grant Access.release write_begin
  uv_write s = write_granted (Access.grant task 0 s.write_access) s

  -- `uv_write` after its task has been reawakened with the access.
  unfoldable pub write_with_access : Writer → Result (Write × Writer × Option ℕ)
  unfolding Access.regrant Access.release write_begin
  write_with_access s =
      then_ok (Access.regrant s.write_access) (λ i. ok (write_granted (true, i) s))

-- `uv_write` after its request has been called back.
unfoldable pub write_done : ℕ → WriteContext → Writer → Write × Writer × Option ℕ
unfolding Access.release write_end
write_done req c s =
    let (w, answer) = write_end req c s.stream in leave answer (record s { stream = w })
