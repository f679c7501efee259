-- ===== src/Uv/Tcp/Closed.antt =====
-- What becomes of reads when the read half of a connection of librustuv/src/tcp.rs is closed.
use green_rs.Prelude.{ℕ, ◌≡◌, refl, false, Option, none, some, [], ok, ℤ, negsuc}
use green_rs.Uv.Access.{Inner, is_closed, grant, release}
use green_rs.Uv.Stream.{uv_err, Reading, read_begin, read_end, cancel_read}
use green_rs.Uv.Timeout.{no_timeout, begin_grant, drop_guard}
use green_rs.Uv.Tcp.{Tcp, returns, awaits_data, uv_read, read_data, close_read}

-- A connection that is open and free, with no timeout set.
abbrev pub ready : Option (Option ℕ) → Option ℕ → Reading → Tcp
ready timer payload stream = record {
  read_access = record { state = no_timeout; timer = timer; payload = payload };
  access = record { queue = []; held = false; closed = false; value = tt };
  stream = stream;
}

-- On a connection that is open and free, with no timeout, let a task begin to read and block, and let
-- the read half be closed then. That reawakens the task, and its read answers EOF; and so does every
-- later read, at once, whatever `read_start` would do.
pub close_read-uv_read :
    (code : ℤ) (eof buf task token buf' task' token' : ℕ) (start : Option ℤ)
    (timer : Option (Option ℕ)) (payload : Option ℕ) (stream : Reading)
    → (s : Tcp) × (t : Tcp) × (uv_read code
          (negsuc eof)
          buf
          task
          none
          token
          (ready timer payload stream)
        ≡ ok (awaits_data, s))
      × ((close_read (negsuc eof) s).1 ≡ some task)
      × (read_data (close_read (negsuc eof) s).0 ≡ ok (returns (uv_err (negsuc eof)), t))
      × (uv_read code (negsuc eof) buf' task' start token' t
          ≡ ok (returns (uv_err (negsuc eof)), t))
unfolding uv_read read_data close_read read_begin read_end cancel_read begin_grant drop_guard grant
    release is_closed green_rs.Uv.Access.close
close_read-uv_read code eof buf task token buf' task' token' start timer payload stream =
    (_, _, refl, refl, refl, refl)
