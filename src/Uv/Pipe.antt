-- ===== src/Uv/Pipe.antt =====
-- librustuv/src/pipe.rs: pipes, which share the access, the stream and the handles of connections.
use green_rs.Prelude.{ℕ, Option, Result, ℤ}
use green_rs.Uv.Access.{Inner}
use green_rs.Uv.Handles
use green_rs.Uv.Handles.{Handles}
use green_rs.Uv.Stream.{UvResult}
use green_rs.Uv.Tcp
use green_rs.Uv.Tcp.{Tcp, Read, Ctx}
use green_rs.Uv.Tcp.Writing
use green_rs.Uv.Tcp.Writing.{Writer, Write}
use green_rs.Uv.Timeout.Accept.{AcceptorState}

-- The fields of a pipe are those of a connection.
abbrev pub Pipe : Type 0
Pipe = Tcp

unfoldable pub new : (init : Option ℤ) → Handles → UvResult ℕ × Handles
unfolding Handles.create
new init hs = Handles.create init hs

unfoldable pub open_on : (init opened : Option ℤ) → Handles → Result (UvResult ℕ × Handles)
unfolding new Handles.drop_owner
open_on init opened hs = Handles.created_then opened (new init hs)

-- The request to connect is never refused at once: `connected` is what libuv's callback or the timeout
-- makes of it.
unfoldable pub connect_on : (init connected : Option ℤ) → Handles → Result (UvResult ℕ × Handles)
unfolding new Handles.drop_owner
connect_on init connected hs = Handles.created_then connected (new init hs)

unfoldable pub clone : ℕ → Handles → Handles
unfolding Handles.clone
clone h hs = Handles.clone h hs

unfoldable pub drop_data : ℕ → Handles → Result Handles
unfolding Handles.drop_owner
drop_data h hs = Handles.drop_owner h hs

unfoldable pub bind_on : (init bound : Option ℤ) → Handles → Result (UvResult ℕ × Handles)
unfolding new Handles.drop_owner
bind_on init bound hs = Handles.created_then bound (new init hs)

unfoldable pub listen : (listening : Option ℤ) → ℕ → Handles → Result (UvResult ℕ × Handles)
unfolding Handles.drop_owner
listen listening h hs = Handles.return_or_drop listening h hs

-- `accept` in the callback of a listener.
unfoldable pub accept : (init accepted : Option ℤ) → Handles → Result (UvResult ℕ × Handles)
unfolding new Handles.drop_owner
accept init accepted hs = Handles.created_then accepted (new init hs)

unfoldable pub uv_read :
    (code eof : ℤ) (buf task : ℕ) (start : Option ℤ) (token : ℕ) → Pipe → Result (Read × Pipe)
unfolding Tcp.uv_read
uv_read code eof buf task start token s = Tcp.uv_read code eof buf task start token s

unfoldable pub uv_write : (task : ℕ) (send : Option ℤ) → Writer → Write × Writer × Option ℕ
unfolding Writing.uv_write
uv_write task send s = Writing.uv_write task send s

unfoldable pub close_read : ℤ → Pipe → Pipe × Option ℕ
unfolding Tcp.close_read
close_read eof s = Tcp.close_read eof s

unfoldable pub listen_cb {ℓ} :
    {A : Type ℓ}
    → (code status : ℤ) → UvResult A
    → Inner (AcceptorState A)
    → Result (Inner (AcceptorState A) × Option ℕ)
unfolding Tcp.listen_cb
listen_cb code status accepted i = Tcp.listen_cb code status accepted i
