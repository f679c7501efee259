-- ===== src/Uv/Handles.antt =====
-- The handles of libuv and who owns them: librustuv/src/raw/mod.rs, librustuv/src/raw/tcp.rs, and the
-- parts of librustuv/src/tcp.rs, librustuv/src/pipe.rs and librustuv/src/udp.rs that make, share and
-- drop them. What libuv answers is an argument: an error, or none.
pub mod Owned
use green_rs.Prelude.{
  ℕ, zero, suc, ◌+◌, Option, none, some, Result, ok, fault, abort, then_ok, update, ℤ,
}
use green_rs.Uv.Stream.{UvResult, uv_ok, uv_err}

-- The memory of a handle: not allocated yet, in use, closing, or freed.
pub data Life : Type 0 where
  absent live closing freed : Life

-- Each handle with the number of its owners; the next allocation.
pub record Handles : Type 0 where
  pub life : ℕ → Life
  pub owners : ℕ → ℕ
  pub next : ℕ

unfoldable pub no_handles : Handles
no_handles = record { life = λ _. absent; owners = λ _. 0; next = 0 }

-- `raw::Tcp::new`, `raw::Pipe::new` and `raw::Udp::new`: on an error the memory is freed.
unfoldable pub raw_new : (init : Option ℤ) → Handles → UvResult ℕ × Handles
raw_new none hs =
    (uv_ok hs.next, record hs { life = update hs.life hs.next live; next = hs.next + 1 })
raw_new (some e) hs =
    (uv_err e, record hs { life = update hs.life hs.next freed; next = hs.next + 1 })

-- libuv aborts if a handle is closed twice; use after free is a fault too.
unfoldable pub close_and_free : ℕ → Handles → Result Handles
close_and_free h hs = elim (hs.life h) [
  | absent ↦ fault abort
  | live ↦ ok (record hs { life = update hs.life h closing })
  | closing ↦ fault abort
  | freed ↦ fault abort
]

-- `done`, which libuv calls once the handle is closed.
unfoldable pub done : ℕ → Handles → Result Handles
done h hs = elim (hs.life h) [
  | absent ↦ fault abort
  | live ↦ fault abort
  | closing ↦ ok (record hs { life = update hs.life h freed })
  | freed ↦ fault abort
]

-- The drop of one owner: an `Arc` of the data, or a listener. The last one closes the handle.
unfoldable pub drop_owner : ℕ → Handles → Result Handles
unfolding close_and_free
drop_owner h hs = elim (hs.owners h) [
  | zero ↦ fault abort
  | suc zero ↦ close_and_free h (record hs { owners = update hs.owners h 0 })
  | suc (suc n) ↦ ok (record hs { owners = update hs.owners h (suc n) })
]

abbrev pub owned_once : UvResult ℕ × Handles → UvResult ℕ × Handles
owned_once (uv_ok h, hs) = (uv_ok h, record hs { owners = update hs.owners h 1 })
owned_once (uv_err e, hs) = (uv_err e, hs)

-- `Tcp::new` and `Pipe::new`, and the structures of listeners and of UDP, with their first owner.
unfoldable pub create : (init : Option ℤ) → Handles → UvResult ℕ × Handles
unfolding raw_new
create init hs = owned_once (raw_new init hs)

-- The end of a function with its own object: an error drops it.
abbrev pub return_or_drop : (failed : Option ℤ) → ℕ → Handles → Result (UvResult ℕ × Handles)
return_or_drop none h hs = ok (uv_ok h, hs)
return_or_drop (some e) h hs = then_ok (drop_owner h hs) (λ hs'. ok (uv_err e, hs'))

abbrev pub created_then : (failed : Option ℤ) → UvResult ℕ × Handles → Result (UvResult ℕ × Handles)
created_then failed (uv_ok h, hs) = return_or_drop failed h hs
created_then failed (uv_err e, hs) = ok (uv_err e, hs)

unfoldable pub open_on : (init opened : Option ℤ) → Handles → Result (UvResult ℕ × Handles)
unfolding create drop_owner
open_on init opened hs = created_then opened (create init hs)

-- `connected` is what `ConnectCtx::connect` answers.
unfoldable pub connect_on : (init connected : Option ℤ) → Handles → Result (UvResult ℕ × Handles)
unfolding create drop_owner
connect_on init connected hs = created_then connected (create init hs)

-- `bind_on` of listeners and of UDP.
unfoldable pub bind_on : (init bound : Option ℤ) → Handles → Result (UvResult ℕ × Handles)
unfolding create drop_owner
bind_on init bound hs = created_then bound (create init hs)

-- The acceptor owns the listener, and is dropped with it on an error.
unfoldable pub listen : (listening : Option ℤ) → ℕ → Handles → Result (UvResult ℕ × Handles)
unfolding drop_owner
listen listening h hs = return_or_drop listening h hs

-- `accept` in the callback of a listener.
unfoldable pub accept : (init accepted : Option ℤ) → Handles → Result (UvResult ℕ × Handles)
unfolding create drop_owner
accept init accepted hs = created_then accepted (create init hs)

unfoldable pub clone : ℕ → Handles → Handles
clone h hs = record hs { owners = update hs.owners h (hs.owners h + 1) }
