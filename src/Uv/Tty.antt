-- ===== src/Uv/Tty.antt =====
-- librustuv/src/tty.rs: how a terminal is opened, read, written and dropped. A terminal is not shared.
use green_rs.Prelude.{
  ℕ, Result, Bool, true, ◌&&◌, Option, none, some, if◌then◌else◌, leb, ℤ, pos, negsuc,
}
use green_rs.Uv.Handles
use green_rs.Uv.Handles.{Handles}
use green_rs.Uv.Stream
use green_rs.Uv.Stream.{UvResult, uv_ok, uv_err, Reading, Writing, WriteContext}

-- What libuv and libc say: whether a descriptor is a terminal, `dup`, and why a handle cannot be made.
pub record Terminals : Type 0 where
  pub is_tty : ℤ → Bool
  pub dup : ℤ → ℤ
  pub refuses : ℤ → Option ℤ
  pub windows : Bool

-- Not above 2, the standard error.
abbrev is_standard : ℤ → Bool
is_standard (pos n) = leb n 2
is_standard (negsuc n) = true

abbrev descriptor : Terminals → ℤ → ℤ
descriptor os fd = if os.windows && is_standard fd then os.dup fd else fd

abbrev handle_for : Terminals → ℤ → UvResult ℤ
handle_for os fd = elim (os.refuses fd) [ none ↦ uv_ok fd | some e ↦ uv_err e ]

-- The descriptor that the handle has; `ebadf` is libuv's EBADF.
unfoldable pub new_on : Terminals → (ebadf fd : ℤ) → UvResult ℤ
new_on os ebadf fd = if os.is_tty fd then handle_for os (descriptor os fd) else uv_err ebadf

-- `uv_read` and `uv_write` until their task blocks; `start` and `send` are the errors of the requests.
unfoldable pub uv_read : (buf task : ℕ) → (start : Option ℤ) → Reading × Option (UvResult ℕ)
unfolding Stream.read_begin
uv_read buf task start = Stream.read_begin buf task start

unfoldable pub uv_write :
    (task : ℕ) → (send : Option ℤ) → Writing → Writing × UvResult (ℕ × WriteContext)
unfolding Stream.write_begin
uv_write task send w = Stream.write_begin task send w

unfoldable pub drop_tty : ℕ → Handles → Result Handles
unfolding Handles.close_and_free
drop_tty h hs = Handles.close_and_free h hs
