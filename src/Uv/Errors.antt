-- ===== src/Uv/Errors.antt =====
-- How librustuv/src/lib.rs turns an error of libuv into one of std, on Unix.
use green_rs.Prelude.{◌+◌, ◌-◌, ◌==◌, ℤ, pos, negsuc, ◌==ℤ◌, if◌then◌else◌}

abbrev minus : ℤ → ℤ
minus (negsuc n) = pos (n + 1)
minus (pos n) = if n == 0 then pos 0 else negsuc (n - 1)

-- The code given to `from_errno`, before the cast to `uint`; `eof` and `libc_eof` are the codes of
-- libuv and of libc.
unfoldable pub to_io_error : (eof libc_eof : ℤ) → ℤ → ℤ
to_io_error eof libc_eof code = if code ==ℤ eof then libc_eof else minus code
