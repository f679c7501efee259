-- ===== src/Uv/Udp/Sockets.antt =====
-- librustuv/src/udp.rs: how sockets are made, shared and dropped. What libuv answers is an argument: an
-- error, or none.
use green_rs.Prelude.{ℕ, Option, Result, ℤ}
use green_rs.Uv.Handles
use green_rs.Uv.Handles.{Handles}
use green_rs.Uv.Stream.{UvResult}

-- An error of `bind` drops the data, which closes the handle.
unfoldable pub bind_on : (init bound : Option ℤ) → Handles → Result (UvResult ℕ × Handles)
unfolding Handles.create Handles.drop_owner
bind_on init bound hs = Handles.created_then bound (Handles.create init hs)

unfoldable pub clone : ℕ → Handles → Handles
unfolding Handles.clone
clone h hs = Handles.clone h hs

-- The drop of a socket: the last one drops the data.
unfoldable pub drop_data : ℕ → Handles → Result Handles
unfolding Handles.drop_owner
drop_data h hs = Handles.drop_owner h hs
