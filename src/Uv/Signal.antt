-- ===== src/Uv/Signal.antt =====
-- librustuv/src/signal.rs: a handle that listens for one signal. Callbacks go by ids.
pub mod Listens
use green_rs.Prelude.{ℕ, Option, none, some, Result, ok, fault, assertion, ℤ}
use green_rs.Uv.Stream.{UvResult, uv_ok, uv_err}

-- The signal for which libuv listens, if it does, and the callback.
pub record Signal : Type 0 where
  pub listens : Option ℤ
  pub callback : Option ℕ

unfoldable pub new_on : Signal
new_on = record { listens = none; callback = none }

-- `error` is what libuv's call returns, if it fails. The last component is the callback that is dropped.
unfoldable pub start : (error : Option ℤ) → ℤ → ℕ → Signal → Signal × UvResult (Unit {0}) × Option ℕ
start (some e) signal cb s = (s, uv_err e, some cb)
start none signal cb s =
    (record { listens = some signal; callback = some cb }, uv_ok tt, s.callback)

unfoldable pub stop : (error : Option ℤ) → Signal → Signal × UvResult (Unit {0}) × Option ℕ
stop (some e) s = (s, uv_err e, none)
stop none s = (record { listens = none; callback = none }, uv_ok tt, s.callback)

-- The callback that is called.
unfoldable pub signal_cb : Signal → Result ℕ
signal_cb s = elim s.callback [ none ↦ fault assertion | some cb ↦ ok cb ]
