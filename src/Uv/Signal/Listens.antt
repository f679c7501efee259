-- ===== src/Uv/Signal/Listens.antt =====
-- The callback that a handle of librustuv/src/signal.rs has while it listens.
use green_rs.Prelude.{ℕ, ◌≡◌, refl, Option, none, some, List, [], ◌∷◌, ok, ℤ}
use green_rs.Uv.Signal.{Signal, new_on, start, stop, signal_cb}

-- A start or a stop, with the error of libuv, if there is one.
pub data Request : Type 0 where
  starts : Option ℤ → ℤ → ℕ → Request
  stops : Option ℤ → Request

pub perform : Request → Signal → Signal
perform (starts error signal cb) s = (start error signal cb s).0
perform (stops error) s = (stop error s).0

pub perform_all : List Request → Signal → Signal
perform_all [] s = s
perform_all (r ∷ rest) s = perform_all rest (perform r s)

-- The signal and the callback of the last request that did not fail.
abbrev pub latest : Option (ℤ × ℕ) → List Request → Option (ℤ × ℕ)
latest last [] = last
latest last (starts none signal cb ∷ rest) = latest (some (signal, cb)) rest
latest last (starts (some e) signal cb ∷ rest) = latest last rest
latest last (stops none ∷ rest) = latest none rest
latest last (stops (some e) ∷ rest) = latest last rest

abbrev pub listening : Option (ℤ × ℕ) → Signal
listening none = record { listens = none; callback = none }
listening (some (signal, cb)) = record { listens = some signal; callback = some cb }

perform_all-listening :
    (requests : List Request) (last : Option (ℤ × ℕ))
    → perform_all requests (listening last) ≡ listening (latest last requests)
unfolding perform_all perform start stop
perform_all-listening [] last = refl
perform_all-listening (starts none signal cb ∷ rest) last =
    perform_all-listening rest (some (signal, cb))
perform_all-listening (starts (some e) signal cb ∷ rest) last = perform_all-listening rest last
perform_all-listening (stops none ∷ rest) last = perform_all-listening rest none
perform_all-listening (stops (some e) ∷ rest) last = perform_all-listening rest last

-- Whatever starts and stops have been asked of a new handle: if libuv listens, then for the signal of
-- the last start that has not been stopped, and the callback of that start is what it calls.
pub perform_all_listens :
    (requests : List Request) (signal : ℤ) (cb : ℕ)
    → latest none requests ≡ some (signal, cb)
    → ((perform_all requests new_on).listens ≡ some signal)
      × (signal_cb (perform_all requests new_on) ≡ ok cb)
unfolding new_on signal_cb
perform_all_listens requests signal cb e = (
  rw (perform_all-listening requests none, e) refl,
  rw (perform_all-listening requests none, e) refl,
)
