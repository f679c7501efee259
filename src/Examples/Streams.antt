-- ===== src/Examples/Streams.antt =====
-- Streams, connections and their timeouts on small inputs.
use green_rs.Prelude.{
  ℕ, ◌≡◌, ◌≤◌, inl, refl, true, false, none, some, List, [], ◌∷◌, ◌++◌, ok, fault, abort,
  unreachable, ℤ, pos, negsuc,
}
use green_rs.Uv.Access.{Inner, release}
use green_rs.Uv.Stream
use green_rs.Uv.Stream.{UvResult, uv_ok, uv_err, Reading, Writing, read_cb, drop_stream}
use green_rs.Uv.Stream.Reads
use green_rs.Uv.Stream.Writes
use green_rs.Uv.Stream.Writes.{write_all, outcome, write_all_lem}
use green_rs.Uv.Tcp.{Tcp, returns, awaits_data, uv_read, read_data, close_read}
use green_rs.Uv.Tcp.Closed.{ready, close_read-uv_read}
use green_rs.Uv.Timeout.{AccessTimeout, timeout_pending, request_pending, access_pending, timer_cb}
use green_rs.Uv.Timeout.Late.{read_cb-timer_cb, release-timer_cb}
use green_rs.Uv.Timeout.Accept.Runs
use green_rs.Uv.Timeout.Accept.Runs.{Acceptor, open_acceptor, connections}
use green_rs.Uv.Timeout.Accept.Order.{run-connections}
use green_rs.Uv.Timeout.Connect.{Connecting, connect_begin, connect_end, connect_cb}
use green_rs.Uv.Timeout.Connect.Waits
use green_rs.Uv.Timeout.Connect.Waits.{run_connect, connect_begin-connect_cb}
use green_rs.Uv.Udp.Receives

-- libuv's ECANCELED and EOF.
abbrev code : ℤ
code = negsuc 124

abbrev eof : ℤ
eof = negsuc 4094

abbrev arrivals : List (Runs.Event ℕ)
arrivals =
    Runs.sets (some 50)
    ∷ Runs.pushes (uv_ok 7)
    ∷ Runs.accepts
    ∷ Runs.accepts
    ∷ Runs.fires
    ∷ Runs.resumes
    ∷ Runs.pushes (uv_ok 8)
    ∷ Runs.accepts
    ∷ Runs.pushes (uv_ok 9)
    ∷ []

run-connections_example :
    (s : Acceptor ℕ) × (answers : List (UvResult ℕ)) × (Runs.run code eof 1 10 arrivals
        open_acceptor
      ≡ ok (s, answers))
    × (connections answers ++ connections s.inner.value.pending ≡ 7 ∷ 8 ∷ 9 ∷ [])
run-connections_example = run-connections code eof 1 10 arrivals

abbrev closed_late : List Reads.Event
closed_late = Reads.reports (pos 5) ∷ Reads.closes eof ∷ []

run_connect_example :
    (c : Connecting) × (Waits.run code
        (Waits.expires ∷ Waits.connects (pos 0) ∷ [])
        (connect_begin code none (some (pos 30)) 1).0
      ≡ ok (c, 1 ∷ []))
    × ((connect_end c).1 ≡ uv_ok tt)
run_connect_example =
    run_connect code (Waits.expires ∷ Waits.connects (pos 0) ∷ []) 29 1 (pos 0) (refl, tt) refl

abbrev datagrams : List (Receives.Event ℕ)
datagrams = Receives.reports (pos 0) none ∷ Receives.reports (pos 3) (some 80) ∷ []

close_read-uv_read_example :
    (s : Tcp) × (t : Tcp) × (uv_read code eof 2 1 none 10 (ready none none Reads.idle)
      ≡ ok (awaits_data, s))
    × ((close_read eof s).1 ≡ some 1)
    × (read_data (close_read eof s).0 ≡ ok (returns (uv_err eof), t))
    × (uv_read code eof 4 3 none 30 t ≡ ok (returns (uv_err eof), t))
close_read-uv_read_example = close_read-uv_read code 4094 2 1 10 4 3 30 none none none Reads.idle

abbrev attempts : List Writes.Attempt
attempts = Writes.reported (pos 0) ∷ Writes.refused (negsuc 8) ∷ Writes.reported (negsuc 31) ∷ []

write_all_lem_example :
    (w : Writing) × (write_all 1 attempts (Writes.at none 0)
      ≡ ok (w, uv_ok tt ∷ uv_err (negsuc 8) ∷ uv_err (negsuc 31) ∷ []))
    × (w.made ≤ 2)
    × ((drop_stream w).freed ≡ w.made)
write_all_lem_example = write_all_lem 1 attempts

abbrev clock : AccessTimeout
clock = record { state = timeout_pending request_pending; timer = some (some 50); payload = some 0 }

abbrev held_by_one : Inner ℕ
held_by_one = record { queue = []; held = true; closed = false; value = 0 }

abbrev reader : Reading
reader = record {
  context = some (record { buf = none; result = pos 0; task = some 1 });
  attached = true;
  started = true;
}

abbrev read : Reading
read = record {
  context = some (record { buf = none; result = pos 5; task = none });
  attached = true;
  started = false;
}

read_cb-timer_cb_example :
    timer_cb (λ _. (Stream.cancel_read code read).1) 10 clock held_by_one ≡ fault unreachable
unfolding read_cb
read_cb-timer_cb_example =
    read_cb-timer_cb code code (pos 5) reader read 1 10 0 clock held_by_one refl refl refl refl

abbrev wanted : Inner ℕ
wanted = record held_by_one { queue = record { task = 2; token = 20 } ∷ [] }

release-timer_cb_example :
    ((release wanted).0 ≡ some 2)
    × (timer_cb
          (λ _. none)
          20
          (record clock { state = timeout_pending access_pending })
          (release wanted).1
        ≡ fault unreachable)
release-timer_cb_example =
    release-timer_cb (λ _. none) 2 20 (record clock { state = timeout_pending access_pending })
      wanted refl refl

connect_begin-connect_cb_example :
    ((connect_begin code none (some (pos 0)) 1).1 ≡ some (uv_err code))
    × (connect_cb code (negsuc 60) (connect_begin code none (some (pos 0)) 1).0 ≡ fault abort)
connect_begin-connect_cb_example =
    connect_begin-connect_cb code 0 1 (pos 0) (negsuc 60) (inl refl) refl
