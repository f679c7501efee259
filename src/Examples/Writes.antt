-- ===== src/Examples/Writes.antt =====
-- Writes of several tasks to one connection.
use green_rs.Prelude.{◌≡◌, none, some, List, [], ◌∷◌, ◌++◌, ok, pos, negsuc, arith}
use green_rs.Uv.Tcp.Turns
use green_rs.Uv.Tcp.Turns.{Shared, Event, starts, goes_on, reports, ends, line}
use green_rs.Uv.Tcp.Turns.Order.{IsInTurn, no_writes, run-IsInTurn}
use green_rs.Uv.Tcp.Turns.Returns.{rounds, run-returned}

-- Three tasks on one connection: the second one's request is refused.
abbrev sharing : List Event
sharing =
    starts 1 none
    ∷ starts 2 none
    ∷ starts 3 none
    ∷ reports (pos 0)
    ∷ ends
    ∷ goes_on (some (negsuc 31))
    ∷ []

run-IsInTurn_example :
    (s : Shared) × (Turns.run sharing no_writes ≡ ok s) × IsInTurn s × (line s ≡ 1 ∷ 2 ∷ 3 ∷ [])
run-IsInTurn_example = run-IsInTurn sharing

run-returned_example :
    (s : Shared) × (Turns.run (sharing ++ rounds (pos 0 ∷ negsuc 103 ∷ pos 0 ∷ [])) no_writes
      ≡ ok s)
    × (s.inside ≡ [])
    × (s.access.queue ≡ [])
    × (s.returned ≡ 1 ∷ 2 ∷ 3 ∷ [])
run-returned_example = run-returned sharing (pos 0 ∷ negsuc 103 ∷ pos 0 ∷ []) (omega arith)
