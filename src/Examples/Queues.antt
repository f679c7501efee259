-- ===== src/Examples/Queues.antt =====
-- The message queue and the access lock on small inputs.

use green_rs.Prelude.{ℕ, ◌≡◌, refl, true, false, Option, none, some, List, [], ◌∷◌, ◌++◌, ok, arith}
use green_rs.MessageQueue.{Queue, contents, pop}
use green_rs.MessageQueue.Fifo.{
  Op, Pops, run, begins_push, pushed, pushes, ends_push, pops, casual_pops, run_fifo,
}
use green_rs.Uv.Access.{Inner}
use green_rs.Uv.Access
use green_rs.Uv.Access.Exclusive
use green_rs.Uv.Access.Exclusive.{Use, IsExclusive, free, line, asked, asks, drops, run-IsExclusive}
use green_rs.Uv.Timeout.{
  AccessTimeout, canceled, no_waiter, access_pending, timeout_pending, timer_cb, resume_grant,
  timed_out,
}
use green_rs.Uv.Timeout.Laws.{timer_cb-resume_grant}
use green_rs.Uv.QueuePool.Counts
use green_rs.Uv.QueuePool.Counts.{
  start, opens, clones, drops, calls_back, run_referenced, run_refcnt,
}

abbrev two : Queue ℕ
two = record { items = 1 ∷ []; unlinked = 2 ∷ [] }

abbrev mixed : List (Op ℕ)
mixed = pops ∷ pops ∷ pushes 3 ∷ begins_push 4 ∷ ends_push 2 ∷ casual_pops ∷ []

run_fifo_example :
    ((run two mixed).1 ++ contents (run two mixed).0 ≡ contents two ++ pushed mixed)
    × Pops (run two mixed).0 (pop (run two mixed).0)
run_fifo_example = run_fifo two mixed

abbrev unused : Use ℕ
unused = record { inner = Access.new 9; holders = []; served = [] }

abbrev three : List Exclusive.Op
three = asks 1 10 ∷ asks 2 20 ∷ drops ∷ asks 3 30 ∷ []

run-IsExclusive_example :
    IsExclusive (Exclusive.run unused three)
    × (line (Exclusive.run unused three) ≡ line unused ++ asked three)
unfolding Access.new
run-IsExclusive_example = run-IsExclusive unused three (free refl refl refl)

abbrev clock : AccessTimeout
clock = record { state = timeout_pending no_waiter; timer = some (some 50); payload = some 4 }

abbrev asking : AccessTimeout
asking = record clock { state = timeout_pending access_pending }

abbrev unheld : Inner ℕ
unheld = record { queue = []; held = false; closed = false; value = 9 }

abbrev held : Inner ℕ
held = record unheld { held = true }

abbrev contended : Inner ℕ
contended = record held { queue = record { task = 2; token = 20 } ∷ [] }

abbrev woken : Option ℕ
woken = some 2

timer_cb-resume_grant_example :
    (woken ≡ some 2)
    × (i : Inner ℕ) × (resume_grant (record clock { state = timed_out }) held
        ≡ ok (canceled, record clock { state = timed_out }, i, none))
    × ((Access.grant 3 30 i).0 ≡ true)
unfolding timer_cb
timer_cb-resume_grant_example =
    timer_cb-resume_grant (λ _. none) 2 20 3 30 asking (record clock { state = timed_out })
      contended held woken refl refl refl refl

abbrev shared : List Counts.Op
shared = opens ∷ clones ∷ drops ∷ Counts.pushes 5 ∷ calls_back ∷ []

run_referenced_example : (Counts.run start shared).pool.referenced ≡ true
unfolding Counts.run Counts.step
run_referenced_example = run_referenced shared (omega arith) (omega arith)
