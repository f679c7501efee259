-- ===== src/Uv/Tcp/Turns.antt =====
-- Writes by the tasks that share a connection of librustuv/src/tcp.rs, in any interleaving with one
-- another and with the callbacks of libuv.
pub mod States
pub mod Order
pub mod Returns
use mathlib.Core.List.{append-nil, append_assoc}
use green_rs.Prelude.{
  ℕ, ◌+◌, ◌≤◌, ◌≡◌, refl, sym, ap, ◌∙◌, Bool, true, false, Option, none, some, List, [], ◌∷◌, ◌++◌,
  map, length, update, Result, ok, then_ok, ℤ, pos, arith,
}
use green_rs.Uv.Access
use green_rs.Uv.Access.{Inner, Waiter}
use green_rs.Uv.Access.Exclusive.{waiting, waiting-append}
use green_rs.Uv.Block.{wakeup}
use green_rs.Uv.Stream.{Writing, WriteContext, write_begin, write_cb, write_end, drop_write}
use green_rs.Uv.Stream.Writes.{at}
use green_rs.Uv.Tcp.Writing.{
  Writer, Write, returns, awaits_access, awaits_request, uv_write, write_with_access, write_done,
}

-- A task that has the access: it is reawakened with it, its request is on the way, or it is reawakened
-- after the callback of its request.
pub data Phase : Type 0 where
  handed : (task : ℕ) → Phase
  sending told : (task req : ℕ) → WriteContext → Phase

-- The access, the stream of each task's own clone, the tasks that have the access, and those whose writes
-- have returned, the last one last.
pub record Shared : Type 0 where
  pub access : Inner (Unit {0})
  pub streams : ℕ → Writing
  pub inside : List Phase
  pub returned : List ℕ

-- The clone of a task.
abbrev pub clone_of : ℕ → Shared → Writer
clone_of task s = record { write_access = s.access; stream = s.streams task }

abbrev put_clone : ℕ → Writer → Shared → Shared
put_clone task w s = record s { access = w.write_access; streams = update s.streams task w.stream }

-- A task calls `uv_write`, the one with the access goes on, libuv reports to its request, or its write
-- ends; `send` is the error of a request, if it is refused.
pub data Event : Type 0 where
  starts : (task : ℕ) → (send : Option ℤ) → Event
  goes_on : (send : Option ℤ) → Event
  reports : (status : ℤ) → Event
  ends : Event

abbrev reawakened : Option ℕ → List Phase
reawakened none = []
reawakened (some task) = handed task ∷ []

abbrev pub enter : (task : ℕ) → Write × Writer × Option ℕ → Shared → Shared
enter task (returns answer, w, woken) s = record (put_clone task w s) {
  returned = s.returned ++ task ∷ [];
  inside = s.inside ++ reawakened woken;
}
enter task (awaits_access, w, woken) s = put_clone task w s
enter task (awaits_request req c, w, woken) s = record (put_clone task w s) {
  inside = s.inside ++ sending task req c ∷ [];
}

-- What the task that has had the access longest does, if it can.
abbrev pub first : Event → List Phase → Shared → Result Shared
unfolding write_with_access write_cb write_done
first (goes_on send) (handed task ∷ rest) s =
    then_ok (write_with_access task send (clone_of task s))
      (λ r. ok (enter task r (record s { inside = rest })))
first (reports status) (sending task req c ∷ rest) s =
    then_ok (write_cb status c) (λ d. ok (record s { inside = told d.1 req d.0 ∷ rest }))
first ends (told task req c ∷ rest) s =
    ok (enter task (write_done req c (clone_of task s)) (record s { inside = rest }))
first _ _ s = ok s

unfoldable pub step : Event → Shared → Result Shared
unfolding uv_write first
step (starts task send) s = ok (enter task (uv_write task send (clone_of task s)) s)
step e s = first e s.inside s

pub run : List Event → Shared → Result Shared
run [] s = ok s
run (e ∷ events) s = then_ok (step e s) (run events)

abbrev pub call_of : Event → List ℕ
call_of (starts task send) = task ∷ []
call_of _ = []

abbrev pub asked : List Event → List ℕ
asked [] = []
asked (e ∷ events) = call_of e ++ asked events

abbrev pub task_of : Phase → ℕ
task_of (handed task) = task
task_of (sending task req c) = task
task_of (told task req c) = task

-- All whose writes have returned, have the access or wait for it, in this order.
abbrev pub line : Shared → List ℕ
line s = s.returned ++ (map task_of s.inside ++ waiting s.access.queue)
