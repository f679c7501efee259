-- ===== src/Simple/Wakes.antt =====
-- The two threads of a task of libgreen/src/simple.rs that blocks and is reawakened.
use mathlib.Core.Path.{subst}
use green_rs.Prelude.{
  ◌≡◌, refl, sym, Bool, true, false, Option, none, some, List, [], ◌∷◌, Result, ok, fault,
  if◌then◌else◌,
}
use green_rs.Simple.{
  SimpleTask, new, begin_deschedule, test_awoken, end_wait, begin_reawaken, end_reawaken,
}

-- Where the task's own thread is in `deschedule`, and the other one in `reawaken`. The task is given
-- away by `f`, after which the other thread may begin at any time.
pub data Own : Type 0 where
  outside handing testing waits returned : Own

pub data Other : Type 0 where
  not_given given reawakening gone : Other

pub record Threads : Type 0 where
  pub task : SimpleTask
  pub own : Own
  pub other : Other

unfoldable pub begun : Threads
unfolding new
begun = record { task = new; own = outside; other = not_given }

-- A thread that has to wait, for the lock or a signal, stays where it is.
abbrev moved : Own → Threads → Option SimpleTask → Threads
moved own s none = s
moved own s (some t) = record s { task = t; own = own }

abbrev began : Threads → Result (Option SimpleTask) → Threads
began s (ok t) = moved handing s t
began s (fault e) = s

abbrev own_at : Own → Threads → Threads
own_at outside s = began s (begin_deschedule 1 s.task)
own_at handing s = record s { own = testing; other = given }
own_at testing s =
    let (ends, t) = test_awoken s.task in
    record s { task = t; own = if ends then returned else waits }
own_at waits s = moved testing s (end_wait s.task)
own_at returned s = s

unfoldable pub own_step : Threads → Threads
own_step s = own_at s.own s

abbrev locks : Threads → Option SimpleTask → Threads
locks s none = s
locks s (some t) = record s { task = t; other = reawakening }

abbrev other_at : Other → Threads → Threads
other_at not_given s = s
other_at given s = locks s (begin_reawaken s.task)
other_at reawakening s = record s { task = end_reawaken s.task; other = gone }
other_at gone s = s

unfoldable pub other_step : Threads → Threads
other_step s = other_at s.other s

-- `wait` may return with no signal, once the lock is free.
abbrev spurious_at : Own → Threads → Threads
spurious_at waits s =
    if s.task.locked
    then s
    else record s { task = record s.task { locked = true; in_wait = false }; own = testing }
spurious_at _ s = s

unfoldable pub spurious : Threads → Threads
spurious s = spurious_at s.own s

pub data Turn : Type 0 where
  mine others unsignalled : Turn

unfoldable pub turn : Turn → Threads → Threads
turn mine s = own_step s
turn others s = other_step s
turn unsignalled s = spurious s

unfoldable pub run : List Turn → Threads → Threads
run [] s = s
run (t ∷ rest) s = run rest (turn t s)

-- The states that are reached, by where the two threads are.
data Place : Type 0 where
  at_first at_handing at_test at_wait at_lock at_signal at_flag at_end : Place

abbrev state : (locked awoken in_wait : Bool) → Own → Other → Threads
state locked awoken in_wait own other = record {
  task = record { locked = locked; awoken = awoken; in_wait = in_wait };
  own = own;
  other = other;
}

abbrev at : Place → Threads
at at_first = state false false false outside not_given
at at_handing = state true false false handing not_given
at at_test = state true false false testing given
at at_wait = state false false true waits given
at at_lock = state true false true waits reawakening
at at_signal = state false true false waits gone
at at_flag = state true true false testing gone
at at_end = state false true false returned gone

turn-at : (t : Turn) (p : Place) → (q : Place) × (turn t (at p) ≡ at q)
unfolding turn own_step other_step spurious begin_deschedule test_awoken end_wait begin_reawaken
    end_reawaken
turn-at mine at_first = (at_handing, refl)
turn-at mine at_handing = (at_test, refl)
turn-at mine at_test = (at_wait, refl)
turn-at mine at_wait = (at_wait, refl)
turn-at mine at_lock = (at_lock, refl)
turn-at mine at_signal = (at_flag, refl)
turn-at mine at_flag = (at_end, refl)
turn-at mine at_end = (at_end, refl)
turn-at others at_first = (at_first, refl)
turn-at others at_handing = (at_handing, refl)
turn-at others at_test = (at_test, refl)
turn-at others at_wait = (at_lock, refl)
turn-at others at_lock = (at_signal, refl)
turn-at others at_signal = (at_signal, refl)
turn-at others at_flag = (at_flag, refl)
turn-at others at_end = (at_end, refl)
turn-at unsignalled at_first = (at_first, refl)
turn-at unsignalled at_handing = (at_handing, refl)
turn-at unsignalled at_test = (at_test, refl)
turn-at unsignalled at_wait = (at_test, refl)
turn-at unsignalled at_lock = (at_lock, refl)
turn-at unsignalled at_signal = (at_flag, refl)
turn-at unsignalled at_flag = (at_flag, refl)
turn-at unsignalled at_end = (at_end, refl)

run-at : (turns : List Turn) (p : Place) → (q : Place) × (run turns (at p) ≡ at q)
unfolding run
run-at [] p = (p, refl)
run-at (t ∷ rest) p =
    let next = turn-at t p in let last = run-at rest next.0 in (last.0, rw next.1 last.1)

abbrev pub has_reawakened : Other → Bool
has_reawakened gone = true
has_reawakened _ = false

abbrev pub finish : Threads → Threads
finish s = own_step (own_step s)

finish-at : (p : Place) → has_reawakened (at p).other ≡ true → (finish (at p)).own ≡ returned
unfolding own_step begin_deschedule test_awoken end_wait
finish-at at_first e = absurd (cc)
finish-at at_handing e = absurd (cc)
finish-at at_test e = absurd (cc)
finish-at at_wait e = absurd (cc)
finish-at at_lock e = absurd (cc)
finish-at at_signal e = refl
finish-at at_flag e = refl
finish-at at_end e = refl

-- However the two threads take turns, also if a wait returns without a signal: once `reawaken` is
-- through, `deschedule` returns by at most two steps of the task's own thread.
pub run-finish :
    (turns : List Turn)
    → has_reawakened (run turns begun).other ≡ true
    → (finish (run turns begun)).own ≡ returned
unfolding begun
run-finish turns e =
    let place = run-at turns at_first in
    subst (λ s. (finish s).own ≡ returned) (sym place.1)
      (finish-at place.0 (subst (λ s. has_reawakened s.other ≡ true) place.1 e))
