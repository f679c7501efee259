-- ===== src/Uv/Async/Closes.antt =====
-- The close of a handle of librustuv/src/async.rs while other threads fire and drop it.
use green_rs.Prelude.{◌≡◌, refl, ap, Bool, true, false, not, ◌&&◌, List, [], ◌∷◌, if◌then◌else◌}
use green_rs.Uv.Async.{Async, new, fire, drop_async, begin_cb, end_cb}

-- Where the event loop is: outside the callback; before the call of the user's callback, with the flag
-- read; or after it.
pub data Phase : Type 0 where
  outside : Phase
  before after : Bool → Phase

-- `owed` is whether the handle has been sent, by a fire or by its drop, since the user's callback was
-- last called.
pub record Handle : Type 0 where
  pub async : Async
  pub phase : Phase
  pub owed : Bool

abbrev pub fresh : Handle
fresh = record { async = new; phase = outside; owed = false }

pub data Turn : Type 0 where
  fires drops loops : Turn

-- The event loop takes a step: it calls back for a handle that has been sent and is not closed, the
-- user's callback is called, and the callback ends. Other threads may take steps in between.
abbrev loop_at : Phase → Handle → Handle
loop_at outside h =
    if h.async.sent && not h.async.closed
    then record h { async = (begin_cb h.async).1; phase = before (begin_cb h.async).0 }
    else h
loop_at (before should_exit) h = record h { phase = after should_exit; owed = false }
loop_at (after should_exit) h = record h { async = end_cb should_exit h.async; phase = outside }

-- The owner fires the handle only while it has it.
unfoldable pub turn : Turn → Handle → Handle
turn fires h = if h.async.exit_flag then h else record h { async = fire h.async; owed = true }
turn drops h = if h.async.exit_flag then h else record h { async = drop_async h.async; owed = true }
turn loops h = loop_at h.phase h

unfoldable pub run : List Turn → Handle → Handle
run [] h = h
run (t ∷ rest) h = run rest (turn t h)

abbrev handle : (exit_flag sent closed : Bool) → Phase → Bool → Handle
handle exit_flag sent closed phase owed = record {
  async = record { exit_flag = exit_flag; sent = sent; closed = closed };
  phase = phase;
  owed = owed;
}

-- The states that are reached: before the drop, after it, and closed. A handle that is owed a call has
-- been sent, or the call is about to come.
data Reached : Handle → Type 0 where
  quiet : Reached (handle false false false outside false)
  called : (owed : Bool) → Reached (handle false true false outside owed)
  calling : (owed : Bool) → Reached (handle false false false (before false) owed)
  recalled : (owed : Bool) → Reached (handle false true false (before false) owed)
  spent : Reached (handle false false false (after false) false)
  sent_again : (owed : Bool) → Reached (handle false true false (after false) owed)
  dropped : (owed : Bool) → Reached (handle true true false outside owed)
  dropped_before : (owed : Bool) → Reached (handle true true false (before false) owed)
  dropped_after : (owed : Bool) → Reached (handle true true false (after false) owed)
  closing : (owed : Bool) → Reached (handle true false false (before true) owed)
  ending : Reached (handle true false false (after true) false)
  closed : Reached (handle true false true outside false)

turn-Reached : (t : Turn) {h : Handle} → Reached h → Reached (turn t h)
unfolding turn fire drop_async begin_cb end_cb
turn-Reached fires quiet = called true
turn-Reached fires (called owed) = called true
turn-Reached fires (calling owed) = recalled true
turn-Reached fires (recalled owed) = recalled true
turn-Reached fires spent = sent_again true
turn-Reached fires (sent_again owed) = sent_again true
turn-Reached fires (dropped owed) = dropped owed
turn-Reached fires (dropped_before owed) = dropped_before owed
turn-Reached fires (dropped_after owed) = dropped_after owed
turn-Reached fires (closing owed) = closing owed
turn-Reached fires ending = ending
turn-Reached fires closed = closed
turn-Reached drops quiet = dropped true
turn-Reached drops (called owed) = dropped true
turn-Reached drops (calling owed) = dropped_before true
turn-Reached drops (recalled owed) = dropped_before true
turn-Reached drops spent = dropped_after true
turn-Reached drops (sent_again owed) = dropped_after true
turn-Reached drops (dropped owed) = dropped owed
turn-Reached drops (dropped_before owed) = dropped_before owed
turn-Reached drops (dropped_after owed) = dropped_after owed
turn-Reached drops (closing owed) = closing owed
turn-Reached drops ending = ending
turn-Reached drops closed = closed
turn-Reached loops quiet = quiet
turn-Reached loops (called owed) = calling owed
turn-Reached loops (calling owed) = spent
turn-Reached loops (recalled owed) = sent_again false
turn-Reached loops spent = quiet
turn-Reached loops (sent_again owed) = called owed
turn-Reached loops (dropped owed) = closing owed
turn-Reached loops (dropped_before owed) = dropped_after false
turn-Reached loops (dropped_after owed) = dropped owed
turn-Reached loops (closing owed) = ending
turn-Reached loops ending = closed
turn-Reached loops closed = closed

run-Reached : (turns : List Turn) {h : Handle} → Reached h → Reached (run turns h)
unfolding run
run-Reached [] r = r
run-Reached (t ∷ rest) r = run-Reached rest (turn-Reached t r)

abbrev pub five : List Turn
five = loops ∷ loops ∷ loops ∷ loops ∷ loops ∷ []

settles :
    {h : Handle}
    → Reached h
    → h.async.exit_flag ≡ true
    → run five h ≡ handle true false true outside false
unfolding run turn begin_cb end_cb
settles quiet e = absurd (cc)
settles (called owed) e = absurd (cc)
settles (calling owed) e = absurd (cc)
settles (recalled owed) e = absurd (cc)
settles spent e = absurd (cc)
settles (sent_again owed) e = absurd (cc)
settles (dropped owed) e = refl
settles (dropped_before owed) e = refl
settles (dropped_after owed) e = refl
settles (closing owed) e = refl
settles ending e = refl
settles closed e = refl

not_owed : {h : Handle} → Reached h → (h.async.closed && h.owed) ≡ false
not_owed quiet = refl
not_owed (called owed) = refl
not_owed (calling owed) = refl
not_owed (recalled owed) = refl
not_owed spent = refl
not_owed (sent_again owed) = refl
not_owed (dropped owed) = refl
not_owed (dropped_before owed) = refl
not_owed (dropped_after owed) = refl
not_owed (closing owed) = refl
not_owed ending = refl
not_owed closed = refl

-- However a handle has been fired and dropped by other threads while its event loop took steps, also
-- before and after the user's callback within a callback of libuv: once it has been dropped, it is not
-- closed while a call of the user's callback is owed to a fire or to the drop, and after five more steps
-- of the loop it is closed and none is owed.
pub run_closes :
    (turns : List Turn)
    → (run turns fresh).async.exit_flag ≡ true
    → (((run turns fresh).async.closed && (run turns fresh).owed) ≡ false)
      × ((run five (run turns fresh)).async.closed ≡ true)
      × ((run five (run turns fresh)).owed ≡ false)
unfolding new
run_closes turns e =
    let reached = run-Reached turns quiet in
    let done = settles reached e in
    (not_owed reached, ap (λ h. h.async.closed) done, ap (λ h. h.owed) done)
