-- ===== src/Uv/Timer/Actions.antt =====
-- Which action a timer of librustuv/src/timer.rs takes next.
use green_rs.Prelude.{
  ℕ, ◌^◌, ◌<◌, ◌≡◌, ◌≢◌, refl, ◌∙◌, Option, none, some, List, [], ◌∷◌, arith, Result, ok, fault,
  length,
}
use green_rs.Uv.Timer.{Action, wake_task, call_once, call_many, Timer, new, restore, timer_cb}
use green_rs.Uv.Timer.Requests.{
  Request, sleeps, shoots, repeats, drops, perform, perform_all, Plan, wakes, calls, keeps_calling,
  nothing, plan_of, asked, latest, perform-plan, perform_all-id, perform_all-plan,
}

-- The id beside a repeated callback is the timer's own.
record IsCurrent (t : Timer) : Type 0 where
  small : t.id < 2 ^ 64
  same : (callback id : ℕ) → t.action ≡ some (call_many callback id) → id ≡ t.id

perform-IsCurrent : (t : Timer) (r : Request) → IsCurrent t → IsCurrent (perform t r)
unfolding perform
perform-IsCurrent t (sleeps ms task) h = record {
  small = omega arith;
  same = λ c id e. absurd (cc);
}
perform-IsCurrent t (shoots ms callback) h = record {
  small = omega arith;
  same = λ c id e. absurd (cc);
}
perform-IsCurrent t (repeats ms callback) h = record { small = omega arith; same = λ c id e. cc }
perform-IsCurrent t drops h = record { small = omega arith; same = λ c id e. absurd (cc) }

perform_all-IsCurrent : (t : Timer) (rs : List Request) → IsCurrent t → IsCurrent (perform_all t rs)
unfolding perform_all
perform_all-IsCurrent t [] h = h
perform_all-IsCurrent t (r ∷ rest) h =
    perform_all-IsCurrent (perform t r) rest (perform-IsCurrent t r h)

-- A request between the test and the callback is noticed, unless there were `2 ^ 64` of them.
restore-plan :
    (callback : ℕ) (t : Timer) (rs : List Request)
    → t.id < 2 ^ 64
    → length rs < 2 ^ 64
    → t.action ≡ none
    → plan_of (restore callback t.id (perform_all t rs)).action ≡ latest (keeps_calling callback) rs
unfolding restore perform_all
restore-plan callback t [] small few e = ground arith
restore-plan callback t (r ∷ rest) small few e =
    let other : (perform_all t (r ∷ rest)).id ≢ t.id =
      λ same. omega (arith, same, perform_all-id t (r ∷ rest) small) in
    ground (arith, other, perform_all-plan t (r ∷ rest))

restore-IsCurrent : (callback id : ℕ) (t : Timer) → IsCurrent t → IsCurrent (restore callback id t)
unfolding restore
restore-IsCurrent callback id t h = record {
  small = ground (arith, h.small);
  same = λ c i e. ground (arith, h.same c i, e);
}

-- A timer is asked for something, or fires; the callback that it then calls asks for some things.
pub data Event : Type 0 where
  asks : Request → Event
  fires : List Request → Event

abbrev settled : Result (Timer × Option ℕ) → Timer → Timer
settled (ok (t, woken)) _ = t
settled (fault e) t = t

-- libuv fires no timer without an action, since that is not started.
pub step : Timer → Event → Timer
step t (asks r) = perform t r
step t (fires rs) = elim t.action [
  | none ↦ t
  | some _ ↦ settled (timer_cb (λ callback u. perform_all u rs) t) t
]

pub run : Timer → List Event → Timer
run t [] = t
run t (e ∷ rest) = run (step t e) rest

-- The same without ids.
abbrev pub after_firing : Plan → List Request → Plan
after_firing (wakes task) rs = nothing
after_firing (calls callback) rs = latest nothing rs
after_firing (keeps_calling callback) rs = latest (keeps_calling callback) rs
after_firing nothing rs = nothing

abbrev pub after : Plan → Event → Plan
after plan (asks r) = asked r
after plan (fires rs) = after_firing plan rs

abbrev pub after_all : Plan → List Event → Plan
after_all plan [] = plan
after_all plan (e ∷ rest) = after_all (after plan e) rest

-- No callback makes so many requests that the id comes round.
abbrev pub IsBounded : List Event → Type 0
IsBounded [] = Unit
IsBounded (asks r ∷ rest) = IsBounded rest
IsBounded (fires rs ∷ rest) = (length rs < 2 ^ 64) × IsBounded rest

abbrev taken : Timer → Timer
taken t = record t { action = none }

-- The timer after it has fired, by the action that it had.
abbrev fired : Option Action → Timer → List Request → Timer
fired none t rs = t
fired (some (wake_task task)) t rs = taken t
fired (some (call_once callback)) t rs = perform_all (taken t) rs
fired (some (call_many callback id)) t rs = restore callback id (perform_all (taken t) rs)

step_asks : (t : Timer) (r : Request) → step t (asks r) ≡ perform t r
unfolding step
step_asks t r = refl

step_fires : (t : Timer) (rs : List Request) → step t (fires rs) ≡ fired t.action t rs
unfolding step timer_cb
step_fires t rs = by_action t.action refl
  where
    by_action : (a : Option Action) → t.action ≡ a → step t (fires rs) ≡ fired a t rs
    by_action none e = ground (arith, e)
    by_action (some (wake_task task)) e = ground (arith, e)
    by_action (some (call_once callback)) e = ground (arith, e)
    by_action (some (call_many callback id)) e = ground (arith, e)

fired-plan :
    (a : Option Action) (t : Timer) (rs : List Request)
    → IsCurrent t
    → t.action ≡ a
    → length rs < 2 ^ 64
    → plan_of (fired a t rs).action ≡ after_firing (plan_of a) rs
fired-plan none t rs h e few = rw e
fired-plan (some (wake_task task)) t rs h e few = refl
fired-plan (some (call_once callback)) t rs h e few = perform_all-plan (taken t) rs
fired-plan (some (call_many callback id)) t rs h e few =
    rw (h.same callback id e) (restore-plan callback (taken t) rs h.small few refl)

fired-IsCurrent :
    (a : Option Action) (t : Timer) (rs : List Request) → IsCurrent t → IsCurrent (fired a t rs)
fired-IsCurrent a t rs h = by_action a
  where
    none_yet : IsCurrent (taken t)
    none_yet = record { small = h.small; same = λ c id e. absurd (cc) }

    by_action : (a : Option Action) → IsCurrent (fired a t rs)
    by_action none = h
    by_action (some (wake_task task)) = none_yet
    by_action (some (call_once callback)) = perform_all-IsCurrent (taken t) rs none_yet
    by_action (some (call_many callback id)) =
        restore-IsCurrent callback id _ (perform_all-IsCurrent (taken t) rs none_yet)

step-IsCurrent : (t : Timer) (e : Event) → IsCurrent t → IsCurrent (step t e)
step-IsCurrent t (asks r) h = rw (step_asks t r) (perform-IsCurrent t r h)
step-IsCurrent t (fires rs) h = rw (step_fires t rs) (fired-IsCurrent t.action t rs h)

run-plan :
    (t : Timer) (events : List Event)
    → IsCurrent t
    → IsBounded events
    → plan_of (run t events).action ≡ after_all (plan_of t.action) events
unfolding run
run-plan t [] h few = refl
run-plan t (asks r ∷ rest) h few =
    run-plan (step t (asks r)) rest (step-IsCurrent t (asks r) h) few
    ∙ rw (step_asks t r, perform-plan t r) refl
run-plan t (fires rs ∷ rest) h few =
    run-plan (step t (fires rs)) rest (step-IsCurrent t (fires rs) h) few.1
    ∙ rw (step_fires t rs, fired-plan t.action t rs h refl few.0) refl

-- Whatever a timer is asked for and whatever its callbacks ask for when it fires, its next action is
-- the one that was asked for last, also if that was within the callback of a repeated action, which
-- else goes on; after the timer has been dropped there is none.
pub run_plan :
    (events : List Event)
    → IsBounded events
    → plan_of (run new events).action ≡ after_all nothing events
unfolding new
run_plan events few =
    run-plan new events (record { small = omega arith; same = λ c id e. absurd (cc) }) few
