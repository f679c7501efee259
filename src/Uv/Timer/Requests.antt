-- ===== src/Uv/Timer/Requests.antt =====
-- Requests to a timer of librustuv/src/timer.rs.
use green_rs.Prelude.{
  ℕ, ◌+◌, ◌^◌, ◌<◌, ◌≡◌, refl, ◌∙◌, Option, none, some, List, [], ◌∷◌, arith, length,
}
use green_rs.Stack.{uint}
use green_rs.Uv.Timer.{
  Action, wake_task, call_once, call_many, Timer, sleep, oneshot, periodic, drop_timer,
}

-- What is asked of a timer.
pub data Request : Type 0 where
  sleeps shoots repeats : (ms who : ℕ) → Request
  drops : Request

unfoldable pub perform : Timer → Request → Timer
unfolding sleep oneshot periodic drop_timer
perform t (sleeps ms task) = sleep ms task t
perform t (shoots ms callback) = oneshot ms callback t
perform t (repeats ms callback) = periodic ms callback t
perform t drops = drop_timer t

unfoldable pub perform_all : Timer → List Request → Timer
perform_all t [] = t
perform_all t (r ∷ rest) = perform_all (perform t r) rest

-- What a timer is to do, without the id that the code keeps beside it.
pub data Plan : Type 0 where
  wakes calls keeps_calling : ℕ → Plan
  nothing : Plan

abbrev pub plan_of : Option Action → Plan
plan_of none = nothing
plan_of (some (wake_task task)) = wakes task
plan_of (some (call_once callback)) = calls callback
plan_of (some (call_many callback _)) = keeps_calling callback

abbrev pub asked : Request → Plan
asked (sleeps _ task) = wakes task
asked (shoots _ callback) = calls callback
asked (repeats _ callback) = keeps_calling callback
asked drops = nothing

-- The last request counts.
abbrev pub latest : Plan → List Request → Plan
latest plan [] = plan
latest plan (r ∷ rest) = latest (asked r) rest

perform-id : (t : Timer) (r : Request) → (perform t r).id ≡ uint (t.id + 1)
unfolding perform
perform-id t (sleeps ms task) = refl
perform-id t (shoots ms callback) = refl
perform-id t (repeats ms callback) = refl
perform-id t drops = refl

pub perform-plan : (t : Timer) (r : Request) → plan_of (perform t r).action ≡ asked r
unfolding perform
perform-plan t (sleeps ms task) = refl
perform-plan t (shoots ms callback) = refl
perform-plan t (repeats ms callback) = refl
perform-plan t drops = refl

pub perform_all-id :
    (t : Timer) (rs : List Request)
    → t.id < 2 ^ 64
    → (perform_all t rs).id ≡ uint (t.id + length rs)
unfolding perform_all
perform_all-id t [] h = omega arith
perform_all-id t (r ∷ rest) h =
    perform_all-id (perform t r) rest (rw (perform-id t r) (omega arith))
    ∙ rw (perform-id t r) (omega arith)

pub perform_all-plan :
    (t : Timer) (rs : List Request)
    → plan_of (perform_all t rs).action ≡ latest (plan_of t.action) rs
unfolding perform_all
perform_all-plan t [] = refl
perform_all-plan t (r ∷ rest) = rw (← perform-plan t r) (perform_all-plan (perform t r) rest)
