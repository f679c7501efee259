-- ===== src/Uv/Timeout/Accept/States.antt =====
-- The states that an acceptor of librustuv/src/timeout.rs reaches, and the connections in lists of
-- what it hands out.
use mathlib.Core.List.{append_assoc}
use green_rs.Prelude.{
  ℕ, ◌≡◌, refl, sym, ap, Bool, true, false, Option, none, some, List, [], ◌∷◌, ◌++◌, Result, ok,
}
use green_rs.Uv.Stream.{UvResult, uv_ok, uv_err}
use green_rs.Uv.Timeout.{State, no_timeout, timed_out, timeout_pending, no_waiter, request_pending}
use green_rs.Uv.Timeout.Accept.Runs.{Acceptor, connections}

-- The states that are reached: the timeout is not set, set, or has elapsed; the task waits or not.
pub data Clock : Type 0 where
  unset elapsed : Option ℕ → Clock
  armed : ℕ → Clock

abbrev pub state_of : Bool → Clock → State
state_of _ (unset _) = no_timeout
state_of _ (elapsed _) = timed_out
state_of true (armed _) = timeout_pending request_pending
state_of false (armed _) = timeout_pending no_waiter

abbrev pub payload_of : Clock → Option ℕ
payload_of (unset payload) = payload
payload_of (elapsed payload) = payload
payload_of (armed payload) = some payload

module _ {ℓ} {A : Type ℓ} where
  abbrev pub resting : Clock → Option (Option ℕ) → List (UvResult A) → Acceptor A
  resting clock timer pending = record {
    timeout = record { state = state_of false clock; timer = timer; payload = payload_of clock };
    inner = record {
      queue = [];
      held = false;
      closed = false;
      value = record { blocked_acceptor = none; pending = pending };
    };
    waiting = false;
  }

  abbrev pub holding : Clock → Option (Option ℕ) → Option ℕ → List (UvResult A) → Acceptor A
  holding clock timer blocked pending = record {
    timeout = record { state = state_of true clock; timer = timer; payload = payload_of clock };
    inner = record {
      queue = [];
      held = true;
      closed = false;
      value = record { blocked_acceptor = blocked; pending = pending };
    };
    waiting = true;
  }

  pub data Reached : Acceptor A → List (UvResult A) → Type ℓ where
    rests :
        (clock : Clock) (timer : Option (Option ℕ)) (pending : List (UvResult A))
        → Reached (resting clock timer pending) pending
    holds :
        (clock : Clock) (timer : Option (Option ℕ)) (blocked : Option ℕ)
        (pending : List (UvResult A))
        → Reached (holding clock timer blocked pending) pending

  -- What a step leaves.
  pub record Next (r : Result (Acceptor A × List (UvResult A))) (before : List (UvResult A))
      : Type ℓ where
    pub state : Acceptor A
    pub answers : List (UvResult A)
    pub pending : List (UvResult A)
    pub reached : Reached state pending
    pub same : r ≡ ok (state, answers)
    pub kept : connections answers ++ connections pending ≡ connections before

  pub connections-append :
      (xs ys : List (UvResult A)) → connections (xs ++ ys) ≡ connections xs ++ connections ys
  connections-append [] ys = refl
  connections-append (uv_ok c ∷ xs) ys = ap (λ l. c ∷ l) (connections-append xs ys)
  connections-append (uv_err e ∷ xs) ys = connections-append xs ys

  -- Two steps in a row.
  pub connections-chain :
      (first later middle left before x y : List (UvResult A))
      → connections first ++ connections middle ≡ connections (before ++ x)
      → connections later ++ connections left ≡ connections (middle ++ y)
      → connections (first ++ later) ++ connections left ≡ connections (before ++ (x ++ y))
  connections-chain first later middle left before x y e e' =
      rw
        (
          connections-append first later,
          append_assoc (connections first) (connections later) (connections left),
          e',
          connections-append middle y,
          sym (append_assoc (connections first) (connections middle) (connections y)),
          e,
          sym (append_assoc before x y),
          connections-append (before ++ x) y,
        )
        refl

  pub connections-cons :
      (x : UvResult A) (ys : List (UvResult A))
      → connections (x ∷ []) ++ connections ys ≡ connections (x ∷ ys)
  connections-cons x ys = sym (connections-append (x ∷ []) ys)
