-- ===== src/Uv/Timeout/Accept/Steps.antt =====
-- What one step of an acceptor of librustuv/src/timeout.rs leaves.
use mathlib.Core.List.{append-nil}
use green_rs.Prelude.{ℕ, ◌≡◌, refl, Option, none, some, List, [], ◌∷◌, ◌++◌, ok, ℤ}
use green_rs.Uv.Stream.{UvResult}
use green_rs.Uv.Timeout.{timer_cb, set_timeout}
use green_rs.Uv.Timeout.Accept.{push, cancel_accept, accept_timeout}
use green_rs.Uv.Timeout.Accept.Runs.{
  Event, pushes, sets, accepts, resumes, fires, Acceptor, step, pushed,
}
use green_rs.Uv.Timeout.Accept.Accepts.{accepts-Next, resumes-Next}
use green_rs.Uv.Timeout.Accept.States.{
  unset, elapsed, armed, payload_of, resting, holding, Reached, rests, holds, Next,
}

abbrev stopped : Option (Option ℕ) → Option (Option ℕ)
stopped none = none
stopped (some _) = some none

module _ {ℓ} {A : Type ℓ} (code eof : ℤ) (task token : ℕ) where
  pushes-Next :
      (msg : UvResult A) (s : Acceptor A) (pending : List (UvResult A))
      → Reached s pending
      → Next (step code eof task token (pushes msg) s) (pending ++ msg ∷ [])
  unfolding step push
  pushes-Next msg _ _ (rests clock timer pending) = record {
    state = resting clock timer (pending ++ msg ∷ []);
    answers = [];
    pending = pending ++ msg ∷ [];
    reached = rests clock timer (pending ++ msg ∷ []);
    same = refl;
    kept = refl;
  }
  pushes-Next msg _ _ (holds clock timer blocked pending) = record {
    state = holding clock timer none (pending ++ msg ∷ []);
    answers = [];
    pending = pending ++ msg ∷ [];
    reached = holds clock timer none (pending ++ msg ∷ []);
    same = refl;
    kept = refl;
  }

  sets-Next :
      (dur : Option ℕ) (s : Acceptor A) (pending : List (UvResult A))
      → Reached s pending
      → Next (step code eof task token (sets dur) s) pending
  unfolding step set_timeout
  sets-Next dur _ _ (holds clock timer blocked pending) = record {
    state = holding clock timer blocked pending;
    answers = [];
    pending = pending;
    reached = holds clock timer blocked pending;
    same = refl;
    kept = refl;
  }
  sets-Next (some ms) _ _ (rests clock timer pending) = record {
    state = resting (armed 0) (some (some ms)) pending;
    answers = [];
    pending = pending;
    reached = rests (armed 0) (some (some ms)) pending;
    same = refl;
    kept = refl;
  }
  sets-Next none _ _ (rests clock timer pending) = record {
    state = resting (unset (payload_of clock)) (stopped timer) pending;
    answers = [];
    pending = pending;
    reached = rests (unset (payload_of clock)) (stopped timer) pending;
    same = by_timer timer;
    kept = refl;
  }
    where
      by_timer :
          (timer : Option (Option ℕ))
          → step {A = A} code eof task token (sets none) (resting clock timer pending)
            ≡ ok (resting (unset (payload_of clock)) (stopped timer) pending, [])
      by_timer none = refl
      by_timer (some _) = refl

  fires-Next :
      (s : Acceptor A) (pending : List (UvResult A))
      → Reached s pending
      → Next (step code eof task token fires s) pending
  unfolding step accept_timeout cancel_accept timer_cb
  fires-Next _ _ (rests (unset p) timer pending) = record {
    state = resting (unset p) timer pending;
    answers = [];
    pending = pending;
    reached = rests (unset p) timer pending;
    same = refl;
    kept = refl;
  }
  fires-Next _ _ (rests (elapsed p) timer pending) = record {
    state = resting (elapsed p) timer pending;
    answers = [];
    pending = pending;
    reached = rests (elapsed p) timer pending;
    same = refl;
    kept = refl;
  }
  fires-Next _ _ (rests (armed p) timer pending) = record {
    state = resting (elapsed (some p)) timer pending;
    answers = [];
    pending = pending;
    reached = rests (elapsed (some p)) timer pending;
    same = refl;
    kept = refl;
  }
  fires-Next _ _ (holds (unset p) timer blocked pending) = record {
    state = holding (unset p) timer blocked pending;
    answers = [];
    pending = pending;
    reached = holds (unset p) timer blocked pending;
    same = refl;
    kept = refl;
  }
  fires-Next _ _ (holds (elapsed p) timer blocked pending) = record {
    state = holding (elapsed p) timer blocked pending;
    answers = [];
    pending = pending;
    reached = holds (elapsed p) timer blocked pending;
    same = refl;
    kept = refl;
  }
  fires-Next _ _ (holds (armed p) timer none pending) = record {
    state = holding (armed p) timer none pending;
    answers = [];
    pending = pending;
    reached = holds (armed p) timer none pending;
    same = refl;
    kept = refl;
  }
  fires-Next _ _ (holds (armed p) timer (some b) pending) = record {
    state = holding (elapsed (some p)) timer none pending;
    answers = [];
    pending = pending;
    reached = holds (elapsed (some p)) timer none pending;
    same = refl;
    kept = refl;
  }

  pub step-Next :
      (e : Event A) (s : Acceptor A) (pending : List (UvResult A))
      → Reached s pending
      → Next (step code eof task token e s) (pending ++ pushed (e ∷ []))
  step-Next (pushes msg) s pending h = pushes-Next msg s pending h
  step-Next (sets dur) s pending h = rw (append-nil pending) (sets-Next dur s pending h)
  step-Next accepts s pending h =
      rw (append-nil pending) (accepts-Next code eof task token s pending h)
  step-Next resumes s pending h =
      rw (append-nil pending) (resumes-Next code eof task token s pending h)
  step-Next fires s pending h = rw (append-nil pending) (fires-Next s pending h)
