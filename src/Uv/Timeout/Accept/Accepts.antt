-- ===== src/Uv/Timeout/Accept/Accepts.antt =====
-- What `accept` of librustuv/src/timeout.rs leaves of an acceptor, called or resumed.
use green_rs.Prelude.{ℕ, ◌≡◌, refl, none, some, List, [], ◌∷◌, ok, ℤ}
use green_rs.Uv.Access.{grant, release, is_closed}
use green_rs.Uv.Stream.{UvResult, uv_err}
use green_rs.Uv.Timeout.{begin_grant, drop_guard, has_timed_out}
use green_rs.Uv.Timeout.Accept.{accept, accept_guarded, accept_connection}
use green_rs.Uv.Timeout.Accept.Runs.{accepts, resumes, Acceptor, step}
use green_rs.Uv.Timeout.Accept.States.{
  Clock, unset, elapsed, armed, resting, holding, Reached, rests, holds, Next, connections-cons,
}

module _ {ℓ} {A : Type ℓ} (code eof : ℤ) (task token : ℕ) where
  pub accepts-Next :
      (s : Acceptor A) (pending : List (UvResult A))
      → Reached s pending
      → Next (step code eof task token accepts s) pending
  unfolding step accept accept_guarded begin_grant drop_guard grant release has_timed_out is_closed
  accepts-Next _ _ (holds clock timer blocked pending) = record {
    state = holding clock timer blocked pending;
    answers = [];
    pending = pending;
    reached = holds clock timer blocked pending;
    same = refl;
    kept = refl;
  }
  accepts-Next _ _ (rests (elapsed p) timer []) = record {
    state = resting (elapsed p) timer [];
    answers = uv_err code ∷ [];
    pending = [];
    reached = rests (elapsed p) timer [];
    same = refl;
    kept = refl;
  }
  accepts-Next _ _ (rests (elapsed p) timer (msg ∷ rest)) = record {
    state = resting (elapsed p) timer rest;
    answers = msg ∷ [];
    pending = rest;
    reached = rests (elapsed p) timer rest;
    same = refl;
    kept = connections-cons msg rest;
  }
  accepts-Next _ _ (rests (unset p) timer []) = record {
    state = holding (unset p) timer (some task) [];
    answers = [];
    pending = [];
    reached = holds (unset p) timer (some task) [];
    same = refl;
    kept = refl;
  }
  accepts-Next _ _ (rests (unset p) timer (msg ∷ rest)) = record {
    state = resting (unset p) timer rest;
    answers = msg ∷ [];
    pending = rest;
    reached = rests (unset p) timer rest;
    same = refl;
    kept = connections-cons msg rest;
  }
  accepts-Next _ _ (rests (armed p) timer []) = record {
    state = holding (armed p) timer (some task) [];
    answers = [];
    pending = [];
    reached = holds (armed p) timer (some task) [];
    same = refl;
    kept = refl;
  }
  accepts-Next _ _ (rests (armed p) timer (msg ∷ rest)) = record {
    state = resting (armed p) timer rest;
    answers = msg ∷ [];
    pending = rest;
    reached = rests (armed p) timer rest;
    same = refl;
    kept = connections-cons msg rest;
  }

  pub resumes-Next :
      (s : Acceptor A) (pending : List (UvResult A))
      → Reached s pending
      → Next (step code eof task token resumes s) pending
  unfolding step accept_connection drop_guard release
  resumes-Next _ _ (rests clock timer pending) = record {
    state = resting clock timer pending;
    answers = [];
    pending = pending;
    reached = rests clock timer pending;
    same = refl;
    kept = refl;
  }
  resumes-Next _ _ (holds clock timer (some b) pending) = record {
    state = holding clock timer (some b) pending;
    answers = [];
    pending = pending;
    reached = holds clock timer (some b) pending;
    same = refl;
    kept = refl;
  }
  resumes-Next _ _ (holds clock timer none []) = record {
    state = resting clock timer [];
    answers = uv_err code ∷ [];
    pending = [];
    reached = rests clock timer [];
    same = left clock;
    kept = refl;
  }
    where
      left :
          (clock : Clock)
          → step {A = A} code eof task token resumes (holding clock timer none [])
            ≡ ok (resting clock timer [], uv_err code ∷ [])
      left (unset p) = refl
      left (elapsed p) = refl
      left (armed p) = refl
  resumes-Next _ _ (holds clock timer none (msg ∷ rest)) = record {
    state = resting clock timer rest;
    answers = msg ∷ [];
    pending = rest;
    reached = rests clock timer rest;
    same = left clock;
    kept = connections-cons msg rest;
  }
    where
      left :
          (clock : Clock)
          → step {A = A} code eof task token resumes (holding clock timer none (msg ∷ rest))
            ≡ ok (resting clock timer rest, msg ∷ [])
      left (unset p) = refl
      left (elapsed p) = refl
      left (armed p) = refl
