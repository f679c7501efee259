-- ===== src/Uv/Timeout/Accept/Order.antt =====
-- The order in which an acceptor of librustuv/src/timeout.rs hands out the connections that come in.
use mathlib.Core.List.{append-nil}
use green_rs.Prelude.{ℕ, ◌≡◌, refl, none, List, [], ◌∷◌, ◌++◌, ok, ℤ}
use green_rs.Uv.Access
use green_rs.Uv.Access.{Inner, grant, release, release_to, dequeue, regrant, is_closed}
use green_rs.Uv.Stream.{UvResult}
use green_rs.Uv.Timeout.{new}
use green_rs.Uv.Timeout.Accept.Runs.{
  Event, pushes, sets, accepts, resumes, fires, Acceptor, run, connections, pushed, open_acceptor,
}
use green_rs.Uv.Timeout.Accept.States.{unset, Reached, rests, holds, Next, connections-chain}
use green_rs.Uv.Timeout.Accept.Steps.{step-Next}

module _ {ℓ} {A : Type ℓ} (code eof : ℤ) (task token : ℕ) where
  pushed-cons :
      (e : Event A) (rest : List (Event A)) → pushed (e ∷ rest) ≡ pushed (e ∷ []) ++ pushed rest
  pushed-cons (pushes msg) rest = refl
  pushed-cons (sets dur) rest = refl
  pushed-cons accepts rest = refl
  pushed-cons resumes rest = refl
  pushed-cons fires rest = refl

  run-Next :
      (events : List (Event A)) (s : Acceptor A) (pending : List (UvResult A))
      → Reached s pending
      → Next (run code eof task token events s) (pending ++ pushed events)
  unfolding run
  run-Next [] s pending h = record {
    state = s;
    answers = [];
    pending = pending;
    reached = h;
    same = refl;
    kept = rw (append-nil pending) refl;
  }
  run-Next (e ∷ rest) s pending h =
      let first = step-Next code eof task token e s pending h in
      let later = run-Next rest first.state first.pending first.reached in
      record {
        state = later.state;
        answers = first.answers ++ later.answers;
        pending = later.pending;
        reached = later.reached;
        same = rw (first.same, later.same) refl;
        kept = rw (pushed-cons e rest) (
            connections-chain first.answers later.answers first.pending later.pending pending
              (pushed (e ∷ [])) (pushed rest) first.kept later.kept);
      }

left_pending {ℓ} :
    {A : Type ℓ} {s : Acceptor A} {pending : List (UvResult A)}
    → Reached s pending
    → s.inner.value.pending ≡ pending
left_pending (rests clock timer pending) = refl
left_pending (holds clock timer blocked pending) = refl

-- Whatever a pusher pushes to an acceptor that is open and has no other clone, and in whatever order
-- its task accepts and is resumed and its timeout is set and fires, the run returns, and the
-- connections that `accept` has answered with, and then those that are left, are those that were
-- pushed, in order. The timeout does not fire between a reawakening of the task and its run.
pub run-connections {ℓ} :
    {A : Type ℓ} (code eof : ℤ) (task token : ℕ) (events : List (Event A))
    → (s : Acceptor A) × (answers : List (UvResult A)) × (run code eof task token events
          open_acceptor
        ≡ ok (s, answers))
      × (connections answers ++ connections s.inner.value.pending ≡ connections (pushed events))
unfolding new Access.new
run-connections code eof task token events =
    let final = run-Next code eof task token events open_acceptor [] (rests (unset none) none []) in
    (final.state, final.answers, final.same, rw (left_pending final.reached) final.kept)
