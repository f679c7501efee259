-- ===== src/Uv/Timeout/Accept/Runs.antt =====
-- An acceptor of librustuv/src/timeout.rs over time.
use green_rs.Prelude.{
  ℕ, Bool, true, false, not, ◌&&◌, Option, none, some, List, [], ◌∷◌, ◌++◌, Result, ok,
  if◌then◌else◌, then_ok, ℤ,
}
use green_rs.Uv.Access
use green_rs.Uv.Access.{Inner, grant, release, release_to, dequeue, regrant, is_closed}
use green_rs.Uv.Stream.{UvResult, uv_ok, uv_err}
use green_rs.Uv.Timeout.{
  State, no_timeout, timed_out, timeout_pending, AccessTimeout, set_timeout, new,
}
use green_rs.Uv.Timeout.Accept.{
  AcceptorState, Accepting, returns, awaits_access, awaits_connection, accept, accept_connection,
  push, accept_timeout,
}

-- An open acceptor without other clones: its task accepts and is resumed, its pusher pushes, and its
-- timeout is set and fires.
pub data Event {ℓ} (A : Type ℓ) : Type ℓ where
  pushes : UvResult A → Event A
  sets : Option ℕ → Event A
  accepts resumes fires : Event A

pub record Acceptor {ℓ} (A : Type ℓ) : Type ℓ where
  pub timeout : AccessTimeout
  pub inner : Inner (AcceptorState A)
  pub waiting : Bool

abbrev pub is_armed : State → Bool
is_armed (timeout_pending _) = true
is_armed no_timeout = false
is_armed timed_out = false

-- The task has been reawakened and has not run since.
abbrev pub late : Bool → Option ℕ → Bool
late true none = true
late true (some _) = false
late false _ = false

module _ {ℓ} {A : Type ℓ} where
  abbrev pub awaits : Accepting A → Bool
  awaits (returns _) = false
  awaits awaits_access = true
  awaits awaits_connection = true

  abbrev pub answers : Accepting A → List (UvResult A)
  answers (returns r) = r ∷ []
  answers awaits_access = []
  answers awaits_connection = []

  abbrev pub after :
      Accepting A × AccessTimeout × Inner (AcceptorState A) × Option ℕ
      → Result (Acceptor A × List (UvResult A))
  after (a, t, i, woken) = ok (record { timeout = t; inner = i; waiting = awaits a }, answers a)

  -- The task sets a timeout and accepts only while it runs; it is resumed only after it has been
  -- reawakened; the timer fires only while it is started, and not between these two.
  unfoldable pub step :
      (code eof : ℤ)
      → (task token : ℕ) → Event A
      → Acceptor A
      → Result (Acceptor A × List (UvResult A))
  step code eof task token (pushes msg) s = ok (record s { inner = (push msg s.inner).0 }, [])
  step code eof task token (sets dur) s =
      if s.waiting then ok (s, []) else ok (record s { timeout = set_timeout dur 0 s.timeout }, [])
  step code eof task token accepts s =
      if s.waiting then ok (s, []) else then_ok (accept code eof task token s.timeout s.inner) after
  step code eof task token resumes s = elim s.inner.value.blocked_acceptor [
    | some _ ↦ ok (s, [])
    | none ↦
        if s.waiting
        then then_ok (accept_connection code eof s.timeout s.inner) after
        else ok (s, [])
  ]
  step code eof task token fires s =
      if is_armed s.timeout.state && not (late s.waiting s.inner.value.blocked_acceptor)
      then then_ok (accept_timeout token s.timeout s.inner)
          (λ (t, i, woken). ok (record s { timeout = t; inner = i }, []))
      else ok (s, [])

  unfoldable pub run :
      (code eof : ℤ)
      → (task token : ℕ) → List (Event A)
      → Acceptor A
      → Result (Acceptor A × List (UvResult A))
  run code eof task token [] s = ok (s, [])
  run code eof task token (e ∷ rest) s =
      then_ok (step code eof task token e s)
        (λ a. then_ok (run code eof task token rest a.0) (λ b. ok (b.0, a.1 ++ b.1)))

  -- The connections among some answers, and among what is pushed.
  abbrev pub connections : List (UvResult A) → List A
  connections [] = []
  connections (uv_ok c ∷ rest) = c ∷ connections rest
  connections (uv_err e ∷ rest) = connections rest

  abbrev pub pushed : List (Event A) → List (UvResult A)
  pushed [] = []
  pushed (pushes msg ∷ rest) = msg ∷ pushed rest
  pushed (sets dur ∷ rest) = pushed rest
  pushed (accepts ∷ rest) = pushed rest
  pushed (resumes ∷ rest) = pushed rest
  pushed (fires ∷ rest) = pushed rest

  -- `AcceptTimeout::new`.
  abbrev pub open_acceptor : Acceptor A
  open_acceptor = record {
    timeout = new;
    inner = Access.new (record { blocked_acceptor = none; pending = [] });
    waiting = false;
  }
