-- ===== src/Uv/Stream/Reads.antt =====
-- What a read of librustuv/src/stream.rs answers.
use green_rs.Prelude.{
  ℕ, ◌≡◌, true, false, Option, none, some, List, [], ◌∷◌, Result, ok, fault, unreachable,
  if◌then◌else◌, then_ok, ℤ, pos, ◌==ℤ◌,
}
use green_rs.Uv.Stream.{Reading, read_end, answer, cancel_read, alloc_cb, read_cb}

-- What happens while a task is blocked in `read`: libuv reports, the read is closed with a reason, or
-- its timeout fires.
pub data Event : Type 0 where
  reports closes : ℤ → Event
  times_out : Event

abbrev also : Option ℕ → List ℕ → List ℕ
also none woken = woken
also (some task) woken = task ∷ woken

-- What the timer's callback of librustuv/src/timeout.rs makes of what `cancel_read` answers for a
-- pending request.
abbrev timed_out : Reading × Option ℕ → Result (Reading × Option ℕ)
timed_out (r, none) = fault unreachable
timed_out (r, some task) = ok (r, some task)

module _ (canceled : ℤ) where
  -- libuv calls back only while it reads, with a buffer that it has asked for.
  pub step : Event → Reading → Result (Reading × Option ℕ)
  step (reports n) r =
      if r.started
      then then_ok (alloc_cb r) (λ a. then_ok (read_cb canceled n a.0) (λ b. ok (b.0, some b.1)))
      else ok (r, none)
  step (closes reason) r = ok (cancel_read reason r)
  step times_out r = timed_out (cancel_read canceled r)

  -- With the tasks that are reawakened.
  pub run : List Event → Reading → Result (Reading × List ℕ)
  run [] r = ok (r, [])
  run (e ∷ rest) r = then_ok (step e r) (λ a. then_ok (run rest a.0) (λ b. ok (b.0, also a.1 b.1)))

  -- libuv does not report that a read is canceled.
  abbrev pub IsGenuine : List Event → Type 0
  IsGenuine [] = Unit
  IsGenuine (reports n ∷ rest) = ((n ==ℤ canceled) ≡ false) × IsGenuine rest
  IsGenuine (closes reason ∷ rest) = IsGenuine rest
  IsGenuine (times_out ∷ rest) = IsGenuine rest

-- What a sequence of events comes to: the task stays blocked, its read answers, or the timer's callback
-- panics.
pub data Verdict : Type 0 where
  stays panics : Verdict
  answers : ℤ → Verdict

-- After a cancellation only a timeout matters.
abbrev pub when_cancelled : ℤ → List Event → Verdict
when_cancelled reason [] = answers reason
when_cancelled reason (reports _ ∷ rest) = when_cancelled reason rest
when_cancelled reason (closes _ ∷ rest) = when_cancelled reason rest
when_cancelled reason (times_out ∷ rest) = panics

abbrev pub when_reported : ℤ → List Event → Verdict
when_reported n [] = answers n
when_reported n (reports _ ∷ rest) = when_reported n rest
when_reported n (closes reason ∷ rest) = when_cancelled reason rest
when_reported n (times_out ∷ rest) = panics

abbrev pub verdict : ℤ → List Event → Verdict
verdict canceled [] = stays
verdict canceled (reports n ∷ rest) = when_reported n rest
verdict canceled (closes reason ∷ rest) = when_cancelled reason rest
verdict canceled (times_out ∷ rest) = when_cancelled canceled rest

-- A read that waits, has been reported, and has been cancelled.
abbrev waiting : ℕ → ℕ → Reading
waiting buf task = record {
  context = some (record { buf = some buf; result = pos 0; task = some task });
  attached = true;
  started = true;
}

abbrev reported : ℤ → Reading
reported n = record {
  context = some (record { buf = none; result = n; task = none });
  attached = true;
  started = false;
}

abbrev stopped : Option ℕ → ℤ → Reading
stopped buf reason = record {
  context = some (record { buf = buf; result = reason; task = none });
  attached = false;
  started = false;
}

abbrev pub idle : Reading
idle = record { context = none; attached = false; started = false }

-- What a run comes to, with the tasks that have been reawakened, for each verdict.
abbrev pub Ends : Reading → List ℕ → Verdict → Result (Reading × List ℕ) → Type 0
Ends start woken stays x = x ≡ ok (start, [])
Ends start woken panics x = x ≡ fault unreachable
Ends start woken (answers n) x =
    (r : Reading) × (x ≡ ok (r, woken)) × (read_end r ≡ ok (idle, answer n))

abbrev before : Option ℕ → Result (Reading × List ℕ) → Result (Reading × List ℕ)
before woken x = then_ok x (λ b. ok (b.0, also woken b.1))
