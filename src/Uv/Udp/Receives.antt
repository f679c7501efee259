-- ===== src/Uv/Udp/Receives.antt =====
-- What `recv_from` of librustuv/src/udp.rs answers.
use green_rs.Prelude.{
  ℕ, ◌≡◌, true, false, Option, none, some, List, [], ◌∷◌, Result, ok, fault, unreachable,
  if◌then◌else◌, then_ok, ℤ, pos, ◌==ℤ◌,
}
use green_rs.Uv.Udp.{Receiving, recv_end, received, cancel_read, alloc_cb, recv_cb}

-- What happens while a task is blocked in `recv_from`: libuv reports, or its timeout fires.
pub data Event {ℓ} (A : Type ℓ) : Type ℓ where
  reports : ℤ → Option A → Event A
  times_out : Event A

abbrev also : Option ℕ → List ℕ → List ℕ
also none woken = woken
also (some task) woken = task ∷ woken

-- What a sequence of events comes to: the task stays blocked, `recv_from` answers, or the timer's
-- callback panics.
pub data Verdict {ℓ} (A : Type ℓ) : Type ℓ where
  stays panics : Verdict A
  answers : ℤ × Option A → Verdict A

module _ {ℓ} {A : Type ℓ} (canceled : ℤ) where
  -- What the timer's callback of librustuv/src/timeout.rs makes of what `cancel_read` answers for a
  -- pending request.
  abbrev timed_out : Receiving A × Option ℕ → Result (Receiving A × Option ℕ)
  timed_out (r, none) = fault unreachable
  timed_out (r, some task) = ok (r, some task)

  -- libuv calls back only while it receives, with a buffer that it has asked for.
  pub step : Event A → Receiving A → Result (Receiving A × Option ℕ)
  step (reports n addr) r =
      if r.started
      then then_ok (alloc_cb r) (λ a. recv_cb canceled n a.1 addr a.0)
      else ok (r, none)
  step times_out r = timed_out (cancel_read canceled r)

  -- With the tasks that are reawakened.
  pub run : List (Event A) → Receiving A → Result (Receiving A × List ℕ)
  run [] r = ok (r, [])
  run (e ∷ rest) r = then_ok (step e r) (λ a. then_ok (run rest a.0) (λ b. ok (b.0, also a.1 b.1)))

  -- libuv does not report that a request is canceled.
  abbrev pub IsGenuine : List (Event A) → Type 0
  IsGenuine [] = Unit
  IsGenuine (reports n addr ∷ rest) = ((n ==ℤ canceled) ≡ false) × IsGenuine rest
  IsGenuine (times_out ∷ rest) = IsGenuine rest

  -- Once there is a result, only a timeout matters.
  abbrev pub verdict_after : ℤ × Option A → List (Event A) → Verdict A
  verdict_after v [] = answers v
  verdict_after v (reports n addr ∷ rest) = verdict_after v rest
  verdict_after v (times_out ∷ rest) = panics

  -- A report of nothing changes nothing.
  abbrev pub verdict : List (Event A) → Verdict A
  verdict [] = stays
  verdict (reports n addr ∷ rest) =
      let later = verdict rest in if n ==ℤ pos 0 then later else verdict_after (n, addr) rest
  verdict (times_out ∷ rest) = verdict_after (canceled, none) rest

module _ {ℓ} {A : Type ℓ} where
  abbrev waiting : ℕ → ℕ → Receiving A
  waiting buf task = record {
    context = some (record { task = some task; buf = some buf; result = none });
    attached = true;
    started = true;
  }

  abbrev settled : Option ℕ → ℤ × Option A → Receiving A
  settled buf v = record {
    context = some (record { task = none; buf = buf; result = some v });
    attached = true;
    started = false;
  }

  -- What a run comes to, with the tasks that have been reawakened, for each verdict.
  abbrev pub Ends : Receiving A → List ℕ → Verdict A → Result (Receiving A × List ℕ) → Type ℓ
  Ends start woken stays x = x ≡ ok (start, [])
  Ends start woken panics x = x ≡ fault unreachable
  Ends start woken (answers v) x =
      (r : Receiving A) × (x ≡ ok (r, woken)) × (recv_end r ≡ received (some v))

  abbrev before : Option ℕ → Result (Receiving A × List ℕ) → Result (Receiving A × List ℕ)
  before woken x = then_ok x (λ b. ok (b.0, also woken b.1))
