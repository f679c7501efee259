-- ===== src/Uv/Timeout/Connect/Waits.antt =====
-- What a connection of librustuv/src/timeout.rs comes to, in any order of its callbacks.
use green_rs.Prelude.{
  ℕ, suc, ◌≡◌, refl, ◌∙◌, ◌⊎◌, inl, inr, true, false, Option, none, some, List, [], ◌∷◌, Result, ok,
  fault, abort, arith, if◌then◌else◌, then_ok, ℤ, pos, negsuc, ◌==ℤ◌, ◌==◌,
}
use green_rs.Uv.Block.{wakeup}
use green_rs.Uv.Stream.{UvResult, uv_ok, uv_err}
use green_rs.Uv.Timeout.Connect.{new, Connecting, connect_begin, connect_end, timer_cb, connect_cb}

pub data Event : Type 0 where
  connects : ℤ → Event
  expires : Event

abbrev also : Option ℕ → List ℕ → List ℕ
also none woken = woken
also (some task) woken = task ∷ woken

-- The status of the connection, if it comes.
abbrev pub connected : ℤ → List Event → ℤ
connected otherwise [] = otherwise
connected otherwise (connects status ∷ rest) = status
connected otherwise (expires ∷ rest) = connected otherwise rest

module _ (canceled : ℤ) where
  -- libuv calls back once for the request, and for the timer while that is started.
  pub step : Event → Connecting → Result (Connecting × Option ℕ)
  step (connects status) c = if c.freed then ok (c, none) else connect_cb canceled status c
  step expires c = elim c.context.timer [ some true ↦ timer_cb canceled c | _ ↦ ok (c, none) ]

  -- With the tasks that are reawakened.
  pub run : List Event → Connecting → Result (Connecting × List ℕ)
  run [] c = ok (c, [])
  run (e ∷ rest) c = then_ok (step e c) (λ a. then_ok (run rest a.0) (λ b. ok (b.0, also a.1 b.1)))

  -- While the handle is open, libuv does not cancel the request.
  abbrev pub IsGenuine : List Event → Type 0
  IsGenuine [] = Unit
  IsGenuine (connects status ∷ rest) = ((status ==ℤ canceled) ≡ false) × IsGenuine rest
  IsGenuine (expires ∷ rest) = IsGenuine rest

  -- With a timeout.
  abbrev pub verdict : List Event → Option ℤ
  verdict [] = none
  verdict (connects status ∷ rest) = some status
  verdict (expires ∷ rest) = some (connected canceled rest)

abbrev finished : ℤ → Connecting
finished status = record {
  context = record { status = status; task = none; timer = some false };
  runs = true;
  attached = true;
  freed = true;
}

abbrev expired : ℤ → Connecting
expired canceled = record (finished canceled) { freed = false }

abbrev pub answer : ℤ → UvResult (Unit {0})
answer status = if status ==ℤ pos 0 then uv_ok tt else uv_err status

run-finished :
    (canceled : ℤ) (events : List Event) (status : ℤ)
    → run canceled events (finished status) ≡ ok (finished status, [])
unfolding run step
run-finished canceled [] status = refl
run-finished canceled (connects other ∷ rest) status = rw (run-finished canceled rest status) refl
run-finished canceled (expires ∷ rest) status = rw (run-finished canceled rest status) refl

run-expired :
    (canceled : ℤ) (events : List Event)
    → IsGenuine canceled events
    → (c : Connecting) × (run canceled events (expired canceled) ≡ ok (c, []))
      × ((connect_end c).1 ≡ answer (connected canceled events))
unfolding run step connect_cb connect_end
run-expired canceled [] genuine = (expired canceled, refl, refl)
run-expired canceled (connects status ∷ rest) genuine =
    (finished status, rw (genuine.0, run-finished canceled rest status) refl, refl)
run-expired canceled (expires ∷ rest) genuine =
    let later = run-expired canceled rest genuine in (later.0, rw later.1 refl, later.2)

abbrev waiting : ℕ → Connecting
waiting task = record {
  context = record { status = negsuc 0; task = some task; timer = some true };
  runs = true;
  attached = true;
  freed = false;
}

begins_waiting :
    (canceled : ℤ) (ms task : ℕ)
    → (connect_begin canceled none (some (pos (suc ms))) task).0 ≡ waiting task
unfolding connect_begin new
begins_waiting canceled ms task = rw (positive ms) refl
  where
    positive : (ms : ℕ) → (suc ms == 0) ≡ false
    positive ms = ground arith

same_answer : {n m : ℤ} → some n ≡ some m → answer n ≡ answer m
same_answer e = cc

run-waiting :
    (canceled : ℤ) (events : List Event) (task : ℕ) (status : ℤ)
    → IsGenuine canceled events
    → verdict canceled events ≡ some status
    → (c : Connecting) × (run canceled events (waiting task) ≡ ok (c, task ∷ []))
      × ((connect_end c).1 ≡ answer status)
unfolding run step connect_cb timer_cb connect_end wakeup
run-waiting canceled [] task status genuine e = absurd (cc)
run-waiting canceled (connects s ∷ rest) task status genuine e =
    (finished s, rw (genuine.0, run-finished canceled rest s) refl, same_answer e)
run-waiting canceled (expires ∷ rest) task status genuine e =
    let later = run-expired canceled rest genuine in
    (later.0, rw later.1 refl, later.2 ∙ same_answer e)

-- Let a task wait for a connection with a positive timeout, and let the request's callback and the
-- timer come in any order, at least one of them. The task is reawakened once and no callback fails;
-- the connection answers with the request's status, also if that came after the timeout, or else
-- that it was cancelled.
pub run_connect :
    (canceled : ℤ) (events : List Event) (ms task : ℕ) (status : ℤ)
    → IsGenuine canceled events
    → verdict canceled events ≡ some status
    → (c : Connecting) × (run canceled events
          (connect_begin canceled none (some (pos (suc ms))) task).0
        ≡ ok (c, task ∷ []))
      × ((connect_end c).1 ≡ answer status)
run_connect canceled events ms task status genuine e =
    rw (begins_waiting canceled ms task) (run-waiting canceled events task status genuine e)

-- A timeout that is not positive cancels a connection at once, though its request has been sent. If
-- libuv then reports another status than ECANCELED, the callback writes to a frame that is gone.
pub connect_begin-connect_cb :
    (canceled : ℤ) (n task : ℕ) (timeout status : ℤ)
    → (timeout ≡ pos 0) ⊎ (timeout ≡ negsuc n)
    → (status ==ℤ canceled) ≡ false
    → ((connect_begin canceled none (some timeout) task).1 ≡ some (uv_err canceled))
      × (connect_cb canceled status (connect_begin canceled none (some timeout) task).0
          ≡ fault abort)
unfolding connect_begin connect_cb
connect_begin-connect_cb canceled n task timeout status (inl e) other =
    (rw e refl, rw (e, other) refl)
connect_begin-connect_cb canceled n task timeout status (inr e) other =
    (rw e refl, rw (e, other) refl)
