-- ===== src/TaskState/Shutdown.antt =====
-- The wait of `SchedPool::shutdown` in libgreen/src/lib.rs while tasks start and end on other threads.
use green_rs.Prelude.{ℕ, ◌+◌, ◌^◌, ◌≤◌, ◌<◌, ◌≡◌, refl, true, false, arith}
use green_rs.TaskState.{TaskState, new, increment, active, decrement}

-- Before the test of `while`, in `recv`, and past the loop.
pub data Phase : Type 0 where
  testing waiting finished : Phase

-- The state that the pool shares, and how many messages have been received.
pub record Waiting : Type 0 where
  pub tasks : TaskState
  pub received : ℕ
  pub phase : Phase

abbrev pub begun : Waiting
begun = record { tasks = new; received = 0; phase = testing }

-- A task of the pool starts or ends.
pub data TaskStep (s : Waiting) : Waiting → Type 0 where
  starts : s.tasks.cnt + 1 < 2 ^ 64 → TaskStep s (record s { tasks = increment s.tasks })
  ends : 0 < s.tasks.cnt → TaskStep s (record s { tasks = decrement s.tasks })

-- A step of the thread that shuts the pool down. It receives only what has been sent.
pub data WaitStep (s : Waiting) : Waiting → Type 0 where
  goes_on : s.phase ≡ testing → active s.tasks ≡ true → WaitStep s (record s { phase = waiting })
  stops : s.phase ≡ testing → active s.tasks ≡ false → WaitStep s (record s { phase = finished })
  receives :
      s.phase ≡ waiting
      → s.received < s.tasks.done
      → WaitStep s (record s { received = s.received + 1; phase = testing })

pub data Reach : Waiting → Type 0 where
  here : Reach begun
  by_task : {s t : Waiting} → Reach s → TaskStep s t → Reach t
  by_wait : {s t : Waiting} → Reach s → WaitStep s t → Reach t

-- Steps of that thread alone lead to `u`.
pub data Waits (u : Waiting) : Waiting → Type 0 where
  at_end : Waits u u
  first : {s t : Waiting} → WaitStep s t → Waits u t → Waits u s

-- No message is received twice, and the thread does not wait for one that has been received.
record IsLive (s : Waiting) : Type 0 where
  small : s.tasks.cnt < 2 ^ 64
  sent : s.received ≤ s.tasks.done
  due : s.phase ≡ waiting → s.tasks.cnt ≡ 0 → s.received < s.tasks.done

TaskStep-IsLive : {s t : Waiting} → TaskStep s t → IsLive s → IsLive t
unfolding increment decrement
TaskStep-IsLive {s} (starts room) h = record {
  small = omega (arith, room, h.small);
  sent = h.sent;
  due = λ p e. omega (arith, e, room);
}
TaskStep-IsLive {s} (ends some) h = record {
  small = omega (arith, some, h.small);
  sent = ground (arith, h.sent);
  due = λ p e. ground (arith, e, some, h.small, h.sent);
}

WaitStep-IsLive : {s t : Waiting} → WaitStep s t → IsLive s → IsLive t
unfolding active
WaitStep-IsLive {s} (goes_on p busy) h = record {
  small = h.small;
  sent = h.sent;
  due = λ q e. ground (arith, busy, e);
}
WaitStep-IsLive {s} (stops p idle) h = record {
  small = h.small;
  sent = h.sent;
  due = λ q e. absurd (cc);
}
WaitStep-IsLive {s} (receives p some) h = record {
  small = h.small;
  sent = omega arith;
  due = λ q e. absurd (cc);
}

Reach-IsLive : {s : Waiting} → Reach s → IsLive s
unfolding new
Reach-IsLive here = record { small = omega arith; sent = omega arith; due = λ p e. absurd (cc) }
Reach-IsLive (by_task r st) = TaskStep-IsLive st (Reach-IsLive r)
Reach-IsLive (by_wait r st) = WaitStep-IsLive st (Reach-IsLive r)

idle-IsFinished :
    (s : Waiting)
    → s.tasks.cnt ≡ 0
    → s.phase ≡ testing
    → (t : Waiting) × Waits t s × (t.phase ≡ finished)
unfolding active
idle-IsFinished s e p =
    (record s { phase = finished }, first (stops p (ground (arith, e))) at_end, refl)

-- Whatever tasks have started and ended so far: once none runs, the thread that shuts the pool down
-- comes to the end of its loop by its own steps, at most two, so it never waits for a message that
-- does not come.
pub shutdown-IsFinished :
    (s : Waiting) → Reach s → s.tasks.cnt ≡ 0 → (t : Waiting) × Waits t s × (t.phase ≡ finished)
shutdown-IsFinished s r e = by_phase s.phase refl
  where
    live : IsLive s
    live = Reach-IsLive r

    by_phase : (p : Phase) → s.phase ≡ p → (t : Waiting) × Waits t s × (t.phase ≡ finished)
    by_phase testing p = idle-IsFinished s e p
    by_phase waiting p =
        let some : s.received < s.tasks.done = live.due p e in
        let after : Waiting = record s { received = s.received + 1; phase = testing } in
        let (t, steps, q) = idle-IsFinished after e refl in (t, first (receives p some) steps, q)
    by_phase finished p = (s, at_end, p)
