-- ===== src/Uv/Timeout/Laws.antt =====
-- What `AccessTimeout` of librustuv/src/timeout.rs does with the access around a timeout.
use green_rs.Prelude.{
  ℕ, ◌≡◌, Bool, true, false, [], ◌∷◌, Option, none, some, arith, ok, if◌then◌else◌,
}
use green_rs.Uv.Access.{Inner, grant, release, dequeue}
use green_rs.Uv.Timeout.{
  AccessTimeout, no_timeout, timeout_pending, no_waiter, guard, canceled, begin_grant, drop_guard,
  timer_cb, resume_grant, access_pending,
}

-- An uncontended request that is granted is undone by the drop of its guard: the access is free
-- again, and the timeout is what it was, with no waiter.
pub begin_grant-drop_guard {ℓ} :
    {A : Type ℓ} (task token : ℕ) (can : Bool) (t t' : AccessTimeout) (i i' : Inner A)
    → i.queue ≡ []
    → t.state ≡ (if can then timeout_pending no_waiter else no_timeout)
    → begin_grant task token t i ≡ (guard can, t', i', none)
    → drop_guard t' i' ≡ ok (t, i, none)
unfolding begin_grant drop_guard grant release
begin_grant-drop_guard task token can t t' i i' alone idle e = ground (arith, alone, idle, e)

-- While a task holds the access, let the timeout of the only one that waits for it fire. That one
-- resumes with `Err`, and the access is then free for anybody, though the first holds it still.
pub timer_cb-resume_grant {ℓ} :
    {A : Type ℓ} (unblock : ℕ → Option ℕ) (task token other token' : ℕ) (t t' : AccessTimeout)
    (i i' : Inner A) (woken : Option ℕ)
    → i.held ≡ true
    → i.queue ≡ record { task = task; token = token } ∷ []
    → t.state ≡ timeout_pending access_pending
    → timer_cb unblock token t i ≡ ok (t', i', woken)
    → (woken ≡ some task)
      × (i'' : Inner A) × (resume_grant t' i' ≡ ok (canceled, t', i'', none))
      × ((grant other token' i'').0 ≡ true)
unfolding timer_cb resume_grant release grant dequeue
timer_cb-resume_grant unblock task token other token' t t' i i' woken h q s e = (
  ground (arith, s, q),
  record i { queue = []; held = false },
  ground (arith, s, q, h),
  ground (arith),
)
