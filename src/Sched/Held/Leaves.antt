-- ===== src/Sched/Held/Leaves.antt =====
-- The count of a task when a green task yields, blocks or ends (libgreen/src/sched.rs,
-- libgreen/src/task.rs).
use green_rs.Prelude.{ℕ, ◌+◌, ◌≡◌, refl, Bool, some, List, [], ◌∷◌, arith, unwrap}
use green_rs.Task.{GreenTask, convert}
use green_rs.Task.Laws.{convert-address}
use green_rs.Sched.World.{
  World, M, BlockedTask, Local, vacant, other_task, green_task, Cleanup, recycle, requeue,
  reset_yield_check, rand, make_handle, ◌>>=◌,
}
use green_rs.Sched.Logic.{After, After-mono, After-bind, After-lift, After-expect}
use green_rs.Sched.Switch.{take_sched, take_sched_task, change_task_context}
use green_rs.Sched.Green.{
  local_green, take_local, yield_green, terminate, ensure_handle, deschedule, blocking,
}
use green_rs.Sched.Held.{is_task, Holds, Took}
use green_rs.Sched.Held.Cleanups.{kept}
use green_rs.Sched.Held.Swaps.{GreenKeeps, change_task_context-Holds, take_sched-Took}
use green_rs.Sched.Held.Cycle.{Took-rest}

module _ {a k : ℕ} where
  pub take_local-Took :
      {b : BlockedTask} {w : World}
      → Holds a k (green_task b) w
      → After (take_local w) (λ t. Took a k vacant (some t))
  unfolding take_local local_green
  take_local-Took {b} {w} h = by_local w.local refl
    where
      emptied : World
      emptied = record w { local = vacant }

      by_local : (l : Local) → w.local ≡ l → After (take_local w) (λ t. Took a k vacant (some t))
      by_local vacant e = absurd (ground (arith, h.in_tls))
      by_local other_task e = absurd (ground (arith, h.in_tls))
      by_local (green_task t) e =
          rw (e, take_local)
            (After-lift _ (convert t) take_sched emptied
              λ task c. take_sched-Took task (ground (arith, h, e, convert-address t c)))

  take_sched_task-Took :
      {w : World} → Holds a k vacant w → After (take_sched_task w) (λ t. Took a k vacant (some t))
  unfolding take_sched_task
  take_sched_task-Took {w} h = After-expect _ unwrap w.sched.sched_task _ w λ t e. ground (arith, h)

-- The scheduler task runs next; the task that it takes over from is kept by the cleanup job.
leave-Took :
    {a k : ℕ} (f : Cleanup) (cur : GreenTask) {w : World}
    → Holds a k vacant w
    → After
        ((take_sched_task >>= λ stask. change_task_context cur stask f) w)
        (λ r. Took a (k + kept a f cur) vacant (some r))
leave-Took {a} {k} f cur {w} h =
    After-bind (λ r. Took a (k + kept a f cur) vacant (some r)) (λ t. Took a k vacant (some t))
      take_sched_task (λ stask. change_task_context cur stask f) w (take_sched_task-Took h)
      λ stask w₁ h₁.
        let (rest, e, held) = Took-rest stask h₁ in
        After-mono _ (λ r w₂. Holds a (rest + kept a f cur) vacant w₂ × (r.address ≡ stask.address))
          (change_task_context cur stask f w₁) (change_task_context-Holds cur stask f held)
          λ r w₂ p. ground (arith, p.0, p.1, e)

-- A task that yields is held on, in the deque of its scheduler.
pub yield_green-Took :
    {a k : ℕ} (cur : GreenTask) {w : World}
    → Holds a k vacant w
    → After (yield_green cur w) (λ stask. Took a (k + is_task a cur) vacant (some stask))
unfolding yield_green reset_yield_check rand
yield_green-Took {a} {k} cur {w} h = leave-Took requeue cur (ground (arith, h))

-- A task that ends is let go, and no other.
pub terminate-Took :
    {a k : ℕ} (cur : GreenTask) {w : World}
    → Holds a k vacant w
    → After (terminate cur w) (λ stask. Took a k vacant (some stask))
unfolding terminate
terminate-Took {a} {k} cur {w} h =
    After-mono _ (λ r. Took a (k + 0) vacant (some r)) (terminate cur w) (leave-Took recycle cur h)
      λ r w' p. ground (arith, p)

ensure_handle-Holds :
    {a k : ℕ} (cur : GreenTask) {w : World}
    → Holds a k vacant w
    → After (ensure_handle cur w) (λ t w'. Holds a k vacant w' × (t.address ≡ cur.address))
unfolding ensure_handle make_handle
ensure_handle-Holds cur h = ground (arith, h)

kept-blocking :
    (a : ℕ) (answers : List Bool) (first : Bool) (cur : GreenTask)
    → kept a (blocking answers first) cur ≡ is_task a cur
kept-blocking a [] first cur = refl
kept-blocking a (taken ∷ []) first cur = refl
kept-blocking a (taken ∷ other ∷ answers) first cur = refl

-- A task that blocks is held on: by the blocked tasks, or by the deque if it is woken at once.
pub deschedule-Took :
    {a k : ℕ} (answers : List Bool) (first : Bool) (cur : GreenTask) {w : World}
    → Holds a k vacant w
    → After
        (deschedule answers first cur w)
        (λ stask. Took a (k + is_task a cur) vacant (some stask))
unfolding deschedule
deschedule-Took {a} {k} answers first cur {w} h =
    After-bind _ (λ t w'. Holds a k vacant w' × (t.address ≡ cur.address)) (ensure_handle cur)
      (λ t. take_sched_task >>= λ stask. change_task_context t stask (blocking answers first)) w
      (ensure_handle-Holds cur h)
      λ t w₁ p.
        rw (← p.1, ← kept-blocking a answers first t) (leave-Took (blocking answers first) t p.0)

-- Green tasks that yield keep every task, so they meet what `run_sched_once` asks of them.
unfoldable pub yielding : M GreenTask
yielding = take_local >>= yield_green

pub yielding-GreenKeeps : (a : ℕ) → GreenKeeps a yielding
unfolding yielding
yielding-GreenKeeps a k b w h =
    After-bind _ (λ t. Took a k vacant (some t)) take_local yield_green w (take_local-Took h)
      λ t w₁ h₁. let (rest, e, held) = Took-rest t h₁ in rw (← e) (yield_green-Took t held)
