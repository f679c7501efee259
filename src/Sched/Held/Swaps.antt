-- ===== src/Sched/Held/Swaps.antt =====
-- The change of context of libgreen/src/sched.rs keeps every task but the one whose stack is
-- recycled, and so do the calls that resume a task and return to the scheduler task.
use green_rs.Prelude.{ℕ, ◌+◌, ◌≡◌, refl, some, arith, unwrap, is_some}
use green_rs.Task.{GreenTask, Coroutine, Context, empty, entry, suspended, is_sched, swap}
use green_rs.Task.Laws.{swap-address}
use green_rs.Sched.World.{
  World, M, BlockedTask, Local, vacant, green_task, Cleanup, park, switch, recycle, requeue,
  block_once, block_select,
}
use green_rs.Sched.Logic.{After, After-bind, After-lift, After-expect, After-assert}
use green_rs.Sched.Switch.{
  run_cleanup_job, swap_out, resume_context, swap_in, change_task_context, put, take_sched,
  resume_task_immediately,
}
use green_rs.Sched.Held.{is_task, Holds, Took}
use green_rs.Sched.Held.Cleanups.{kept, run_cleanup-Holds}

kept-address :
    (a : ℕ) (f : Cleanup) (t t' : GreenTask) → t.address ≡ t'.address → kept a f t ≡ kept a f t'
kept-address a recycle t t' e = refl
kept-address a park t t' e = rw e
kept-address a switch t t' e = rw e
kept-address a requeue t t' e = rw e
kept-address a (block_once _) t t' e = rw e
kept-address a (block_select _ _) t t' e = rw e

-- The world between the two halves of a swap.
abbrev waiting : World → GreenTask → Cleanup → World
waiting w task f = record w {
  sched = record w.sched { cleanup_job = some (record { task = task; f = f }) };
}

record Swapped (w : World) (cur next : GreenTask) (f : Cleanup) (r : GreenTask) (w' : World)
    : Type 0 where
  same : r.address ≡ next.address
  saved : Coroutine
  waits : w' ≡ waiting w (record cur { coroutine = some saved }) f

swap_out-Swapped :
    (cur next : GreenTask) (f : Cleanup) (w : World)
    → After (swap_out cur next f w) (Swapped w cur next f)
unfolding swap_out
swap_out-Swapped cur next f w = After-expect _ unwrap cur.coroutine _ w λ c _.
    After-expect _ unwrap next.coroutine _ w
      λ _ _. record { same = refl; saved = record c { saved_context = suspended }; waits = refl }

module _ {a k : ℕ} {l : Local} where
  -- Running the job that waits.
  run_cleanup_job-Holds :
      (w : World) (task : GreenTask) (f : Cleanup)
      → Holds a k l w
      → After (run_cleanup_job (waiting w task f)) (λ _. Holds a (k + kept a f task) l)
  unfolding run_cleanup_job
  run_cleanup_job-Holds w task f h = run_cleanup-Holds f task (ground (arith, h))

  resume_context-Holds :
      (c : Context) (r : GreenTask) (w : World) (task : GreenTask) (f : Cleanup)
      → Holds a k l w
      → After
          (resume_context c r (waiting w task f))
          (λ r' w'. Holds a (k + kept a f task) l w' × (r'.address ≡ r.address))
  unfolding resume_context
  resume_context-Holds empty r w task f h = tt
  resume_context-Holds suspended r w task f h =
      After-bind _ (λ _. Holds a (k + kept a f task) l) run_cleanup_job _ (waiting w task f)
        (run_cleanup_job-Holds w task f h) λ _ w' h'. (h', refl)
  resume_context-Holds entry r w task f h =
      After-bind _ (λ _. Holds a (k + kept a f task) l) run_cleanup_job _ (waiting w task f)
        (run_cleanup_job-Holds w task f h) λ _ w' h'. (ground (arith, h'), refl)

  swap_in-Holds :
      (r : GreenTask) (w : World) (task : GreenTask) (f : Cleanup)
      → Holds a k l w
      → After
          (swap_in r (waiting w task f))
          (λ r' w'. Holds a (k + kept a f task) l w' × (r'.address ≡ r.address))
  unfolding swap_in
  swap_in-Holds r w task f h =
      After-expect _ unwrap r.coroutine _ (waiting w task f)
        λ c _. resume_context-Holds c.saved_context r w task f h

  -- A change of context keeps the task that it leaves, unless its stack is recycled; the task
  -- that runs afterwards is the one that was asked for.
  pub change_task_context-Holds :
      (cur next : GreenTask) (f : Cleanup) {w : World}
      → Holds a k l w
      → After
          (change_task_context cur next f w)
          (λ r w'. Holds a (k + kept a f cur) l w' × (r.address ≡ next.address))
  unfolding change_task_context
  change_task_context-Holds cur next f {w} h =
      After-bind _ (Swapped w cur next f) (swap_out cur next f) _ w (swap_out-Swapped cur next f w)
        λ r w' s.
          let left : GreenTask = record cur { coroutine = some s.saved } in
          rw (s.waits, ← s.same, kept-address a f cur left refl) (swap_in-Holds r w left f h)

-- Of the green tasks it is asked that, from one in the local slot until the scheduler task is
-- resumed, they neither lose nor double the task with address `a`.
abbrev pub GreenKeeps : ℕ → M GreenTask → Type 0
GreenKeeps a run_green =
    (k : ℕ) (t : BlockedTask) (w : World)
    → Holds a k (green_task t) w
    → After (run_green w) (λ stask. Took a k vacant (some stask))

module _ {a k : ℕ} where
  pub put-Holds :
      (t : GreenTask) {w : World}
      → Holds a k vacant w
      → After (put t w) (λ _ w'. (b : BlockedTask) × Holds a (k + is_task a t) (green_task b) w')
  unfolding put
  put-Holds t {w} h =
      After-assert _ (is_some t.sched) _ w
        λ _. After-lift _ (swap t) _ w λ b e. (b, rw (← swap-address t e) (ground (arith, h)))

  pub take_sched-Took :
      (t : GreenTask) {w : World}
      → Took a k vacant (some t) w
      → After (take_sched t w) (λ t' w'. Took a k vacant (some t') w')
  unfolding take_sched
  take_sched-Took t h = ground (arith, h)

-- The scheduler task that comes back, and the two tasks that went in, are held as often as before.
pub resume_task_immediately-Took :
    {a k : ℕ} (run_green : M GreenTask) (cur next : GreenTask) {w : World}
    → GreenKeeps a run_green
    → Holds a k vacant w
    → After
        (resume_task_immediately run_green cur next w)
        (λ stask. Took a (k + is_task a cur + is_task a next) vacant (some stask))
unfolding resume_task_immediately
resume_task_immediately-Took {a} {k} run_green cur next {w} keeps h =
    After-assert _ (is_sched cur) _ w λ _.
      After-bind _ _ (change_task_context cur next park) _ w
        (change_task_context-Holds cur next park h)
        λ running w₁ p. After-bind _ _ (put running) _ w₁ (put-Holds running p.0) λ _ w₂ q.
          After-bind _ (λ stask. Took a (k + is_task a cur + is_task a next) vacant (some stask))
            run_green take_sched w₂
            (rw p.1 at (keeps (k + is_task a cur + is_task a running) q.0 w₂ q.1))
            λ stask w₃ r. take_sched-Took stask r
