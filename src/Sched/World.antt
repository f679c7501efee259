-- ===== src/Sched/World.antt =====
-- The state of libgreen/src/sched.rs: one scheduler with its thread's local task, and the memory
-- that it shares with the other threads; and the monad of the code that runs on that thread.
use green_rs.Prelude.{
  ℕ, suc, ◌+◌, ◌%◌, Bool, Option, none, some, List, [], ◌∷◌, ◌++◌, Result, ok, fault, Fault,
  assertion, update, if◌then◌else◌,
}
use green_rs.Stack.Pool.{StackPool}
use green_rs.MessageQueue.{Queue}
use green_rs.MessageQueue
use green_rs.SleeperList
use green_rs.TaskState.{TaskState}
use green_rs.Task.{GreenTask, SchedHandle, StdTask}

-- `new_neighbor` carries the stealer of the deque with that id.
pub data SchedMessage : Type 0 where
  wake shutdown : SchedMessage
  new_neighbor : ℕ → SchedMessage
  pinned_task task_from_friend run_once : GreenTask → SchedMessage

-- The closures that are run as cleanup jobs, by the function that passes them.
pub data Cleanup : Type 0 where
  -- `resume_task_immediately`, `switch_task`, `terminate_current_task` and `yield_now`
  park switch recycle requeue : Cleanup
  -- `deschedule` for one handle: whether `f` returns `Ok`
  block_once : Bool → Cleanup
  -- `deschedule` for several: what `f` returns for each handle until it refuses one, and whether
  -- that one's `wake` comes first
  block_select : List Bool → Bool → Cleanup

pub record CleanupJob : Type 0 where
  pub task : GreenTask
  pub f : Cleanup

-- What the generator will draw, and how many values it has drawn.
pub record XorShiftRng : Type 0 where
  pub draws : ℕ → ℕ
  pub used : ℕ

-- The idle callback is `some` of whether it is active. The deque, the message queue and the event
-- loop go by ids.
pub record Scheduler : Type 0 where
  pub sched_id : ℕ
  pub pool_id : ℕ
  pub stack_pool : StackPool
  pub work_queue : ℕ
  pub work_queues : List ℕ
  pub message_queue : ℕ
  pub sleepy : Bool
  pub no_sleep : Bool
  pub sched_task : Option GreenTask
  pub cleanup_job : Option CleanupJob
  pub friend_handle : Option SchedHandle
  pub run_anything : Bool
  pub rng : XorShiftRng
  pub idle_callback : Option Bool
  pub yield_check_count : ℕ
  pub steal_for_yield : Bool

-- A blocked task, and the local task of a thread, is the libstd task with its runtime.
abbrev pub BlockedTask : Type 0
BlockedTask = StdTask × GreenTask

pub data Local : Type 0 where
  vacant other_task : Local
  green_task : BlockedTask → Local

-- A deque's newest task comes first: its owner pushes and pops there, and thieves take from the
-- other end. `contended` are the deques at which a thief loses the race. `active_io` is what the
-- event loop answers to `has_active_io`, and `max_stacks` what `max_cached_stacks` returns.
pub record Memory : Type 0 where
  pub deques : ℕ → List GreenTask
  pub contended : ℕ → Bool
  pub inboxes : ℕ → Queue SchedMessage
  pub fired : List ℕ
  pub sleepers : List SchedHandle
  pub task_state : TaskState
  pub blocked : List BlockedTask
  pub active_io : Bool
  pub max_stacks : ℕ

pub record World : Type 0 where
  pub sched : Scheduler
  pub mem : Memory
  pub local : Local

abbrev pub M {ℓ} : Type ℓ → Type ℓ
M A = World → Result (A × World)

infixl 5 ◌>>=◌ ◌>>◌
abbrev pub ◌>>=◌ {ℓ κ} : {A : Type ℓ} {B : Type κ} → M A → (A → M B) → M B
◌>>=◌ m f w = elim (m w) [ ok (a, w') ↦ f a w' | fault e ↦ fault e ]

abbrev pub ◌>>◌ {ℓ} : {B : Type ℓ} → M (Unit {0}) → M B → M B
m >> k = m >>= λ _. k

abbrev pub return {ℓ} : {A : Type ℓ} → A → M A
return a w = ok (a, w)

abbrev pub lift {ℓ} : {A : Type ℓ} → Result A → M A
lift (ok a) w = ok (a, w)
lift (fault e) w = fault e

abbrev pub fail {ℓ} : {A : Type ℓ} → Fault → M A
fail e w = fault e

abbrev pub assert_that : Bool → M (Unit {0})
assert_that test w = if test then ok (tt, w) else fault assertion

abbrev pub expect {ℓ} : {A : Type ℓ} → Fault → Option A → M A
expect e none w = fault e
expect e (some a) w = ok (a, w)

-- The early return of a search that has found something.
abbrev pub or_else {ℓ} : {A : Type ℓ} → Option A → M (Option A) → M (Option A)
or_else none k = k
or_else (some a) k = return (some a)

-- `self`, and a change of its fields.
abbrev pub this : M Scheduler
this w = ok (w.sched, w)

abbrev pub modify : (Scheduler → Scheduler) → M (Unit {0})
modify f w = ok (tt, record w { sched = f w.sched })

abbrev pub memory : M Memory
memory w = ok (w.mem, w)

abbrev pub modify_memory : (Memory → Memory) → M (Unit {0})
modify_memory f w = ok (tt, record w { mem = f w.mem })

-- `SchedHandle::send`
unfoldable pub send : SchedHandle → SchedMessage → M (Unit {0})
send handle msg = do
  m ← memory
  let inbox = MessageQueue.push msg (m.inboxes handle.queue)
  modify_memory λ m. record m { inboxes = update m.inboxes handle.queue inbox }
  modify_memory λ m. record m { fired = m.fired ++ handle.remote ∷ [] }

-- `Scheduler::make_handle`
abbrev pub handle_of : Scheduler → SchedHandle
handle_of s = record { remote = s.sched_id; queue = s.message_queue; sched_id = s.sched_id }

unfoldable pub make_handle : M SchedHandle
make_handle = do s ← this; return (handle_of s)

-- `Rand::rand` and `Rng::gen_range`, which panics on an empty range.
unfoldable pub rand : M ℕ
rand = do
  s ← this
  modify λ s. record s { rng = record s.rng { used = suc s.rng.used } }
  return (s.rng.draws s.rng.used)

abbrev pub max_yield_checks : ℕ
max_yield_checks = 20000

unfoldable pub reset_yield_check : M ℕ
unfolding rand
reset_yield_check = do r ← rand; return (r % max_yield_checks + 1)

unfoldable pub pop_sleeper : M (Option SchedHandle)
unfolding SleeperList.pop
pop_sleeper = do
  m ← memory
  let (handle, rest) = SleeperList.pop m.sleepers
  modify_memory λ m. record m { sleepers = rest }
  return handle
