-- ===== src/Examples.antt =====
-- Concrete stacks, tasks and schedulers, on which the development runs.
pub mod Queues
pub mod Scheduling
pub mod Pools
pub mod Loops
pub mod Streams
pub mod Contexts
pub mod Copies
pub mod Stacks
pub mod Writes
pub mod Files
pub mod Handles
use green_rs.Prelude.{
  ℕ, ◌+◌, Bool, true, false, Option, none, some, List, [], ◌∷◌, update, zero, suc,
}
use green_rs.Stack.{Stack, Os, MemoryMap}
use green_rs.Stack.Pool.{StackPool}
use green_rs.MessageQueue.{Queue}
use green_rs.Task.{
  GreenTask, Coroutine, suspended, StdTask, TaskType, type_green, type_sched, any_sched,
}
use green_rs.Sched.World.{World, Scheduler, Memory, Local, vacant}

-- A system that maps whatever it is asked for, page 4096.
abbrev pub os : Os
os = record {
  map_memory = λ size. some (record { addr = 65536; len = size });
  mprotect_fails = λ _ _. false;
  page_size = 4096;
}

abbrev pub stack_of : ℕ → Stack
stack_of size = record { buf = some (record { addr = 65536; len = size }); min_size = size }

abbrev pub pool : StackPool
pool = record { stacks = stack_of 100 ∷ stack_of 200 ∷ stack_of 300 ∷ [] }

abbrev pub std_task : StdTask
std_task = record { name = none; on_exit = none }

abbrev pub task_of : TaskType → ℕ → GreenTask
task_of type address = record {
  address = address;
  coroutine = some (record { current_stack_segment = stack_of 100; saved_context = suspended });
  handle = none;
  sched = none;
  task = some std_task;
  task_type = type;
  pool_id = 0;
}

abbrev pub green_of : ℕ → GreenTask
green_of = task_of (type_green (some any_sched))

abbrev pub stask : GreenTask
stask = task_of type_sched 1

abbrev pub sched_of : ℕ → Option GreenTask → Scheduler
sched_of id parked = record {
  sched_id = id;
  pool_id = 0;
  stack_pool = pool;
  work_queue = id;
  work_queues = 0 ∷ 1 ∷ [];
  message_queue = id;
  sleepy = false;
  no_sleep = false;
  sched_task = parked;
  cleanup_job = none;
  friend_handle = none;
  run_anything = true;
  rng = record { draws = λ n. n + 5; used = 0 };
  idle_callback = some false;
  yield_check_count = 7;
  steal_for_yield = false;
}

abbrev pub no_messages : {A : Type 0} → Queue A
no_messages = record { items = []; unlinked = [] }

-- The deque with that id holds one green task, with address 7.
abbrev pub memory_with : ℕ → Memory
memory_with id = record {
  deques = update (λ _. []) id (green_of 7 ∷ []);
  contended = λ _. false;
  inboxes = λ _. no_messages;
  fired = [];
  sleepers = [];
  task_state = record { cnt = 1; done = 0 };
  blocked = [];
  active_io = true;
  max_stacks = 10;
}

-- A scheduler with id 0 beside such a deque, with its own task parked or not.
abbrev pub world_with : ℕ → Option GreenTask → World
world_with id parked = record { sched = sched_of 0 parked; mem = memory_with id; local = vacant }
