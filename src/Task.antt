-- ===== src/Task.antt =====
-- libgreen/src/task.rs and coroutine.rs: the green task. A task owns its scheduler while it runs;
-- the slot holds the scheduler's id here. `nasty_deschedule_lock` has no value that is read.
pub mod Laws
pub mod Bounds
use green_rs.Prelude.{
  ℕ, zero, ◌+◌, ◌≡◌, Bool, true, false, Option, none, some, Result, ok, fault, abort, unwrap,
  assertion, then_ok, ◌==◌, if◌then◌else◌, is_some, not,
}
use green_rs.Stack
use green_rs.Stack.{Stack, Os, dummy_stack, uint}
use green_rs.Stack.Pool.{StackPool, take_stack}

-- What a saved context resumes: nothing, `bootstrap_green_task`, or the code after a swap.
pub data Context : Type 0 where
  empty entry suspended : Context

pub record Coroutine : Type 0 where
  pub current_stack_segment : Stack
  pub saved_context : Context

-- The message queue and the event loop of a scheduler go by that scheduler's id.
pub record SchedHandle : Type 0 where
  pub remote : ℕ
  pub queue : ℕ
  pub sched_id : ℕ

pub data Home : Type 0 where
  any_sched : Home
  home_sched : SchedHandle → Home

pub data TaskType : Type 0 where
  type_green : Option Home → TaskType
  type_sched : TaskType

-- The libstd task, with the options that `configure` sets.
pub record StdTask : Type 0 where
  pub name : Option ℕ
  pub on_exit : Option ℕ

pub record TaskOpts : Type 0 where
  pub name : Option ℕ
  pub stack_size : Option ℕ
  pub on_exit : Option ℕ

-- `address` is the task's own, as `as_uint` gives it.
pub record GreenTask : Type 0 where
  pub address : ℕ
  pub coroutine : Option Coroutine
  pub handle : Option SchedHandle
  pub sched : Option ℕ
  pub task : Option StdTask
  pub task_type : TaskType
  pub pool_id : ℕ

unfoldable pub coroutine_empty : Coroutine
coroutine_empty = record { current_stack_segment = dummy_stack; saved_context = empty }

unfoldable pub new_typed : ℕ → Option Coroutine → TaskType → GreenTask
new_typed address coroutine task_type = record {
  address = address;
  coroutine = coroutine;
  handle = none;
  sched = none;
  task = some (record { name = none; on_exit = none });
  task_type = task_type;
  pool_id = 0;
}

abbrev with_stack : GreenTask → Stack × StackPool → Result (GreenTask × StackPool)
with_stack ops (stack, pool) =
    let coroutine : Coroutine = record { current_stack_segment = stack; saved_context = entry } in
    ok (record ops { coroutine = some coroutine }, pool)

-- `min_stack` is what `rt::min_stack` returns; the task's start procedure is not modelled.
unfoldable pub new_homed : Os → ℕ → ℕ → Option ℕ → Home → StackPool → Result (GreenTask × StackPool)
unfolding new_typed
new_homed os min_stack address stack_size home pool =
    let ops = new_typed address none (type_green (some home)) in
    let size : ℕ = elim stack_size [ none ↦ min_stack | some n ↦ n ] in
    then_ok (take_stack os size pool) (with_stack ops)

unfoldable pub new : Os → ℕ → ℕ → Option ℕ → StackPool → Result (GreenTask × StackPool)
unfolding new_homed
new os min_stack address stack_size pool = new_homed os min_stack address stack_size any_sched pool

abbrev set_opts : TaskOpts → GreenTask × StackPool → Result (GreenTask × StackPool)
set_opts opts (green, pool) = elim green.task [
  | none ↦ fault unwrap
  | some task ↦ ok (
    record green { task = some (record task { name = opts.name; on_exit = opts.on_exit }) },
    pool,
  )
]

unfoldable pub configure : Os → ℕ → ℕ → TaskOpts → StackPool → Result (GreenTask × StackPool)
unfolding new
configure os min_stack address opts pool =
    then_ok (new os min_stack address opts.stack_size pool) (set_opts opts)

give_home_typed : TaskType → Home → GreenTask → Result GreenTask
give_home_typed (type_green _) home t = ok (record t { task_type = type_green (some home) })
give_home_typed type_sched home t = fault abort

unfoldable pub give_home : Home → GreenTask → Result GreenTask
unfolding give_home_typed
give_home home t = give_home_typed t.task_type home t

take_home_typed : TaskType → GreenTask → Result (Home × GreenTask)
take_home_typed (type_green (some home)) t = ok (home, record t { task_type = type_green none })
take_home_typed (type_green none) t = fault unwrap
take_home_typed type_sched t = fault abort

unfoldable pub take_unwrap_home : GreenTask → Result (Home × GreenTask)
unfolding take_home_typed
take_unwrap_home t = take_home_typed t.task_type t

is_home_typed : TaskType → ℕ → Result Bool
is_home_typed (type_green (some any_sched)) id = ok false
is_home_typed (type_green (some (home_sched handle))) id = ok (handle.sched_id == id)
is_home_typed (type_green none) id = fault abort
is_home_typed type_sched id = fault abort

unfoldable pub is_home_no_tls : ℕ → GreenTask → Result Bool
unfolding is_home_typed
is_home_no_tls id t = is_home_typed t.task_type id

homed_typed : TaskType → Result Bool
homed_typed (type_green (some any_sched)) = ok false
homed_typed (type_green (some (home_sched handle))) = ok true
homed_typed (type_green none) = fault abort
homed_typed type_sched = fault abort

unfoldable pub homed : GreenTask → Result Bool
unfolding homed_typed
homed t = homed_typed t.task_type

is_sched_typed : TaskType → Bool
is_sched_typed (type_green _) = false
is_sched_typed type_sched = true

unfoldable pub is_sched : GreenTask → Bool
unfolding is_sched_typed
is_sched t = is_sched_typed t.task_type

unfoldable pub put_task : StdTask → GreenTask → Result GreenTask
put_task task t = if is_some t.task then fault assertion else ok (record t { task = some task })

-- The libstd task, and the green task that is now its runtime.
unfoldable pub swap : GreenTask → Result (StdTask × GreenTask)
swap t = elim t.task [ none ↦ fault unwrap | some task ↦ ok (task, record t { task = none }) ]

-- `convert` of such a pair.
unfoldable pub convert : StdTask × GreenTask → Result GreenTask
unfolding put_task
convert (task, t) = put_task task t

-- `red_zone` is the size that `rt::stack` keeps of a stack.
unfoldable pub stack_bounds : (red_zone : ℕ) → GreenTask → Result (ℕ × ℕ)
unfolding Stack.start Stack.end
stack_bounds red_zone t = elim t.coroutine [
  | none ↦ fault unwrap
  | some c ↦
      ok (uint (Stack.start c.current_stack_segment + red_zone), Stack.end c.current_stack_segment)
]

unfoldable pub stack_guard : Os → GreenTask → Result ℕ
unfolding Stack.guard
stack_guard os t = elim t.coroutine [
  | none ↦ fault unwrap
  | some c ↦ ok (Stack.guard os c.current_stack_segment)
]
