-- ===== src/Examples/Stacks.antt =====
-- The stacks of new tasks, on a system that maps up to a megabyte.
use green_rs.Prelude.{
  ℕ, ◌+◌, ◌^◌, ◌≤◌, ◌<◌, ◌≡◌, refl, false, Option, none, some, [], leb, if◌then◌else◌, arith,
}
use mathlib.Core.List.{not-mem-nil}
use green_rs.Stack.{Os, MemoryMap, new}
use green_rs.Stack.Pool.{StackPool, take_stack}
use green_rs.Task.{GreenTask, any_sched, type_green, entry, new_homed}
use green_rs.Task.Bounds.{Bounds, AllMapped, new_homed-Bounds}

abbrev map_memory : ℕ → Option MemoryMap
map_memory n = if leb n (2 ^ 20) then some (record { addr = 8192; len = n }) else none

abbrev os : Os
os = record { map_memory = map_memory; mprotect_fails = λ _ _. false; page_size = 4096 }

map_memory-below :
    (n : ℕ) (m : MemoryMap) → map_memory n ≡ some m → (n ≤ m.len) × (m.addr + m.len < 2 ^ 64)
map_memory-below n m e = (ground (arith, e), ground (arith, e))

abbrev no_stacks : StackPool
no_stacks = record { stacks = [] }

no_stacks-AllMapped : AllMapped no_stacks
no_stacks-AllMapped s m = absurd (not-mem-nil m)

abbrev task : GreenTask
task = record {
  address = 7;
  coroutine = some (record {
    current_stack_segment = record {
      buf = some (record { addr = 8192; len = 65536 });
      min_size = 65536;
    };
    saved_context = entry;
  });
  handle = none;
  sched = none;
  task = some (record { name = none; on_exit = none });
  task_type = type_green (some any_sched);
  pool_id = 0;
}

new_homed-Bounds_example : Bounds os 20480 65536 task × AllMapped no_stacks
unfolding new_homed take_stack new
new_homed-Bounds_example =
    new_homed-Bounds os map_memory-below 20480 65536 7 none any_sched no_stacks task no_stacks
      no_stacks-AllMapped refl (omega arith) (omega arith)
