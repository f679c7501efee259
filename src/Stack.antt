-- ===== src/Stack.antt =====
-- libgreen/src/stack.rs: stacks of green tasks, and the pool of stacks that a scheduler caches.
-- The operating system is a parameter: what `MemoryMap::new`, `mprotect` and `page_size` answer.
pub mod Pool
use green_rs.Prelude.{
  ℕ, ◌+◌, ◌^◌, ◌%◌, Bool, not, Option, none, some, Result, ok, fault, panic, if◌then◌else◌,
}

pub record MemoryMap : Type 0 where
  pub addr : ℕ
  pub len : ℕ

pub record Os : Type 0 where
  pub map_memory : ℕ → Option MemoryMap
  pub mprotect_fails : (addr len : ℕ) → Bool
  pub page_size : ℕ

pub record Stack : Type 0 where
  pub buf : Option MemoryMap
  pub min_size : ℕ

-- `uint` of a 64-bit machine.
abbrev pub uint : ℕ → ℕ
uint n = n % 2 ^ 64

-- The stack grows down, so its last page is the first of the mapping.
pub protect_last_page : Os → MemoryMap → Bool
protect_last_page os map = not (os.mprotect_fails map.addr os.page_size)

unfoldable pub new : Os → ℕ → Result Stack
unfolding protect_last_page
new os size = elim (os.map_memory size) [
  | none ↦ fault panic
  | some map ↦
      if protect_last_page os map
      then ok (record { buf = some map; min_size = size })
      else fault panic
]

pub dummy_stack : Stack
dummy_stack = record { buf = none; min_size = 0 }

-- The null pointer is 0.
unfoldable pub start : Stack → ℕ
start s = elim s.buf [ none ↦ 0 | some map ↦ map.addr ]

unfoldable pub end : Stack → ℕ
end s = elim s.buf [ none ↦ 0 | some map ↦ uint (map.addr + map.len) ]

unfoldable pub guard : Os → Stack → ℕ
unfolding start
guard os s = uint (start s + os.page_size)
