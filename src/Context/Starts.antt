-- ===== src/Context/Starts.antt =====
-- The first switch to a new context of libgreen/src/context.rs, and the code of
-- libgreen/build/x86_64/_context.S that it comes to.
use green_rs.Prelude.{ℕ, ◌+◌, ◌%◌, ◌^◌, ◌≤◌, ◌<◌, ◌≡◌, refl, some, arith}
use green_rs.Stack.{Stack, MemoryMap}
use green_rs.Context.{Context, Procedure, Memory, new}
use green_rs.Context.Machine.{Machine, swap, limit_of, rust_bootstrap_green_task}

-- A machine at the entry of a function with three arguments, on top of a stack that is given: aligned
-- as for a call, with 0 as its return address and no frame before it.
pub record Enters (function arg code env : ℕ) (map : MemoryMap) (m : Machine) : Type 0 where
  pub rip : m.rip ≡ function
  pub rdi : m.rdi ≡ arg
  pub rsi : m.rsi ≡ code
  pub rdx : m.rdx ≡ env
  pub rbp : m.rbp ≡ 0
  pub limit : m.limit ≡ (map.addr, map.addr + map.len)
  pub aligned : (m.rsp + 8) % 16 ≡ 0
  pub bottom : m.memory m.rsp ≡ 0
  pub above : map.addr ≤ m.rsp
  pub below : m.rsp + 8 ≤ map.addr + map.len

module _ (bootstrap init arg size : ℕ) (start : Procedure) (map : MemoryMap) (m : Machine)
    (out : Context) where
  abbrev pub stack : Stack
  stack = record { buf = some map; min_size = size }

  abbrev pub created : Context × Memory
  created = new bootstrap init arg start stack m.memory

  abbrev pub switched : Machine
  switched = (swap (record m { memory = created.1 }) out created.0).0

  -- A switch to a new context with a stack of at least 32 bytes comes to `rust_bootstrap_green_task`, and
  -- that enters the function with its argument and the closure, at the bottom of the stack.
  pub new-Enters :
      32 ≤ map.len
      → map.addr + map.len < 2 ^ 64
      → (switched.rip ≡ bootstrap)
        × Enters init arg start.code start.env map (rust_bootstrap_green_task switched)
  unfolding new swap limit_of rust_bootstrap_green_task
  new-Enters room fits =
      let within : (map.addr + map.len) % 2 ^ 64 ≡ map.addr + map.len = omega arith in
      rw within (
        refl,
        record {
          rip = refl;
          rdi = refl;
          rsi = refl;
          rdx = refl;
          rbp = refl;
          limit = ground (arith, room);
          aligned = omega arith;
          bottom = ground arith;
          above = omega (arith, room, fits);
          below = omega (arith, room, fits);
        },
      )
