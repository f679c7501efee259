-- ===== src/Task/Bounds.antt =====
-- The bounds of the stack that libgreen/src/task.rs gives to a new task.
use mathlib.Core.Path.{subst}
use mathlib.Core.List.{Mem, mem-cons_self, mem-cons_of_mem}
use mathlib.Core.List.Perm
use green_rs.Prelude.{
  ℕ, ◌+◌, ◌-◌, ◌^◌, ◌≤◌, ◌<◌, ◌≡◌, refl, sym, ap, inl, inr, Option, none, some, ok, arith,
  then_ok_inv, Option-cases,
}
use green_rs.Stack
use green_rs.Stack.{Stack, MemoryMap, Os, new}
use green_rs.Stack.Pool.{StackPool, take_stack}
use green_rs.Stack.Pool.Laws.{take_stack_fits}
use green_rs.Task.{
  GreenTask, Home, Coroutine, entry, with_stack, new_typed, new_homed, type_green, stack_bounds,
  stack_guard,
}

-- A stack is mapped with as much memory as it says, below 2^64.
abbrev pub IsMapped : Stack → Type 0
IsMapped s = (m : MemoryMap) × (s.buf ≡ some m) × (s.min_size ≤ m.len) × (m.addr + m.len < 2 ^ 64)

abbrev pub AllMapped : StackPool → Type 0
AllMapped p = (s : Stack) → Mem s p.stacks → IsMapped s

module _ (os : Os) where
  -- What the methods of a task answer about its stack.
  abbrev pub Bounds : (red_zone size : ℕ) → GreenTask → Type 0
  Bounds red_zone size t =
      (guard low high : ℕ) × (stack_guard os t ≡ ok guard)
      × (stack_bounds red_zone t ≡ ok (low, high))
      × (guard ≤ low)
      × (size ≤ (high - low) + red_zone)

  mapped-Bounds :
      (red_zone size : ℕ) (t : GreenTask) (c : Coroutine)
      → t.coroutine ≡ some c
      → IsMapped c.current_stack_segment
      → size ≤ c.current_stack_segment.min_size
      → os.page_size ≤ red_zone
      → red_zone ≤ size
      → Bounds red_zone size t
  unfolding stack_guard stack_bounds Stack.guard Stack.start Stack.end
  mapped-Bounds red_zone size t c e (m, mapped, len, below) large page room = (
    Stack.uint (m.addr + os.page_size),
    Stack.uint (m.addr + red_zone),
    Stack.uint (m.addr + m.len),
    rw e (rw (mapped, Stack.guard, Stack.start) refl),
    rw e (rw (mapped, Stack.start, Stack.end) refl),
    omega (arith, page, room, large, len, below),
    omega (arith, page, room, large, len, below),
  )

module _ (os : Os)
    (maps : (n : ℕ) (m : MemoryMap)
      → os.map_memory n ≡ some m
      → (n ≤ m.len) × (m.addr + m.len < 2 ^ 64)) where
  new-IsMapped : (n : ℕ) (s : Stack) → new os n ≡ ok s → IsMapped s
  unfolding new
  new-IsMapped n s e = elim (Option-cases (os.map_memory n)) [
    | inl refused ↦ absurd (cc)
    | inr (m, mapped) ↦
        let (len, below) = maps n m mapped in
        let same : s ≡ record { buf = some m; min_size = n } = ground arith in
        (m, ap (λ x. x.buf) same, rw (ap (λ x. x.min_size) same) len, below)
  ]

  take_stack-IsMapped :
      (n : ℕ) (p : StackPool) (s : Stack) (q : StackPool)
      → AllMapped p
      → take_stack os n p ≡ ok (s, q)
      → (n ≤ s.min_size) × IsMapped s × AllMapped q
  take_stack-IsMapped n p s q h e =
      let (room, from) = take_stack_fits os n p s q e in
      elim from [
        | inl perm ↦ (
          room,
          h s ((Perm.mem_iff perm).0 mem-cons_self),
          λ x m. h x ((Perm.mem_iff perm).0 (mem-cons_of_mem s m)),
        )
        | inr (same, size, made, none_fits) ↦
            (room, new-IsMapped n s made, λ x m. h x (rw (sym (ap (λ r. r.stacks) same)) m))
      ]

  -- On a system that maps as much as it is asked for, below 2^64, and with a pool of such stacks, whose
  -- pages are no larger than the red zone: the bounds of the stack of a new task, of at least a red zone,
  -- leave the guard page out, and all but a red zone of the size that was asked for in; and the pool
  -- keeps such stacks.
  pub new_homed-Bounds :
      (red_zone min_stack address : ℕ) (size : Option ℕ) (home : Home) (p : StackPool)
      (t : GreenTask) (q : StackPool)
      → AllMapped p
      → new_homed os min_stack address size home p ≡ ok (t, q)
      → os.page_size ≤ red_zone
      → red_zone ≤ elim size [ none ↦ min_stack | some n ↦ n ]
      → Bounds os red_zone (elim size [ none ↦ min_stack | some n ↦ n ]) t × AllMapped q
  unfolding new_homed
  new_homed-Bounds red_zone min_stack address size home p t q h e page room =
      let n : ℕ = elim size [ none ↦ min_stack | some n ↦ n ] in
      let ops = new_typed address none (type_green (some home)) in
      let ((s, q'), taken, made) = then_ok_inv (take_stack os n p) (with_stack ops) e in
      let (large, mapped, kept) = take_stack-IsMapped n p s q' h taken in
      let same : record ops {
        coroutine = some (record { current_stack_segment = s; saved_context = entry });
      }
          ≡ t =
        ground (arith, made) in
      let same_pool : q' ≡ q = ground (arith, made) in
      (
        mapped-Bounds os red_zone n t (record { current_stack_segment = s; saved_context = entry })
            (sym (ap (λ x. x.coroutine) same)) mapped large page room,
        subst AllMapped same_pool kept,
      )
