-- ===== src/Context.antt =====
-- libgreen/src/context.rs: the register contexts of green tasks, and the first frame of a task on each
-- architecture. An array of registers is a family over its indices; memory is one of words over their
-- addresses; functions and closures go by their addresses.
pub mod Machine
pub mod Switches
pub mod Starts
pub mod Frames
use green_rs.Prelude.{
  ℕ, ◌+◌, ◌-◌, ◌*◌, ◌/◌, ◌%◌, ◌^◌, Option, none, some, ◌==◌, if◌then◌else◌, update, ℤ, pos, negsuc,
}
use green_rs.Stack
use green_rs.Stack.{Stack}

abbrev pub Memory : Type 0
Memory = ℕ → ℕ

-- `raw::Procedure`
pub record Procedure : Type 0 where
  pub code : ℕ
  pub env : ℕ

-- `sp & !(16 - 1)`
unfoldable pub align_down : ℕ → ℕ
align_down sp = sp / 16 * 16

-- `ptr + count * size` on `int`, which wraps around.
unfoldable pub mut_offset : (bits size : ℕ) → ℕ → ℤ → ℕ
mut_offset bits size ptr (pos n) = (ptr + n * size) % 2 ^ bits
mut_offset bits size ptr (negsuc n) = (ptr + (2 ^ bits - 1) * ((n + 1) * size)) % 2 ^ bits

-- `Registers` of x86_64: 10 general ones and 6 of 128 bits, on Windows 14 and 10.
pub record Registers : Type 0 where
  pub gpr : ℕ → ℕ
  pub xmm : ℕ → ℕ

unfoldable pub new_regs : Registers
new_regs = record { gpr = λ _. 0; xmm = λ _. 0 }

-- On x86_64; `bootstrap` is the address of `rust_bootstrap_green_task`.
unfoldable pub initialize_call_frame :
    (bootstrap : ℕ)
    → Registers
    → (fptr arg : ℕ) → Procedure
    → (sp : ℕ) → Memory
    → Registers × Memory
unfolding align_down mut_offset
initialize_call_frame bootstrap regs fptr arg procedure sp memory =
    let sp = mut_offset 64 8 (align_down sp) (negsuc 0) in
    let gpr =
      update (update (update (update regs.gpr 4 arg) 5 procedure.code) 6 procedure.env) 7 fptr in
    let gpr = update (update (update gpr 1 sp) 8 bootstrap) 2 0 in
    (record regs { gpr = gpr }, update memory sp 0)

-- `Registers` of x86, of those that `initialize_call_frame` sets.
pub record X86Registers : Type 0 where
  pub ebp : ℕ
  pub esp : ℕ
  pub eip : ℕ

unfoldable pub initialize_call_frame_x86 :
    X86Registers → (fptr arg : ℕ) → Procedure → (sp : ℕ) → Memory → X86Registers × Memory
unfolding align_down mut_offset
initialize_call_frame_x86 regs fptr arg procedure sp memory =
    let sp = mut_offset 32 4 (align_down sp) (negsuc 3) in
    let memory = update memory (mut_offset 32 4 sp (pos 2)) procedure.env in
    let memory = update memory (mut_offset 32 4 sp (pos 1)) procedure.code in
    let memory = update memory (mut_offset 32 4 sp (pos 0)) arg in
    let sp = mut_offset 32 4 sp (negsuc 0) in
    let memory = update memory sp 0 in
    (record regs { esp = sp % 2 ^ 32; eip = fptr % 2 ^ 32; ebp = 0 }, memory)

unfoldable pub initialize_call_frame_arm :
    (bootstrap : ℕ) → (ℕ → ℕ) → (fptr arg : ℕ) → Procedure → (sp : ℕ) → Memory → (ℕ → ℕ) × Memory
unfolding align_down mut_offset
initialize_call_frame_arm bootstrap regs fptr arg procedure sp memory =
    let sp = mut_offset 32 4 (align_down sp) (negsuc 1) in
    let regs = update (update (update regs 0 arg) 3 procedure.code) 4 procedure.env in
    (update (update (update regs 5 fptr) 13 sp) 14 bootstrap, update memory sp 0)

unfoldable pub initialize_call_frame_mips :
    (ℕ → ℕ) → (fptr arg : ℕ) → Procedure → (sp : ℕ) → Memory → (ℕ → ℕ) × Memory
unfolding align_down mut_offset
initialize_call_frame_mips regs fptr arg procedure sp memory =
    let sp = mut_offset 32 4 (align_down sp) (negsuc 1) in
    let regs = update (update (update regs 4 arg) 5 procedure.code) 6 procedure.env in
    (update (update (update regs 29 sp) 25 fptr) 31 fptr, update memory sp 0)

pub record Context : Type 0 where
  pub regs : Registers
  pub stack_bounds : Option (ℕ × ℕ)

unfoldable pub empty : Context
unfolding new_regs
empty = record { regs = new_regs; stack_bounds = none }

unfoldable pub new : (bootstrap init arg : ℕ) → Procedure → Stack → Memory → Context × Memory
unfolding new_regs initialize_call_frame Stack.start Stack.end
new bootstrap init arg start stack memory =
    let sp = Stack.end stack in
    let (regs, memory) = initialize_call_frame bootstrap new_regs init arg start sp memory in
    let stack_base = Stack.start stack in
    let bounds = if sp == stack_base then none else some (stack_base, sp) in
    (record { regs = regs; stack_bounds = bounds }, memory)
