-- ===== src/Context/Machine.antt =====
-- The change of context on x86_64 other than Windows: libgreen/build/x86_64/_context.S, and `swap` of
-- libgreen/src/context.rs around it.
use green_rs.Prelude.{ℕ, ◌+◌, ◌-◌, ◌^◌, none, some, update}
use green_rs.Stack.{uint}
use green_rs.Context.{Memory, Registers, Context}

-- What the code reads and writes of the machine; `limit` is the slot of the thread for the bounds of
-- its stack.
pub record Machine : Type 0 where
  pub rax : ℕ
  pub rbx : ℕ
  pub rsp : ℕ
  pub rbp : ℕ
  pub rdi : ℕ
  pub rsi : ℕ
  pub rdx : ℕ
  pub r12 : ℕ
  pub r13 : ℕ
  pub r14 : ℕ
  pub r15 : ℕ
  pub rip : ℕ
  pub xmm : ℕ → ℕ
  pub memory : Memory
  pub limit : ℕ × ℕ

-- The registers %rbx, %rsp, %rbp, the argument, %r12 to %r15 and the instruction pointer, and xmm0 to
-- xmm5, are saved by their indices in regs.h, and then restored.
unfoldable pub save_registers : Machine → Registers → Registers
save_registers m out =
    let gpr = update (update (update (update out.gpr 8 m.rax) 0 m.rbx) 1 m.rsp) 2 m.rbp in
    let gpr = update (update (update (update gpr 4 m.r12) 5 m.r13) 6 m.r14) 7 m.r15 in
    let xmm = update (update (update out.xmm 0 (m.xmm 0)) 1 (m.xmm 1)) 2 (m.xmm 2) in
    let xmm = update (update (update xmm 3 (m.xmm 3)) 4 (m.xmm 4)) 5 (m.xmm 5) in
    record { gpr = update gpr 3 m.rdi; xmm = xmm }

unfoldable pub restore_registers : Machine → Registers → Machine
restore_registers m regs =
    let xmm = update (update (update m.xmm 0 (regs.xmm 0)) 1 (regs.xmm 1)) 2 (regs.xmm 2) in
    let xmm = update (update (update xmm 3 (regs.xmm 3)) 4 (regs.xmm 4)) 5 (regs.xmm 5) in
    record m {
      rbx = regs.gpr 0;
      rsp = regs.gpr 1;
      rbp = regs.gpr 2;
      r12 = regs.gpr 4;
      r13 = regs.gpr 5;
      r14 = regs.gpr 6;
      r15 = regs.gpr 7;
      rdi = regs.gpr 3;
      xmm = xmm;
      rip = regs.gpr 8;
    }

-- From its entry, where the return address is on top of the stack, to the jump at its end.
unfoldable pub rust_swap_registers : Machine → Registers → Registers → Machine × Registers
unfolding save_registers restore_registers
rust_swap_registers m out regs =
    let popped = m.memory m.rsp in
    let m = record m { rax = popped; rsp = uint (m.rsp + 8) } in
    (restore_registers m regs, save_registers m out)

unfoldable pub rust_bootstrap_green_task : Machine → Machine
rust_bootstrap_green_task m = record m { rdi = m.r12; rsi = m.r13; rdx = m.r14; rip = m.r15 }

-- The bounds that are recorded for a context.
unfoldable pub limit_of : Context → ℕ × ℕ
limit_of c = elim c.stack_bounds [ none ↦ (0, 2 ^ 64 - 1) | some bounds ↦ bounds ]

-- `swap`, with the machine at the entry of `rust_swap_registers`.
unfoldable pub swap : Machine → Context → Context → Machine × Context
unfolding limit_of rust_swap_registers
swap m out_context in_context =
    let (m, regs) =
      rust_swap_registers (record m { limit = limit_of in_context }) out_context.regs
        in_context.regs in
    (m, record out_context { regs = regs })
