-- ===== src/Examples/Contexts.antt =====
-- Contexts of tasks on a small stack.
use green_rs.Prelude.{ℕ, ◌*◌, ◌≡◌, refl, arith}
use green_rs.Stack.{MemoryMap}
use green_rs.Context.{
  Procedure, Registers, X86Registers, new_regs, empty, initialize_call_frame,
  initialize_call_frame_x86, initialize_call_frame_arm, initialize_call_frame_mips,
}
use green_rs.Context.Machine.{Machine, swap, rust_bootstrap_green_task}
use green_rs.Context.Starts.{Enters, switched, new-Enters}
use green_rs.Context.Switches.{ReturnsTo, swap-swap}
use green_rs.Context.Frames.{KeepsOutside, frames-KeepsOutside}

abbrev closure : Procedure
closure = record { code = 700; env = 900 }

abbrev mapping : MemoryMap
mapping = record { addr = 4096; len = 4100 }

-- A machine whose memory holds at each address twice the address.
abbrev machine : ℕ → Machine
machine sp = record {
  rax = 0;
  rbx = 11;
  rsp = sp;
  rbp = 12;
  rdi = 1;
  rsi = 2;
  rdx = 3;
  r12 = 13;
  r13 = 14;
  r14 = 15;
  r15 = 16;
  rip = 17;
  xmm = λ i. i;
  memory = λ a. 2 * a;
  limit = (0, 0);
}

new-Enters_example :
    ((switched 50 60 7 100 closure mapping (machine 80) empty).rip ≡ 50)
    × Enters 60 7 700 900 mapping
        (rust_bootstrap_green_task (switched 50 60 7 100 closure mapping (machine 80) empty))
new-Enters_example =
    new-Enters 50 60 7 100 closure mapping (machine 80) empty (omega arith) (omega arith)

swap-swap_example :
    ReturnsTo empty (machine 80) (swap (machine 160) empty (swap (machine 80) empty empty).1).0
    × ((swap (machine 160) empty (swap (machine 80) empty empty).1).0.memory ≡ (machine 160).memory)
swap-swap_example = swap-swap (machine 80) (machine 160) empty empty empty

-- What the machine goes on with.
resumed :
    ((swap (machine 160) empty (swap (machine 80) empty empty).1).0.rip ≡ 160)
    × ((swap (machine 160) empty (swap (machine 80) empty empty).1).0.rsp ≡ 88)
unfolding swap empty new_regs
resumed = (refl, refl)

abbrev x86 : X86Registers
x86 = record { ebp = 1; esp = 2; eip = 3 }

abbrev regs : Registers
regs = record { gpr = λ i. i; xmm = λ i. i }

frames-KeepsOutside_example :
    KeepsOutside 8 4096 8190 (λ a. a) (initialize_call_frame 50 regs 60 7 closure 8190 (λ a. a)).1
    × KeepsOutside 4 4096 8190 (λ a. a) (initialize_call_frame_x86 x86 60 7 closure 8190 (λ a. a)).1
    × KeepsOutside 4 4096 8190
        (λ a. a)
        (initialize_call_frame_arm 50 (λ a. a) 60 7 closure 8190 (λ a. a)).1
    × KeepsOutside 4 4096 8190
        (λ a. a)
        (initialize_call_frame_mips (λ a. a) 60 7 closure 8190 (λ a. a)).1
frames-KeepsOutside_example =
    frames-KeepsOutside 60 7 4096 8190 closure (λ a. a) (omega arith) 50 regs x86 (λ a. a)
      (omega arith)
