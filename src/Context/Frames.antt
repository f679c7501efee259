-- ===== src/Context/Frames.antt =====
-- Where the first frames of libgreen/src/context.rs lie, on each architecture.
use green_rs.Prelude.{ℕ, ◌+◌, ◌%◌, ◌^◌, ◌≤◌, ◌<◌, ◌≡◌, ◌⊎◌, arith}
use green_rs.Context.{
  Procedure, Memory, Registers, X86Registers, initialize_call_frame, initialize_call_frame_x86,
  initialize_call_frame_arm, initialize_call_frame_mips,
}

-- Words of a size outside some bounds have kept their values.
abbrev pub KeepsOutside : (size lo hi : ℕ) → Memory → Memory → Type 0
KeepsOutside size lo hi before after = (a : ℕ) → (a < lo) ⊎ (hi < a + size) → after a ≡ before a

module _ (fptr arg lo hi : ℕ) (procedure : Procedure) (memory : Memory) (room : lo + 64 ≤ hi) where
  x86_64-KeepsOutside :
      (bootstrap : ℕ) (regs : Registers)
      → hi < 2 ^ 64
      → KeepsOutside 8 lo hi memory
          (initialize_call_frame bootstrap regs fptr arg procedure hi memory).1
  unfolding initialize_call_frame
  x86_64-KeepsOutside bootstrap regs fits a outside = ground (arith, outside, room)

  x86-KeepsOutside :
      (regs : X86Registers)
      → hi < 2 ^ 32
      → KeepsOutside 4 lo hi memory (initialize_call_frame_x86 regs fptr arg procedure hi memory).1
  unfolding initialize_call_frame_x86
  x86-KeepsOutside regs fits a outside = ground (arith, outside, room)

  arm-KeepsOutside :
      (bootstrap : ℕ) (regs : ℕ → ℕ)
      → hi < 2 ^ 32
      → KeepsOutside 4 lo hi memory
          (initialize_call_frame_arm bootstrap regs fptr arg procedure hi memory).1
  unfolding initialize_call_frame_arm
  arm-KeepsOutside bootstrap regs fits a outside = ground (arith, outside, room)

  mips-KeepsOutside :
      (regs : ℕ → ℕ)
      → hi < 2 ^ 32
      → KeepsOutside 4 lo hi memory (initialize_call_frame_mips regs fptr arg procedure hi memory).1
  unfolding initialize_call_frame_mips
  mips-KeepsOutside regs fits a outside = ground (arith, outside, room)

  -- With a stack of at least 64 bytes that ends below the end of the address space, the first frame
  -- changes no word outside the stack, on x86_64, x86, arm and mips.
  pub frames-KeepsOutside :
      (bootstrap : ℕ) (regs : Registers) (x86_regs : X86Registers) (word_regs : ℕ → ℕ)
      → hi < 2 ^ 32
      → KeepsOutside 8 lo hi memory
          (initialize_call_frame bootstrap regs fptr arg procedure hi memory).1
        × KeepsOutside 4 lo hi memory
            (initialize_call_frame_x86 x86_regs fptr arg procedure hi memory).1
        × KeepsOutside 4 lo hi memory
            (initialize_call_frame_arm bootstrap word_regs fptr arg procedure hi memory).1
        × KeepsOutside 4 lo hi memory
            (initialize_call_frame_mips word_regs fptr arg procedure hi memory).1
  frames-KeepsOutside bootstrap regs x86_regs word_regs fits = (
    x86_64-KeepsOutside bootstrap regs (omega arith),
    x86-KeepsOutside x86_regs fits,
    arm-KeepsOutside bootstrap word_regs fits,
    mips-KeepsOutside word_regs fits,
  )

  -- On x86 the frame is that of a call with three arguments, aligned as one.
  pub x86_arguments :
      (regs : X86Registers)
      → hi < 2 ^ 32
      → fptr < 2 ^ 32
      → let (r, after) = initialize_call_frame_x86 regs fptr arg procedure hi memory in
        (r.eip ≡ fptr)
        × ((r.esp + 4) % 16 ≡ 0)
        × (after r.esp ≡ 0)
        × (after (r.esp + 4) ≡ arg)
        × (after (r.esp + 8) ≡ procedure.code)
        × (after (r.esp + 12) ≡ procedure.env)
  unfolding initialize_call_frame_x86
  x86_arguments regs fits low = (
    omega (arith, low),
    omega (arith, fits),
    ground (arith, room, fits),
    ground (arith, room, fits),
    ground (arith, room, fits),
    ground (arith, room, fits),
  )
