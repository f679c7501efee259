-- ===== src/Context/Switches.antt =====
-- A context of libgreen/src/context.rs that has been left and is resumed.
use green_rs.Prelude.{ℕ, ◌+◌, ◌<◌, ◌≡◌, refl, arith}
use green_rs.Stack.{uint}
use green_rs.Context.{Context}
use green_rs.Context.Machine.{
  Machine, swap, limit_of, rust_swap_registers, save_registers, restore_registers,
}

-- A machine goes on where another one called: after its return address, with its stack, the registers
-- that a call must keep, and the bounds of its stack.
pub record ReturnsTo (context : Context) (called now : Machine) : Type 0 where
  pub rip : now.rip ≡ called.memory called.rsp
  pub rsp : now.rsp ≡ uint (called.rsp + 8)
  pub rbx : now.rbx ≡ called.rbx
  pub rbp : now.rbp ≡ called.rbp
  pub r12 : now.r12 ≡ called.r12
  pub r13 : now.r13 ≡ called.r13
  pub r14 : now.r14 ≡ called.r14
  pub r15 : now.r15 ≡ called.r15
  pub xmm : (i : ℕ) → i < 6 → now.xmm i ≡ called.xmm i
  pub limit : now.limit ≡ limit_of context

module _ (called leaving : Machine) (context other next : Context) where
  -- If a context is left for another one and resumed at any later time, from whatever machine, the
  -- machine goes on where the call was, and its memory is what the others have left.
  pub swap-swap :
      ReturnsTo context called (swap leaving next (swap called context other).1).0
      × ((swap leaving next (swap called context other).1).0.memory ≡ leaving.memory)
  unfolding swap limit_of rust_swap_registers save_registers restore_registers
  swap-swap = (
    record {
      rip = refl;
      rsp = refl;
      rbx = refl;
      rbp = refl;
      r12 = refl;
      r13 = refl;
      r14 = refl;
      r15 = refl;
      xmm = λ i h. ground (arith, h);
      limit = refl;
    },
    refl,
  )
