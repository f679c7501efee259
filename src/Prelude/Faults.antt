-- ===== src/Prelude/Faults.antt =====
-- What a Rust function does: it returns, or it panics or aborts.
use mathlib.Core.Path.{◌≡◌, refl}
use mathlib.Core.Option.{Option, none, some}

-- `assert!` and `rtassert!`; `unwrap` of `None`; `rtabort!`; a range or system failure; `panic!`.
pub data Fault : Type 0 where
  assertion unwrap abort index unreachable panic : Fault

pub data Result {ℓ} (A : Type ℓ) : Type ℓ where
  ok : A → Result A
  fault : Fault → Result A

abbrev pub unwrap_or_fault {ℓ} : {A : Type ℓ} → Fault → Option A → Result A
unwrap_or_fault f none = fault f
unwrap_or_fault f (some a) = ok a

abbrev pub then_ok {ℓ κ} : {A : Type ℓ} {B : Type κ} → Result A → (A → Result B) → Result B
then_ok (ok a) f = f a
then_ok (fault e) f = fault e

pub then_ok_inv {ℓ κ} :
    {A : Type ℓ} {B : Type κ} (r : Result A) (f : A → Result B) {b : B}
    → then_ok r f ≡ ok b
    → (a : A) × (r ≡ ok a) × (f a ≡ ok b)
then_ok_inv (ok a) f h = (a, refl, h)
then_ok_inv (fault e) f h = cc
