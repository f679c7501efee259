-- ===== src/Sched/Logic.antt =====
-- Postconditions for the code of libgreen/src/sched.rs: what holds if a call returns.
use green_rs.Prelude.{
  ◌≡◌, refl, Bool, true, false, Option, none, some, Result, ok, fault, Fault, if◌then◌else◌,
}
use green_rs.Sched.World.{World, M, ◌>>=◌, ◌>>◌, lift, expect, assert_that}

-- A fault ends the thread, so nothing is asked after one.
abbrev pub After {ℓ κ} : {A : Type ℓ} → Result (A × World) → (A → World → Type κ) → Type κ
After (ok (a, w)) Q = Q a w
After (fault e) Q = Unit

module _ {ℓ κ} {A : Type ℓ} (Q : A → World → Type κ) where
  pub After-mono {ι} :
      (R : A → World → Type ι) (r : Result (A × World))
      → After r R
      → ((a : A) (w : World) → R a w → Q a w)
      → After r Q
  After-mono R (ok (a, w)) h k = k a w h
  After-mono R (fault e) h k = tt

  pub After-bind {ι μ} :
      {B : Type ι} (R : B → World → Type μ) (m : M B) (f : B → M A) (w : World)
      → After (m w) R
      → ((b : B) (w' : World) → R b w' → After (f b w') Q)
      → After ((m >>= f) w) Q
  After-bind {B} R m f w h k = by_result (m w) h
    where
      by_result :
          (r : Result (B × World))
          → After r R
          → After (elim r [ ok (b, w') ↦ f b w' | fault e ↦ fault e ]) Q
      by_result (ok (b, w')) h = k b w' h
      by_result (fault e) h = tt

  pub After-assert :
      (test : Bool) (k : M A) (w : World)
      → (test ≡ true → After (k w) Q)
      → After ((assert_that test >> k) w) Q
  After-assert true k w h = h refl
  After-assert false k w h = tt

  pub After-if :
      (test : Bool) (m k : M A) (w : World)
      → (test ≡ true → After (m w) Q)
      → (test ≡ false → After (k w) Q)
      → After ((if test then m else k) w) Q
  After-if true m k w h g = h refl
  After-if false m k w h g = g refl

  pub After-lift {ι} :
      {B : Type ι} (r : Result B) (f : B → M A) (w : World)
      → ((b : B) → r ≡ ok b → After (f b w) Q)
      → After ((lift r >>= f) w) Q
  After-lift (ok b) f w h = h b refl
  After-lift (fault e) f w h = tt

  pub After-expect {ι} :
      {B : Type ι} (e : Fault) (o : Option B) (f : B → M A) (w : World)
      → ((b : B) → o ≡ some b → After (f b w) Q)
      → After ((expect e o >>= f) w) Q
  After-expect e none f w h = tt
  After-expect e (some b) f w h = h b refl

-- From the postcondition to a run that returns.
pub After-ok {ℓ κ} :
    {A : Type ℓ} (Q : A → World → Type κ) {r : Result (A × World)} {a : A} {w : World}
    → r ≡ ok (a, w)
    → After r Q
    → Q a w
After-ok Q e h = rw e at h
