-- ===== src/Sched/Ends.antt =====
-- Code of libgreen/src/sched.rs that returns, and what it returns.
use green_rs.Prelude.{◌≡◌, refl, Bool, true, false, Result, ok, fault, if◌then◌else◌}
use green_rs.Sched.World.{World, M, lift, assert_that, ◌>>◌, ◌>>=◌}

-- The call returns, and what it returns is so.
abbrev pub Ends {ℓ} : {A : Type ℓ} → Result (A × World) → (A → World → Type 0) → Type 0
Ends (ok (a, w)) Q = Q a w
Ends (fault e) Q = ⊥

pub Ends-bind {ℓ ι} :
    {A : Type ℓ} {B : Type ι} (Q : A → World → Type 0) (R : B → World → Type 0) (m : M B)
    (f : B → M A) (w : World)
    → Ends (m w) R
    → ((b : B) (w' : World) → R b w' → Ends (f b w') Q)
    → Ends ((m >>= f) w) Q
Ends-bind {A} {B} Q R m f w h k = by_result (m w) h
  where
    by_result :
        (r : Result (B × World))
        → Ends r R
        → Ends (elim r [ ok (b, w') ↦ f b w' | fault e ↦ fault e ]) Q
    by_result (ok (b, w')) h = k b w' h
    by_result (fault e) h = absurd h

pub Ends-if {ℓ} :
    {A : Type ℓ} (Q : A → World → Type 0) (test : Bool) (m k : M A) (w : World)
    → Ends (m w) Q
    → Ends (k w) Q
    → Ends ((if test then m else k) w) Q
Ends-if Q true m k w h g = h
Ends-if Q false m k w h g = g

module _ {ℓ} {A : Type ℓ} (Q : A → World → Type 0) where
  pub Ends-then :
      (test : Bool) (m k : M A) (w : World)
      → test ≡ true
      → Ends (m w) Q
      → Ends ((if test then m else k) w) Q
  Ends-then true m k w e h = h
  Ends-then false m k w e h = absurd (cc)

  pub Ends-assert :
      (test : Bool) (k : M A) (w : World)
      → test ≡ true
      → Ends (k w) Q
      → Ends ((assert_that test >> k) w) Q
  Ends-assert true k w e h = h
  Ends-assert false k w e h = absurd (cc)

  pub Ends-lift {ι} :
      {B : Type ι} (r : Result B) (b : B) (f : B → M A) (w : World)
      → r ≡ ok b
      → Ends (f b w) Q
      → Ends ((lift r >>= f) w) Q
  Ends-lift (ok b) b' f w e h = let same : b ≡ b' = cc in rw same h
  Ends-lift (fault x) b f w e h = absurd (cc)

  pub Ends-mono :
      (R : A → World → Type 0) (r : Result (A × World))
      → Ends r R
      → ((a : A) (w : World) → R a w → Q a w)
      → Ends r Q
  Ends-mono R (ok (a, w)) h k = k a w h
  Ends-mono R (fault e) h k = absurd h

  pub Ends-ok :
      (r : Result (A × World)) → Ends r Q → (a : A) × (w : World) × (r ≡ ok (a, w)) × Q a w
  Ends-ok (ok (a, w)) h = (a, w, refl, h)
  Ends-ok (fault e) h = absurd h
