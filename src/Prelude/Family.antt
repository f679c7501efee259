-- ===== src/Prelude/Family.antt =====
-- Families `ℕ → A` indexed by an id: update at one id, and weighted sums over the first `n` ids.
use Prim.Native.Nat.{ℕ, zero, suc, ◌+◌, ◌≤◌, ◌<◌}
use mathlib.Core.Path.{◌≡◌, refl}
use mathlib.Core.List.{List, [], ◌∷◌, ◌++◌}
use native.Mathlib.Omega.{arith}
use native.Mathlib.Decide.{dec_lt}
use green_rs.Prelude.Tests.{◌==◌, ltb, if◌then◌else◌}

abbrev pub update {ℓ} : {A : Type ℓ} → (ℕ → A) → ℕ → A → ℕ → A
update f i a j = if i == j then a else f j

module _ {ℓ} {A : Type ℓ} (weight : A → ℕ) where
  -- The weight of a list.
  abbrev pub sum_of : List A → ℕ
  sum_of [] = 0
  sum_of (x ∷ xs) = weight x + sum_of xs

  pub sum_of-append : (xs ys : List A) → sum_of (xs ++ ys) ≡ sum_of xs + sum_of ys
  sum_of-append [] ys = omega arith
  sum_of-append (x ∷ xs) ys = omega (arith, sum_of-append xs ys)

  -- What the members before a bound weigh, with the first `n` of them looked at.
  weigh : (ℕ → A) → ℕ → ℕ
  weigh members zero = 0
  weigh members (suc bound) = weight (members bound) + weigh members bound

  -- A write takes off the old weight and adds the new one, if it is before the bound.
  weigh-update :
      (members : ℕ → A) (at : ℕ) (new : A) (bound : ℕ)
      → weigh (update members at new) bound + (if ltb at bound then weight (members at) else 0)
        ≡ weigh members bound + (if ltb at bound then weight new else 0)
  unfolding weigh
  weigh-update members at new zero = ground arith
  weigh-update members at new (suc bound) = ground (arith, weigh-update members at new bound)

  weigh-beyond :
      (members : ℕ → A) (start bound : ℕ)
      → ((i : ℕ) → start ≤ i → weight (members i) ≡ 0)
      → start ≤ bound
      → weigh members bound ≡ weigh members start
  unfolding weigh
  weigh-beyond members start zero light le = let same : start ≡ 0 = omega arith in rw same
  weigh-beyond members start (suc bound) light le = elim (dec_lt bound start) [
    | yes last ↦ let same : start ≡ suc bound = omega arith in rw same
    | no before ↦
        omega
          (arith, light bound (omega arith), weigh-beyond members start bound light (omega arith))
  ]

  weigh-member :
      (members : ℕ → A) (at bound : ℕ) → at < bound → weight (members at) ≤ weigh members bound
  unfolding weigh
  weigh-member members at zero lt = absurd (omega arith)
  weigh-member members at (suc bound) lt = elim (dec_lt at bound) [
    | yes earlier ↦ omega (arith, weigh-member members at bound earlier)
    | no last ↦ let same : at ≡ bound = omega arith in rw same (omega arith)
  ]

  -- The weights of all members add up to `s`: from some bound on they are 0.
  pub record Sum (f : ℕ → A) (s : ℕ) : Type 0 where
    bound : ℕ
    beyond : (i : ℕ) → bound ≤ i → weight (f i) ≡ 0
    below : weigh f bound ≡ s

  pub Sum-update :
      {f : ℕ → A} {s : ℕ} (i : ℕ) (x : A) (s' : ℕ)
      → Sum f s
      → s' + weight (f i) ≡ s + weight x
      → Sum (update f i x) s'
  Sum-update {f} {s} i x s' h e = record {
    bound = h.bound + suc i;
    beyond = λ j le. ground (arith, h.beyond j);
    below = ground (
      arith,
      weigh-update f i x (h.bound + suc i),
      weigh-beyond f h.bound (h.bound + suc i) h.beyond (omega arith),
      h.below,
    );
  }

  pub Sum-member : {f : ℕ → A} {s : ℕ} (i : ℕ) → Sum f s → weight (f i) ≤ s
  unfolding weigh
  Sum-member {f} {s} i h = elim (dec_lt i h.bound) [
    | yes inside ↦ omega (arith, weigh-member f i h.bound inside, h.below)
    | no outside ↦ omega (arith, h.beyond i (omega arith))
  ]

  pub Sum-zero : (f : ℕ → A) → ((i : ℕ) → weight (f i) ≡ 0) → Sum f 0
  unfolding weigh
  Sum-zero f h = record { bound = 0; beyond = λ i _. h i; below = refl }
