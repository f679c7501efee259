-- ===== src/Stack/Pool.antt =====
-- `StackPool` of libgreen/src/stack.rs, and its `max_cached_stacks`.
pub mod Laws
use green_rs.Prelude.{
  ℕ, zero, suc, ◌+◌, ◌-◌, ◌≡◌, refl, Bool, List, [], ◌∷◌, ◌++◌, Option, none, some, Result, ok,
  fault, index, length, position, split_last, leb, ◌==◌, if◌then◌else◌, then_ok,
}
use green_rs.Stack.{Stack, Os, new, uint}

pub record StackPool : Type 0 where
  pub stacks : List Stack

unfoldable pub empty : StackPool
empty = record { stacks = [] }

-- The last element takes the place of the one that is removed.
pub fill_gap {ℓ} : {A : Type ℓ} → List A → List A
unfolding split_last
fill_gap [] = []
fill_gap (x ∷ xs) = let (front, last) = split_last x xs in last ∷ front

-- `Vec::swap_remove`
pub swap_remove {ℓ} : {A : Type ℓ} → List A → ℕ → Option (A × List A)
unfolding fill_gap
swap_remove [] i = none
swap_remove (x ∷ xs) zero = some (x, fill_gap xs)
swap_remove (x ∷ xs) (suc i) = elim (swap_remove xs i) [
  | none ↦ none
  | some (y, rest) ↦ some (y, x ∷ rest)
]

abbrev pub fits : ℕ → Stack → Bool
fits size s = leb size s.min_size

abbrev pub beside : StackPool → Stack → Result (Stack × StackPool)
beside p s = ok (s, p)

-- The stack, and the pool without it.
unfoldable pub take_stack : Os → ℕ → StackPool → Result (Stack × StackPool)
unfolding position swap_remove
take_stack os min_size p = elim (position (fits min_size) p.stacks) [
  | some idx ↦ elim (swap_remove p.stacks idx) [
    | some (s, rest) ↦ ok (s, record { stacks = rest })
    | none ↦ fault index
  ]
  | none ↦ then_ok (new os min_size) (beside p)
]

-- `max` is what `max_cached_stacks` returns.
unfoldable pub give_stack : ℕ → Stack → StackPool → StackPool
give_stack max s p = if leb (length p.stacks) max then record { stacks = p.stacks ++ s ∷ [] } else p

-- `env` is the parsed value of RUST_MAX_CACHED_STACKS, `amt` the static `AMT`, 0 before the first
-- call. Returns the limit and the new `AMT`.
unfoldable pub max_cached_stacks : Option ℕ → ℕ → ℕ × ℕ
max_cached_stacks env zero =
    let limit : ℕ = elim env [ none ↦ 10 | some n ↦ n ] in (limit, uint (limit + 1))
max_cached_stacks env (suc n) = (n, suc n)
