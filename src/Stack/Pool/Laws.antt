-- ===== src/Stack/Pool/Laws.antt =====
-- What `StackPool` and `max_cached_stacks` of libgreen/src/stack.rs promise.
use mathlib.Core.List.{Perm, perm_append_singleton}
use mathlib.Core.List.Perm
use Prim.Native.Nat.{min}
use green_rs.Prelude.{
  ℕ, zero, suc, ◌+◌, ◌^◌, ◌≤◌, ◌<◌, ◌≡◌, refl, ◌⊎◌, inl, inr, Bool, true, List, [], ◌∷◌, ◌++◌,
  Option, none, some, Result, ok, arith, length, length-append, position, split_last,
  split_last_lem, leb, Option-cases, then_ok, then_ok_inv, fault, Fault, sym, ◌∙◌,
}
use green_rs.Stack.{Stack, Os, new}
use green_rs.Stack.Pool.{
  StackPool, take_stack, give_stack, swap_remove, fill_gap, fits, beside, max_cached_stacks,
}

fill_gap-perm {ℓ} : {A : Type ℓ} (xs : List A) → Perm (fill_gap xs) xs
unfolding fill_gap
fill_gap-perm [] = Perm.refl []
fill_gap-perm (x ∷ xs) =
    rw split_last_lem at (Perm.symm (perm_append_singleton (split_last x xs).1 (split_last x xs).0))

swap_remove-perm {ℓ} :
    {A : Type ℓ} (xs : List A) (i : ℕ) (y : A) (rest : List A)
    → swap_remove xs i ≡ some (y, rest)
    → Perm (y ∷ rest) xs
unfolding swap_remove
swap_remove-perm [] i y rest h = cc
swap_remove-perm (x ∷ xs) zero y rest h =
    let e : y ∷ rest ≡ x ∷ fill_gap xs = ground arith in rw e (Perm.cons x (fill_gap-perm xs))
swap_remove-perm (x ∷ xs) (suc i) y rest h = elim (Option-cases (swap_remove xs i)) [
  | inl e ↦ ground arith
  | inr ((z, others), e) ↦
      let e' : y ∷ rest ≡ z ∷ x ∷ others = ground arith in
      rw e' (Perm.trans (Perm.swap x z others) (Perm.cons x (swap_remove-perm xs i z others e)))
]

-- What `position` finds, `swap_remove` takes out, and it passes the test.
position-swap_remove {ℓ} :
    {A : Type ℓ} (test : A → Bool) (xs : List A) (i : ℕ)
    → position test xs ≡ some i
    → (y : A) × (rest : List A) × (swap_remove xs i ≡ some (y, rest)) × (test y ≡ true)
unfolding position swap_remove
position-swap_remove test [] i h = cc
position-swap_remove test (x ∷ xs) zero h = (x, fill_gap xs, refl, ground arith)
position-swap_remove test (x ∷ xs) (suc i) h =
    let found : position test xs ≡ some i = ground arith in
    let (y, rest, e, t) = position-swap_remove test xs i found in
    (y, x ∷ rest, rw (e, swap_remove), t)

take_stack-cases :
    (os : Os) (size : ℕ) (p : StackPool)
    → ((i : ℕ) × (y : Stack) × (rest : List Stack) × (position (fits size) p.stacks ≡ some i)
        × (swap_remove p.stacks i ≡ some (y, rest))
        × (fits size y ≡ true)
        × (take_stack os size p ≡ ok (y, record { stacks = rest })))
      ⊎ ((position (fits size) p.stacks ≡ none)
          × (take_stack os size p ≡ then_ok (new os size) (beside p)))
unfolding take_stack
take_stack-cases os size p = elim (Option-cases (position (fits size) p.stacks)) [
  | inl e ↦ inr (e, rw (e, take_stack))
  | inr (i, e) ↦
      let (y, rest, out, t) = position-swap_remove (fits size) p.stacks i e in
      inl (i, y, rest, e, out, t, rw (e, take_stack, out))
]

-- No cached stack is large enough.
abbrev pub NoneFits : ℕ → List Stack → Type 0
NoneFits size [] = Unit
NoneFits size (s ∷ stacks) = (s.min_size < size) × NoneFits size stacks

position-NoneFits :
    (size : ℕ) (stacks : List Stack) → position (fits size) stacks ≡ none → NoneFits size stacks
unfolding position
position-NoneFits size [] h = tt
position-NoneFits size (s ∷ stacks) h = (ground arith, position-NoneFits size stacks (ground arith))

NoneFits-position :
    (size : ℕ) (stacks : List Stack) (s : Stack)
    → NoneFits size stacks
    → size ≤ s.min_size
    → position (fits size) (stacks ++ s ∷ []) ≡ some (length stacks)
unfolding position
NoneFits-position size [] s h f = ground arith
NoneFits-position size (x ∷ stacks) s h f = ground (arith, NoneFits-position size stacks s h.1 f)

split_last-append {ℓ} :
    {A : Type ℓ} (x : A) (xs : List A) (y : A) → split_last x (xs ++ y ∷ []) ≡ (x ∷ xs, y)
unfolding split_last
split_last-append x [] y = refl
split_last-append x (z ∷ xs) y = rw (split_last-append z xs y)

swap_remove-append {ℓ} :
    {A : Type ℓ} (xs : List A) (y : A) → swap_remove (xs ++ y ∷ []) (length xs) ≡ some (y, xs)
unfolding swap_remove
swap_remove-append [] y = refl
swap_remove-append (x ∷ xs) y = rw (swap_remove-append xs y, swap_remove)

new-min_size : (os : Os) (size : ℕ) (s : Stack) → new os size ≡ ok s → s.min_size ≡ size
unfolding new
new-min_size os size s h = ground arith

-- A stack that is handed out is as large as was asked; it is one of the cached ones, or the pool
-- is as it was, no cached stack would do, and the new one has the size asked for.
pub take_stack_fits :
    (os : Os) (size : ℕ) (p : StackPool) (s : Stack) (q : StackPool)
    → take_stack os size p ≡ ok (s, q)
    → (size ≤ s.min_size)
      × (Perm (s ∷ q.stacks) p.stacks
          ⊎ ((q ≡ p) × (s.min_size ≡ size) × (new os size ≡ ok s) × NoneFits size p.stacks))
take_stack_fits os size p s q h = elim (take_stack-cases os size p) [
  | inl (i, y, rest, e, out, t, r) ↦
      let e' : y ≡ s = cc in
      let e'' : rest ≡ q.stacks = cc in
      (ground arith, inl (rw (← e', ← e'') (swap_remove-perm p.stacks i y rest out)))
  | inr (e, r) ↦
      let made : then_ok (new os size) (beside p) ≡ ok (s, q) = sym r ∙ h in
      let (s', built, same) = then_ok_inv (new os size) (beside p) made in
      let e' : s' ≡ s = ground (arith, same) in
      let e'' : p ≡ q = ground (arith, same) in
      let size' = new-min_size os size s' built in
      (
        ground arith,
        inr (sym e'', rw (← e') size', rw (← e') built, position-NoneFits size p.stacks e),
      )
]

-- Taking a stack faults only when no cached one would do and the system refuses a new one.
pub take_stack_fault :
    (os : Os) (size : ℕ) (p : StackPool) (e : Fault)
    → take_stack os size p ≡ fault e
    → NoneFits size p.stacks × (new os size ≡ fault e)
take_stack_fault os size p e h = elim (take_stack-cases os size p) [
  | inl (i, y, rest, e', out, t, r) ↦ absurd (cc)
  | inr (none_fits, r) ↦
      (position-NoneFits size p.stacks none_fits, then_ok_fault (new os size) p e (sym r ∙ h))
]
  where
    then_ok_fault :
        (r : Result Stack) (p : StackPool) (e : Fault)
        → then_ok r (beside p) ≡ fault e
        → r ≡ fault e
    then_ok_fault (ok s) p e h = cc
    then_ok_fault (fault x) p e h = cc

-- A stack that is given back is the one that the next request for up to its size takes, and the
-- pool is then as before, if the pool had room and nothing else in it would do.
pub take_stack-give_stack :
    (os : Os) (size max : ℕ) (s : Stack) (p : StackPool)
    → NoneFits size p.stacks
    → size ≤ s.min_size
    → length p.stacks ≤ max
    → take_stack os size (give_stack max s p) ≡ ok (s, p)
unfolding give_stack take_stack
take_stack-give_stack os size max s p h f room =
    rw room_test
      (rw (take_stack, NoneFits-position size p.stacks s h f, swap_remove-append p.stacks s) refl)
  where
    room_test : leb (length p.stacks) max ≡ true
    room_test = ground arith

-- Giving a stack back leaves one stack more, up to one past the limit: a pool of at most `max + 1`
-- stacks never grows beyond that, and does reach it.
pub length-give_stack :
    (max : ℕ) (s : Stack) (p : StackPool)
    → length p.stacks ≤ max + 1
    → length (give_stack max s p).stacks ≡ min (length p.stacks + 1) (max + 1)
unfolding give_stack
length-give_stack max s p h = ground (arith, length-append p.stacks (s ∷ []))

-- After the first call the limit is fixed: later calls return the same and leave `AMT` alone,
-- whatever the environment says by then, unless the first limit was the largest `uint`.
pub max_cached_stacks_fixed :
    (env later : Option ℕ) (amt limit amt' : ℕ)
    → max_cached_stacks env amt ≡ (limit, amt')
    → limit + 1 < 2 ^ 64
    → max_cached_stacks later amt' ≡ (limit, amt')
unfolding max_cached_stacks
max_cached_stacks_fixed none later zero limit amt' e h = ground arith
max_cached_stacks_fixed (some n) later zero limit amt' e h =
    let next : amt' ≡ suc limit = ground arith in rw next
max_cached_stacks_fixed env later (suc n) limit amt' e h = ground arith
