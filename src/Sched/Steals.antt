-- ===== src/Sched/Steals.antt =====
-- Stealing in libgreen/src/sched.rs.
use native.Mathlib.Decide.{dec_le}
use native.Mathlib.Nat.{mod-eq_of_lt, add-mod_right, add-zero, mod-lt}
use green_rs.Prelude.{
  ℕ, zero, suc, ◌+◌, ◌-◌, ◌%◌, ◌<◌, ◌≡◌, ◌≢◌, refl, false, Option, none, some, List, [], ◌∷◌, arith,
  get_elem?, length, Result, ok, fault,
}
use green_rs.Task.{GreenTask}
use green_rs.Sched.World.{World, M, ◌>>=◌, or_else, rand}
use green_rs.Sched.Work.{oldest, steal, steal_rounds, gen_range, try_steals}

-- A thief can take a task from that deque.
abbrev pub CanSteal : ℕ → World → Type 0
CanSteal q w = (w.mem.contended q ≡ false) × (w.mem.deques q ≢ [])

-- The call returns a task.
abbrev pub Finds : Result (Option GreenTask × World) → Type 0
Finds (ok (some t, w)) = Unit
Finds (ok (none, w)) = ⊥
Finds (fault e) = ⊥

steal-Finds : (q : ℕ) (w : World) → CanSteal q w → Finds (steal q w)
unfolding steal oldest
steal-Finds q w c = ground arith

abbrev StillFinds : (q : ℕ) → Result (Option GreenTask × World) → Type 0
StillFinds q (ok (some t, w)) = Unit
StillFinds q (ok (none, w)) = CanSteal q w
StillFinds q (fault e) = ⊥

-- A steal that fails leaves the other chances.
steal-StillFinds : (q q' : ℕ) (w : World) → CanSteal q w → StillFinds q (steal q' w)
unfolding steal oldest
steal-StillFinds q q' w c = ground arith

get_elem?-lt {ℓ} :
    {A : Type ℓ} (xs : List A) (i : ℕ) → i < length xs → (x : A) × (get_elem? xs i ≡ some x)
get_elem?-lt [] i h = absurd (omega arith)
get_elem?-lt (x ∷ xs) zero h = (x, refl)
get_elem?-lt (x ∷ xs) (suc i) h = get_elem?-lt xs i (omega arith)

module _ (others : M (Option GreenTask)) where
  found-Finds :
      (r : Result (Option GreenTask × World))
      → Finds r
      → Finds (elim r [ ok (a, w') ↦ or_else a others w' | fault e ↦ fault e ])
  found-Finds (ok (some t, w')) h = tt
  found-Finds (ok (none, w')) h = absurd h
  found-Finds (fault e) h = h

  later-Finds :
      (q : ℕ) (r : Result (Option GreenTask × World))
      → StillFinds q r
      → ((w' : World) → CanSteal q w' → Finds (others w'))
      → Finds (elim r [ ok (a, w') ↦ or_else a others w' | fault e ↦ fault e ])
  later-Finds q (ok (some t, w')) h k = tt
  later-Finds q (ok (none, w')) h k = k w' h
  later-Finds q (fault e) h k = h

-- The deque at index `i + j` is tried in round `j`, if none has given a task before.
steal_rounds-Finds :
    (rounds i j q : ℕ) (queues : List ℕ) (w : World)
    → j < rounds
    → 0 < length queues
    → get_elem? queues ((i + j) % length queues) ≡ some q
    → CanSteal q w
    → Finds (steal_rounds rounds i queues w)
unfolding steal_rounds
steal_rounds-Finds zero i j q queues w lt more e c = absurd (omega arith)
steal_rounds-Finds (suc rounds) i zero q queues w lt more e c =
    let here : get_elem? queues (i % length queues) ≡ some q = rw add-zero at e in
    rw here (found-Finds (steal_rounds rounds (i + 1) queues) (steal q w) (steal-Finds q w c))
steal_rounds-Finds (suc rounds) i (suc j) q queues w lt more e c =
    let (q', e') = get_elem?-lt queues (i % length queues) (grind arith) in
    let shift : i + suc j ≡ i + 1 + j = omega arith in
    rw e' (
      later-Finds (steal_rounds rounds (i + 1) queues) q (steal q' w) (steal-StillFinds q q' w c)
        λ w' c'.
          steal_rounds-Finds rounds (i + 1) j q queues w' (omega arith) more (rw (← shift) e) c')

-- From any start, some round comes to index `i`.
rotation : (start i len : ℕ) → start < len → i < len → (j : ℕ) × (j < len) × ((start + j) % len ≡ i)
rotation start i len hs hi = elim (dec_le start i) [
  | yes le ↦ (
    i - start,
    omega arith,
    let sum : start + (i - start) ≡ i = omega arith in rw sum (mod-eq_of_lt hi),
  )
  | no gt ↦ (
    i + len - start,
    omega arith,
    let sum : start + (i + len - start) ≡ i + len = omega arith in
        rw (sum, add-mod_right i len) (mod-eq_of_lt hi),
  )
]

lt-of-get_elem? {ℓ} :
    {A : Type ℓ} (xs : List A) (i : ℕ) {x : A} → get_elem? xs i ≡ some x → i < length xs
lt-of-get_elem? [] i e = cc
lt-of-get_elem? (y ∷ xs) zero e = omega arith
lt-of-get_elem? (y ∷ xs) (suc i) e = omega (arith, lt-of-get_elem? xs i e)

rounds-Finds :
    (i q : ℕ) (queues : List ℕ) (w : World)
    → get_elem? queues i ≡ some q
    → CanSteal q w
    → Finds ((gen_range (length queues) >>= λ start. steal_rounds (length queues) start queues) w)
unfolding gen_range rand
rounds-Finds i q [] w e c = absurd (cc)
rounds-Finds i q (x ∷ xs) w e c =
    let len : ℕ = suc (length xs) in
    let start : ℕ = w.sched.rng.draws w.sched.rng.used % len in
    let (j, lt, turn) =
      rotation start i len (mod-lt _ (omega arith)) (lt-of-get_elem? (x ∷ xs) i e) in
    steal_rounds-Finds len start j q (x ∷ xs) _ lt (omega arith) (rw turn e) c

-- If a thief can take a task from any one of the deques that the scheduler knows, `try_steals`
-- returns a task, whatever the generator draws.
pub try_steals-Finds :
    (i q : ℕ) (w : World)
    → get_elem? w.sched.work_queues i ≡ some q
    → CanSteal q w
    → Finds (try_steals w)
unfolding try_steals
try_steals-Finds i q w e c = rounds-Finds i q w.sched.work_queues w e c
