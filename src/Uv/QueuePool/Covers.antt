-- ===== src/Uv/QueuePool/Covers.antt =====
-- The messages of librustuv/src/queue.rs as changes of a count.
use green_rs.Prelude.{ℕ, zero, suc, ◌+◌, ◌-◌, ◌≤◌, ◌<◌, ◌≡◌, sym, List, [], ◌∷◌, ◌++◌, arith}
use green_rs.Uv.QueuePool.{Message, reawakens, increments, decrements}

-- From count `n` on, the messages never take the count below 0 or above `top` and end at `live`;
-- one that is 0 stays so, since only a queue that exists is cloned.
abbrev pub Covers : (top live n : ℕ) → List Message → Type 0
Covers top live n [] = (n ≡ live) × (n ≤ top)
Covers top live n (reawakens _ ∷ rest) = (n ≤ top) × Covers top live n rest
Covers top live n (increments ∷ rest) = (n ≤ top) × (0 < n) × Covers top live (n + 1) rest
Covers top live n (decrements ∷ rest) = (n ≤ top) × (0 < n) × Covers top live (n - 1) rest

pub Covers-bound : (top live n : ℕ) (msgs : List Message) → Covers top live n msgs → n ≤ top
Covers-bound top live n [] h = h.1
Covers-bound top live n (reawakens _ ∷ rest) h = h.0
Covers-bound top live n (increments ∷ rest) h = h.0
Covers-bound top live n (decrements ∷ rest) h = h.0

-- One queue more from the start.
pub Covers-suc :
    (top live n : ℕ) (msgs : List Message)
    → Covers top live n msgs
    → Covers (top + 1) (live + 1) (n + 1) msgs
Covers-suc top live n [] h = (omega arith, omega arith)
Covers-suc top live n (reawakens _ ∷ rest) h = (omega arith, Covers-suc top live n rest h.1)
Covers-suc top live n (increments ∷ rest) h =
    (omega arith, omega arith, Covers-suc top live (n + 1) rest h.2)
Covers-suc top live n (decrements ∷ rest) h =
    let same : n - 1 + 1 ≡ n + 1 - 1 = omega arith in
    (omega arith, omega arith, rw same at (Covers-suc top live (n - 1) rest h.2))

pub Covers-top :
    (top live n : ℕ) (msgs : List Message) → Covers top live n msgs → Covers (top + 1) live n msgs
Covers-top top live n [] h = (h.0, omega arith)
Covers-top top live n (reawakens _ ∷ rest) h = (omega arith, Covers-top top live n rest h.1)
Covers-top top live n (increments ∷ rest) h =
    (omega arith, h.1, Covers-top top live (n + 1) rest h.2)
Covers-top top live n (decrements ∷ rest) h =
    (omega arith, h.1, Covers-top top live (n - 1) rest h.2)

Covers-zero : (top live : ℕ) (msgs : List Message) → Covers top live 0 msgs → live ≡ 0
Covers-zero top live [] h = sym h.0
Covers-zero top live (reawakens _ ∷ rest) h = Covers-zero top live rest h.1
Covers-zero top live (increments ∷ rest) h = absurd (omega arith)
Covers-zero top live (decrements ∷ rest) h = absurd (omega arith)

-- How a message at the end changes the number of queues.
abbrev pub Ends : Message → (live live' : ℕ) → Type 0
Ends (reawakens _) live live' = live' ≡ live
Ends increments live live' = (0 < live) × (live' ≡ live + 1)
Ends decrements live live' = live' + 1 ≡ live

pub Covers-last :
    (top live n live' : ℕ) (msgs : List Message) (msg : Message)
    → Ends msg live live'
    → Covers top live n msgs
    → Covers (top + 1) live' n (msgs ++ msg ∷ [])
Covers-last top live n live' [] (reawakens task) e h = (omega arith, (omega arith, omega arith))
Covers-last top live n live' [] increments e h =
    (omega arith, omega arith, (omega arith, omega arith))
Covers-last top live n live' [] decrements e h =
    (omega arith, omega arith, (omega arith, omega arith))
Covers-last top live n live' (reawakens _ ∷ rest) msg e h =
    (omega arith, Covers-last top live n live' rest msg e h.1)
Covers-last top live n live' (increments ∷ rest) msg e h =
    (omega arith, h.1, Covers-last top live (n + 1) live' rest msg e h.2)
Covers-last top live n live' (decrements ∷ rest) msg e h =
    (omega arith, h.1, Covers-last top live (n - 1) live' rest msg e h.2)

pub Covers-pos : (top live n : ℕ) (msgs : List Message) → Covers top live n msgs → 0 < live → 0 < n
Covers-pos top live zero msgs h pos =
    let gone : live ≡ 0 = Covers-zero top live msgs h in absurd (omega arith)
Covers-pos top live (suc n) msgs h pos = omega arith
