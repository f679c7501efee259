-- ===== src/Uv/Access.antt =====
-- librustuv/src/access.rs: access to a stream, granted to one task at a time. All calls are made on
-- the thread of one event loop, so each is one step. Tasks go by ids.
pub mod Exclusive
use green_rs.Prelude.{
  ℕ, Bool, true, false, Option, none, some, List, [], ◌∷◌, ◌++◌, Result, ok, fault, assertion,
  position, get_elem?, remove_at, ◌==◌, if◌then◌else◌,
}

-- A blocked task and its token.
pub record Waiter : Type 0 where
  pub task : ℕ
  pub token : ℕ

pub record Inner {ℓ} (A : Type ℓ) : Type ℓ where
  pub queue : List Waiter
  pub held : Bool
  pub closed : Bool
  pub value : A

module _ {ℓ} {A : Type ℓ} where
  unfoldable pub new : A → Inner A
  new value = record { queue = []; held = false; closed = false; value = value }

  -- `grant` up to the point where it has access or blocks; the answer is whether it goes on.
  unfoldable pub grant : ℕ → ℕ → Inner A → Bool × Inner A
  grant task token i =
      if i.held
      then (false, record i { queue = i.queue ++ record { task = task; token = token } ∷ [] })
      else (true, record i { held = true })

  -- `grant` after its task has been reawakened.
  unfoldable pub regrant : Inner A → Result (Inner A)
  regrant i = if i.held then ok i else fault assertion

  unfoldable pub close : Inner A → Inner A
  close i = record i { closed = true }

  unfoldable pub is_closed : Inner A → Bool
  is_closed i = i.closed

  unfoldable pub dequeue : ℕ → Inner A → Option ℕ × Inner A
  unfolding position
  dequeue token i = elim (position (λ (x : Waiter). x.token == token) i.queue) [
    | none ↦ (none, i)
    | some n ↦ elim (get_elem? i.queue n) [
      | none ↦ (none, i)
      | some x ↦ (some x.task, record i { queue = remove_at i.queue n })
    ]
  ]

  unfoldable pub release_to : List Waiter → Inner A → Option ℕ × Inner A
  release_to [] i = (none, record i { held = false })
  release_to (x ∷ rest) i = (some x.task, record i { queue = rest })

  -- The drop of a guard: the task that is reawakened, which takes the access over.
  unfoldable pub release : Inner A → Option ℕ × Inner A
  unfolding release_to
  release i = release_to i.queue i

  -- The drop of `Inner`.
  unfoldable pub drop_inner : Inner A → Result (Unit {0})
  drop_inner i =
      if i.held then fault assertion else elim i.queue [ [] ↦ ok tt | x ∷ rest ↦ fault assertion ]
