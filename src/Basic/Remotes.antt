-- ===== src/Basic/Remotes.antt =====
-- The messages of the event loop of libgreen/src/basic.rs and the remote callbacks that they name.
use native.Mathlib.Numerals.{unary_clauses}
use mathlib.Core.List.{append-nil}
use green_rs.Prelude.{
  ℕ, suc, ◌+◌, ◌-◌, ◌<◌, ◌≡◌, refl, ap, Bool, true, false, some, List, [], ◌∷◌, ◌++◌, ok, arith,
  ◌==◌, if◌then◌else◌, ◌∙◌, position, remove_at,
}
use green_rs.Basic.{
  Message, run_remote, remove_remote, BasicLoop, remote_callback, fire, drop_remote, find_remote,
  message, all_messages, remote_work,
}

-- How many remotes have that id.
abbrev pub registered : ℕ → List (ℕ × ℕ) → ℕ
registered id [] = 0
registered id ((i, f) ∷ rest) = (if i == id then 1 else 0) + registered id rest

-- From `n` registrations of `id` on, the messages name it only while it is registered, and leave it
-- registered as often as it has a handle.
abbrev pub Names : (id handles n : ℕ) → List Message → Type 0
Names id handles n [] = n ≡ handles
Names id handles n (run_remote i ∷ rest) = (i ≡ id → 0 < n) × Names id handles n rest
Names id handles n (remove_remote i ∷ rest) =
    (i ≡ id → 0 < n) × Names id handles (if i == id then n - 1 else n) rest

find_remote-registered :
    (id : ℕ) (rs : List (ℕ × ℕ)) → 0 < registered id rs → (f : ℕ) × (find_remote id rs ≡ some f)
find_remote-registered id [] h = absurd (omega arith)
find_remote-registered id ((i, f) ∷ rest) h =
    by_test (find_remote-registered id rest) (i == id) refl
  where
    by_test :
        (0 < registered id rest → (g : ℕ) × (find_remote id rest ≡ some g))
        → (b : Bool) → (i == id) ≡ b
        → (g : ℕ) × (find_remote id ((i, f) ∷ rest) ≡ some g)
    by_test later true e = (f, rw e refl)
    by_test later false e = let found = later (ground (arith, e, h)) in (found.0, rw e found.1)

-- The removal of the first that is found.
abbrev without : ℕ → List (ℕ × ℕ) → List (ℕ × ℕ)
without id [] = []
without id ((i, f) ∷ rest) = if i == id then rest else (i, f) ∷ without id rest

position-registered :
    (id : ℕ) (rs : List (ℕ × ℕ))
    → 0 < registered id rs
    → (n : ℕ) × (position (λ (r : ℕ × ℕ). r.0 == id) rs ≡ some n) × (remove_at rs n ≡ without id rs)
unfolding position
position-registered id [] h = absurd (omega arith)
position-registered id ((i, f) ∷ rest) h = by_test (position-registered id rest) (i == id) refl
  where
    by_test :
        (0 < registered id rest
          → (n : ℕ) × (position (λ (r : ℕ × ℕ). r.0 == id) rest ≡ some n)
            × (remove_at rest n ≡ without id rest))
        → (b : Bool) → (i == id) ≡ b
        → (n : ℕ) × (position (λ (r : ℕ × ℕ). r.0 == id) ((i, f) ∷ rest) ≡ some n)
          × (remove_at ((i, f) ∷ rest) n ≡ without id ((i, f) ∷ rest))
    by_test later true e = (0, rw e refl, rw e refl)
    by_test later false e =
        let found = later (ground (arith, e, h)) in
        (suc found.0, rw (e, found.1) refl, rw (e, found.2) refl)

registered-without :
    (id j : ℕ) (rs : List (ℕ × ℕ))
    → registered j (without id rs) ≡ (if id == j then registered j rs - 1 else registered j rs)
registered-without id j [] = ground arith
registered-without id j ((i, f) ∷ rest) = ground (arith, registered-without id j rest)

registered-append :
    (id : ℕ) (rs : List (ℕ × ℕ)) (r : ℕ × ℕ)
    → registered id (rs ++ r ∷ []) ≡ registered id rs + (if r.0 == id then 1 else 0)
registered-append id [] (j, g) = omega arith
registered-append id ((i, f) ∷ rest) (j, g) = omega (arith, registered-append id rest (j, g))

-- A message at the end.
Names-run :
    (id handles : ℕ) (msgs : List Message) (n i : ℕ)
    → (i ≡ id → 0 < handles)
    → Names id handles n msgs
    → Names id handles n (msgs ++ run_remote i ∷ [])
Names-run id handles [] n i held h = ((λ e. omega (arith, held e, h)), h)
Names-run id handles (run_remote j ∷ rest) n i held h =
    (h.0, Names-run id handles rest n i held h.1)
Names-run id handles (remove_remote j ∷ rest) n i held h =
    (h.0, Names-run id handles rest (if j == id then n - 1 else n) i held h.1)

Names-remove :
    (id handles : ℕ) (msgs : List Message) (n i : ℕ)
    → (i ≡ id → 0 < handles)
    → Names id handles n msgs
    → Names id (if i == id then handles - 1 else handles) n (msgs ++ remove_remote i ∷ [])
Names-remove id handles [] n i held h =
    ((λ e. omega (arith, held e, h)), rw (ap (λ m. if i == id then m - 1 else m) h) refl)
Names-remove id handles (run_remote j ∷ rest) n i held h =
    (h.0, Names-remove id handles rest n i held h.1)
Names-remove id handles (remove_remote j ∷ rest) n i held h =
    (h.0, Names-remove id handles rest (if j == id then n - 1 else n) i held h.1)

-- One registration and one handle more.
Names-suc :
    (id handles : ℕ) (msgs : List Message) (n : ℕ)
    → Names id handles n msgs
    → Names id (suc handles) (suc n) msgs
Names-suc id handles [] n h = ap suc h
Names-suc id handles (run_remote j ∷ rest) n h =
    ((λ e. omega arith), Names-suc id handles rest n h.1)
Names-suc id handles (remove_remote j ∷ rest) n h =
    let one_more : (if j == id then suc n - 1 else suc n) ≡ suc (if j == id then n - 1 else n) =
      ground (arith, h.0) in
    ((λ e. omega arith), rw one_more (Names-suc id handles rest (if j == id then n - 1 else n) h.1))

Names-more :
    (id : ℕ) (b : Bool) (handles n : ℕ) (msgs : List Message)
    → Names id handles n msgs
    → Names id (handles + (if b then 1 else 0)) (n + (if b then 1 else 0)) msgs
Names-more id true handles n msgs h = simp unary_clauses (Names-suc id handles msgs n h)
Names-more id false handles n msgs h = simp unary_clauses h

-- With `pending` the messages that are still to be handled, and how many handles there are of each id.
abbrev pub IsNamed : (ℕ → ℕ) → List Message → BasicLoop → Type 0
IsNamed handles pending l =
    (id : ℕ) → Names id (handles id) (registered id l.remotes) (pending ++ l.messages)

-- What becomes of it as handles are made, fired and dropped.
pub remote_callback-IsNamed :
    (handles : ℕ → ℕ) (f : ℕ) (l : BasicLoop)
    → IsNamed handles [] l
    → IsNamed (λ id. handles id + (if l.next_remote == id then 1 else 0)) [] (remote_callback f l).1
unfolding remote_callback
remote_callback-IsNamed handles f l h id =
    rw (registered-append id l.remotes (l.next_remote, f))
      (Names-more id (l.next_remote == id) _ _ _ (h id))

pub fire-IsNamed :
    (handles : ℕ → ℕ) (id : ℕ) (l : BasicLoop)
    → IsNamed handles [] l
    → 0 < handles id
    → IsNamed handles [] (fire id l)
unfolding fire
fire-IsNamed handles id l h held j =
    Names-run j (handles j) l.messages _ id (λ e. ground (arith, e, held)) (h j)

pub drop_remote-IsNamed :
    (handles : ℕ → ℕ) (id : ℕ) (l : BasicLoop)
    → IsNamed handles [] l
    → 0 < handles id
    → IsNamed (λ j. if id == j then handles j - 1 else handles j) [] (drop_remote id l)
unfolding drop_remote
drop_remote-IsNamed handles id l h held j =
    Names-remove j (handles j) l.messages _ id (λ e. ground (arith, e, held)) (h j)

-- What a callback leaves alone.
abbrev pub LeavesRemotes : (ℕ → BasicLoop → BasicLoop) → Type 0
LeavesRemotes call =
    (f : ℕ) (l : BasicLoop) → ((call f l).remotes ≡ l.remotes) × ((call f l).messages ≡ l.messages)

module _ (call : ℕ → BasicLoop → BasicLoop) (leaves : LeavesRemotes call) (handles : ℕ → ℕ) where
  message-IsNamed :
      (msg : Message) (rest : List Message) (l : BasicLoop)
      → IsNamed handles (msg ∷ rest) l
      → (l' : BasicLoop) × (message call msg l ≡ ok l')
        × IsNamed handles rest l'
        × (l'.messages ≡ l.messages)
  unfolding message
  message-IsNamed (run_remote id) rest l h =
      let found = find_remote-registered id l.remotes ((h id).0 refl) in
      let (remotes, messages) = leaves found.0 l in
      (call found.0 l, rw (message, found.1) refl, λ j. rw (remotes, messages) (h j).1, messages)
  message-IsNamed (remove_remote id) rest l h =
      let found = position-registered id l.remotes ((h id).0 refl) in
      (
        record l { remotes = remove_at l.remotes found.0 },
        rw (message, found.1) refl,
        λ j. rw (found.2, registered-without id j l.remotes) (h j).1,
        refl,
      )

  all_messages-IsNamed :
      (msgs : List Message) (l : BasicLoop)
      → IsNamed handles msgs l
      → (l' : BasicLoop) × (all_messages call msgs l ≡ ok l')
        × IsNamed handles [] l'
        × (l'.messages ≡ l.messages)
  unfolding all_messages
  all_messages-IsNamed [] l h = (l, refl, h, refl)
  all_messages-IsNamed (msg ∷ rest) l h =
      let (l1, same1, h1, messages1) = message-IsNamed msg rest l h in
      let (l2, same2, h2, messages2) = all_messages-IsNamed rest l1 h1 in
      (l2, rw (same1, same2), h2, messages2 ∙ messages1)

  pub remote_work-IsNamed :
      (l : BasicLoop)
      → IsNamed handles [] l
      → (l' : BasicLoop) × (remote_work call l ≡ ok l') × IsNamed handles [] l' × (l'.messages ≡ [])
  unfolding remote_work
  remote_work-IsNamed l h =
      all_messages-IsNamed l.messages (record l { messages = [] })
        (λ id. rw (append-nil l.messages) (h id))
