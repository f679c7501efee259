-- ===== src/Basic/Owners.antt =====
-- The owners of the remote callbacks of the event loop of libgreen/src/basic.rs.
use green_rs.Prelude.{
  ℕ, ◌+◌, ◌-◌, ◌≡◌, refl, Bool, true, false, List, [], ◌∷◌, ◌++◌, Result, ok, arith, ◌==◌,
  if◌then◌else◌, ltb, then_ok,
}
use green_rs.Basic.{BasicLoop, new, remote_callback, fire, drop_remote, remote_work}
use green_rs.Basic.Remotes.{
  registered, IsNamed, LeavesRemotes, remote_callback-IsNamed, fire-IsNamed, drop_remote-IsNamed,
  remote_work-IsNamed,
}

-- A loop, and how many handles of each id its owners have.
pub record Owners : Type 0 where
  pub loop : BasicLoop
  pub handles : ℕ → ℕ

pub data Command : Type 0 where
  registers fires drops : ℕ → Command
  works : Command

-- A handle is fired or dropped only by an owner of it.
module _ (call : ℕ → BasicLoop → BasicLoop) where
  step : Command → Owners → Result Owners
  step (registers f) o =
      let (id, l) = remote_callback f o.loop in
      ok (record { loop = l; handles = λ j. o.handles j + (if id == j then 1 else 0) })
  step (fires id) o = ok (if ltb 0 (o.handles id) then record o { loop = fire id o.loop } else o)
  step (drops id) o = ok (
      if ltb 0 (o.handles id)
      then record {
        loop = drop_remote id o.loop;
        handles = λ j. if id == j then o.handles j - 1 else o.handles j;
      }
      else o)
  step works o = then_ok (remote_work call o.loop) (λ l. ok (record o { loop = l }))

  pub run : List Command → Owners → Result Owners
  run [] o = ok o
  run (c ∷ rest) o = then_ok (step c o) (run rest)

abbrev pub nobody : Owners
nobody = record { loop = new; handles = λ id. 0 }

module _ (call : ℕ → BasicLoop → BasicLoop) (leaves : LeavesRemotes call) where
  step-IsNamed :
      (c : Command) (o : Owners)
      → IsNamed o.handles [] o.loop
      → (o' : Owners) × (step call c o ≡ ok o') × IsNamed o'.handles [] o'.loop
  unfolding step remote_callback
  step-IsNamed (registers f) o h = (_, refl, remote_callback-IsNamed o.handles f o.loop h)
  step-IsNamed (fires id) o h = by_test (ltb 0 (o.handles id)) refl
    where
      by_test :
          (b : Bool)
          → ltb 0 (o.handles id) ≡ b
          → (o' : Owners) × (step call (fires id) o ≡ ok o') × IsNamed o'.handles [] o'.loop
      by_test true e = (
        record o { loop = fire id o.loop },
        rw e refl,
        fire-IsNamed o.handles id o.loop h (ground (arith, e)),
      )
      by_test false e = (o, rw e refl, h)
  step-IsNamed (drops id) o h = by_test (ltb 0 (o.handles id)) refl
    where
      by_test :
          (b : Bool)
          → ltb 0 (o.handles id) ≡ b
          → (o' : Owners) × (step call (drops id) o ≡ ok o') × IsNamed o'.handles [] o'.loop
      by_test true e = (
        record {
          loop = drop_remote id o.loop;
          handles = λ j. if id == j then o.handles j - 1 else o.handles j;
        },
        rw e refl,
        drop_remote-IsNamed o.handles id o.loop h (ground (arith, e)),
      )
      by_test false e = (o, rw e refl, h)
  step-IsNamed works o h =
      let (l, same, named, messages) = remote_work-IsNamed call leaves o.handles o.loop h in
      (record o { loop = l }, rw same refl, named)

  run-IsNamed :
      (commands : List Command) (o : Owners)
      → IsNamed o.handles [] o.loop
      → (o' : Owners) × (run call (commands ++ works ∷ []) o ≡ ok o')
        × (o'.loop.messages ≡ [])
        × ((id : ℕ) → registered id o'.loop.remotes ≡ o'.handles id)
  unfolding run step
  run-IsNamed [] o h =
      let (l, same, named, messages) = remote_work-IsNamed call leaves o.handles o.loop h in
      (record o { loop = l }, rw same refl, messages, λ id. rw messages at (named id))
  run-IsNamed (c ∷ rest) o h =
      let (o1, same1, h1) = step-IsNamed c o h in
      let (o2, same2, messages, counts) = run-IsNamed rest o1 h1 in
      (o2, rw (same1, same2), messages, counts)

  -- However handles of remotes are made, and fired and dropped by their owners, and whenever the loop
  -- works on its messages, where the callbacks leave the remotes and the messages alone: no lookup of a
  -- remote fails, and once the loop has worked on all its messages, exactly the remotes that have a
  -- handle are registered, as often as they have one.
  pub run-registered :
      (commands : List Command)
      → (o : Owners) × (run call (commands ++ works ∷ []) nobody ≡ ok o)
        × (o.loop.messages ≡ [])
        × ((id : ℕ) → registered id o.loop.remotes ≡ o.handles id)
  unfolding new
  run-registered commands = run-IsNamed commands nobody (λ id. refl)
