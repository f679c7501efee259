-- ===== src/Basic.antt =====
-- libgreen/src/basic.rs: an event loop without I/O. Closures and callbacks go by ids; what they do to
-- the loop is a parameter. A remote callback is held elsewhere by its id.
pub mod Remotes
pub mod Owners
use green_rs.Prelude.{
  ℕ, zero, suc, ◌+◌, Bool, true, false, not, ◌&&◌, ◌||◌, Option, none, some, List, [], ◌∷◌, ◌++◌,
  Result, ok, fault, assertion, unreachable, unwrap, ◌==◌, ltb, length, if◌then◌else◌, is_some,
  then_ok, position, remove_at,
}
use green_rs.Stack.{uint}

pub data Message : Type 0 where
  run_remote remove_remote : ℕ → Message

-- `idle_active` is the flag that the loop shares with its `BasicPausable`.
pub record BasicLoop : Type 0 where
  pub work : List ℕ
  pub remotes : List (ℕ × ℕ)
  pub next_remote : ℕ
  pub messages : List Message
  pub idle : Option ℕ
  pub idle_active : Option Bool

unfoldable pub new : BasicLoop
new = record {
  work = [];
  remotes = [];
  next_remote = 0;
  messages = [];
  idle = none;
  idle_active = none;
}

-- What is registered on the loop, and the two handles.
unfoldable pub callback : ℕ → BasicLoop → BasicLoop
callback f l = record l { work = l.work ++ f ∷ [] }

unfoldable pub pausable_idle_callback : ℕ → BasicLoop → Result BasicLoop
pausable_idle_callback cb l =
    if is_some l.idle
    then fault assertion
    else ok (record l { idle = some cb; idle_active = some true })

unfoldable pub remote_callback : ℕ → BasicLoop → ℕ × BasicLoop
remote_callback f l = (
  l.next_remote,
  record l {
    next_remote = uint (l.next_remote + 1);
    remotes = l.remotes ++ (l.next_remote, f) ∷ [];
  },
)

unfoldable pub fire : ℕ → BasicLoop → BasicLoop
fire id l = record l { messages = l.messages ++ run_remote id ∷ [] }

unfoldable pub drop_remote : ℕ → BasicLoop → BasicLoop
drop_remote id l = record l { messages = l.messages ++ remove_remote id ∷ [] }

-- `pause` and the drop of the handle store false, `resume` true.
unfoldable pub set_active : Bool → BasicLoop → BasicLoop
set_active active l = elim l.idle_active [
  | none ↦ l
  | some _ ↦ record l { idle_active = some active }
]

unfoldable pub has_active_io : BasicLoop → Bool
has_active_io l = false

unfoldable pub has_idle : BasicLoop → Result Bool
has_idle l =
    if is_some l.idle
    then elim l.idle_active [ none ↦ fault unwrap | some active ↦ ok active ]
    else ok false

-- `find` over the remotes.
abbrev pub find_remote : ℕ → List (ℕ × ℕ) → Option ℕ
find_remote id [] = none
find_remote id ((i, f) ∷ rest) = if i == id then some f else find_remote id rest

-- `call` is what a callback does to the loop.
module _ (call : ℕ → BasicLoop → BasicLoop) where
  unfoldable pub message : Message → BasicLoop → Result BasicLoop
  message (run_remote id) l = elim (find_remote id l.remotes) [
    | some f ↦ ok (call f l)
    | none ↦ fault unreachable
  ]
  message (remove_remote id) l = elim (position (λ (r : ℕ × ℕ). r.0 == id) l.remotes) [
    | some i ↦ ok (record l { remotes = remove_at l.remotes i })
    | none ↦ fault unreachable
  ]

  unfoldable pub all_messages : List Message → BasicLoop → Result BasicLoop
  all_messages [] l = ok l
  all_messages (msg ∷ rest) l = then_ok (message msg l) (all_messages rest)

  unfoldable pub remote_work : BasicLoop → Result BasicLoop
  remote_work l = all_messages l.messages (record l { messages = [] })

  unfoldable pub run_closures : List ℕ → BasicLoop → BasicLoop
  run_closures [] l = l
  run_closures (f ∷ rest) l = run_closures rest (call f l)

  -- `none` is fuel that ran out: closures may add further ones for ever.
  unfoldable pub do_work : ℕ → BasicLoop → Option BasicLoop
  do_work zero l = none
  do_work (suc fuel) l =
      let more = do_work fuel (run_closures l.work (record l { work = [] })) in
      if ltb 0 (length l.work) then more else some l

  unfoldable pub run_idle : BasicLoop → Result BasicLoop
  run_idle l = elim l.idle [
    | none ↦ ok l
    | some cb ↦ elim l.idle_active [
      | none ↦ fault unwrap
      | some active ↦ ok (if active then call cb l else l)
    ]
  ]

  -- The rest of a round of `run`, once the closures have run; `waits` is what other threads send while
  -- the loop waits for a message.
  unfoldable pub end_round : (BasicLoop → BasicLoop) → BasicLoop → Result BasicLoop
  unfolding remote_work has_idle run_idle
  end_round waits l = then_ok (remote_work l) (λ l. then_ok (has_idle l) (λ idle.
      if idle
      then run_idle l
      else ok (
          if ltb 0 (length l.remotes) && length l.messages == 0 && length l.work == 0
          then waits l
          else l)))

  -- The test of the `while` loop.
  unfoldable pub goes_on : BasicLoop → Result Bool
  unfolding has_idle
  goes_on l = if ltb 0 (length l.remotes) || ltb 0 (length l.work) then ok true else has_idle l

  -- `run`, where each round of it and each round of `work` take a unit of fuel.
  unfoldable pub run : (BasicLoop → BasicLoop) → ℕ → BasicLoop → Option (Result BasicLoop)
  unfolding do_work end_round goes_on
  run waits zero l = none
  run waits (suc fuel) l = elim (goes_on l) [
    | fault e ↦ some (fault e)
    | ok false ↦ some (ok l)
    | ok true ↦ elim (do_work fuel l) [
      | none ↦ none
      | some l' ↦ elim (end_round waits l') [
        | fault e ↦ some (fault e)
        | ok l'' ↦ run waits fuel l''
      ]
    ]
  ]
