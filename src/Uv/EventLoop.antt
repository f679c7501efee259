-- ===== src/Uv/EventLoop.antt =====
-- librustuv/src/event_loop.rs: the event loop of a thread, which is borrowed by one holder at a time,
-- and its start and end. A pointer to an event loop is a number.
use green_rs.Uv.QueuePool
use green_rs.Uv.QueuePool.{QueuePool, open_queue}
use green_rs.Prelude.{
  ℕ, ◌≡◌, refl, Bool, true, false, Option, none, some, Result, ok, fault, unwrap, then_ok, ℤ,
}
use green_rs.Uv.Stream.{UvResult, uv_ok, uv_err}

-- `LOCAL_LOOP` of a thread: the pointer, and whether it is borrowed.
abbrev pub LocalLoop : Type 0
LocalLoop = Option (ℕ × Bool)

-- `unknown` is libuv's UNKNOWN.
unfoldable pub borrow : ℤ → LocalLoop → UvResult ℕ × LocalLoop
borrow unknown none = (uv_err unknown, none)
borrow unknown (some (p, true)) = (uv_err unknown, some (p, true))
borrow unknown (some (p, false)) = (uv_ok p, some (p, true))

unfoldable pub borrow_raw : ℤ → LocalLoop → UvResult ℕ
borrow_raw unknown none = uv_err unknown
borrow_raw unknown (some (p, _)) = uv_ok p

-- The drop of a borrowed loop.
unfoldable pub drop_borrowed : ℕ → LocalLoop → Result LocalLoop
drop_borrowed p none = fault unwrap
drop_borrowed p (some _) = ok (some (p, false))

-- The data of libuv's loop, which counts blocked tasks, and the pool of queues.
pub record EventLoop : Type 0 where
  pub blocked : ℕ
  pub pool : Option QueuePool

-- The errors of libuv's calls come first, if they have some.
unfoldable pub new_loop : (no_loop no_pool : Option ℤ) → UvResult EventLoop
new_loop (some e) no_pool = uv_err e
new_loop none (some e) = uv_err e
new_loop none none = uv_ok (record { blocked = 0; pool = some QueuePool.new })

-- The id of the loop, its address, with a new queue.
unfoldable pub make_handle : ℕ → EventLoop → Result (ℕ × EventLoop)
make_handle address l = elim l.pool [
  | none ↦ fault unwrap
  | some pool ↦ ok (address, record l { pool = some (open_queue pool) })
]

-- What `LOCAL_LOOP` is after `run` is what it was before; `uv_run` is libuv's loop.
unfoldable pub run :
    (address : ℕ) → (uv_run : LocalLoop → UvResult (Unit {0})) → LocalLoop → Result LocalLoop
run address uv_run l = elim (uv_run (some (address, false))) [
  | uv_ok _ ↦ ok l
  | uv_err e ↦ fault unwrap
]

-- The drop of an event loop: its pool of queues goes, it runs once more, and libuv closes its loop;
-- `closes` is what that answers. The memory of the loop and of the pool's handle is then freed.
unfoldable pub drop_loop :
    (address : ℕ)
    → (uv_run : LocalLoop → UvResult (Unit {0})) → (closes : UvResult (Unit {0})) → EventLoop
    → LocalLoop
    → Result (EventLoop × LocalLoop)
unfolding run
drop_loop address uv_run closes l local = elim l.pool [
  | none ↦ fault unwrap
  | some pool ↦ then_ok (run address uv_run local) (λ local'. elim closes [
    | uv_ok _ ↦ ok (record l { pool = none }, local')
    | uv_err e ↦ fault unwrap
  ])
]

-- While nothing else borrows the loop of a thread, it is borrowed and given back as it was, and meanwhile
-- no second time.
pub borrow-drop_borrowed :
    (unknown : ℤ) (p : ℕ)
    → ((borrow unknown (some (p, false))).0 ≡ uv_ok p)
      × ((borrow unknown (borrow unknown (some (p, false))).1).0 ≡ uv_err unknown)
      × (drop_borrowed p (borrow unknown (some (p, false))).1 ≡ ok (some (p, false)))
unfolding borrow drop_borrowed
borrow-drop_borrowed unknown p = (refl, refl, refl)
