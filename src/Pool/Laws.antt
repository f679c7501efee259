-- ===== src/Pool/Laws.antt =====
-- Whom a pool of libgreen/src/lib.rs reaches with its messages, and which deques its schedulers know.
use mathlib.Core.List.{append-nil, append_assoc}
use green_rs.Prelude.{
  ℕ, zero, suc, ◌<◌, ◌≡◌, refl, sym, true, false, some, List, [], ◌∷◌, ◌++◌, ok, arith, get_elem?,
  length, ◌==◌, if◌then◌else◌, then_ok, ltb, inl, inr, Bool-cases,
}
use green_rs.Stack.{Os}
use green_rs.MessageQueue.{contents}
use green_rs.MessageQueue.Fifo.{contents-push}
use green_rs.Stack.Pool.{StackPool, empty}
use green_rs.Task.{GreenTask, SchedHandle, TaskOpts, configure}
use green_rs.TaskState.{active}
use green_rs.Sched.World.{
  Scheduler, Memory, SchedMessage, wake, shutdown, new_neighbor, pinned_task, task_from_friend,
  run_once, handle_of,
}
use green_rs.Pool.{
  SchedPool, deliver, announce, new_sched, start_threads, deque_ids, new, advance, jettison, spawn,
  spawn_sched, shut_down,
}

-- What a handle or each of a list of handles puts into the inbox with id `q`.
abbrev pub mail : SchedMessage → ℕ → List SchedHandle → List SchedMessage
mail msg q [] = []
mail msg q (handle ∷ rest) = (if handle.queue == q then msg ∷ [] else []) ++ mail msg q rest

contents-deliver :
    (handle : SchedHandle) (msg : SchedMessage) (m : Memory) (q : ℕ)
    → contents ((deliver handle msg m).inboxes q)
      ≡ contents (m.inboxes q) ++ (if handle.queue == q then msg ∷ [] else [])
unfolding deliver
contents-deliver handle msg m q =
    ground (arith, contents-push msg (m.inboxes handle.queue), append-nil (contents (m.inboxes q)))

-- A message to all handles reaches the inbox of each, after what was there.
contents-announce :
    (msg : SchedMessage) (handles : List SchedHandle) (m : Memory) (q : ℕ)
    → contents ((announce msg handles m).inboxes q) ≡ contents (m.inboxes q) ++ mail msg q handles
unfolding announce
contents-announce msg [] m q = sym (append-nil (contents (m.inboxes q)))
contents-announce msg (handle ∷ rest) m q =
    rw
      (
        contents-announce msg rest (deliver handle msg m) q,
        contents-deliver handle msg m q,
        append_assoc,
      )
      refl

get_elem?-lt {ℓ} :
    {A : Type ℓ} (xs : List A) (i : ℕ) → i < length xs → (x : A) × (get_elem? xs i ≡ some x)
get_elem?-lt [] i h = absurd (omega arith)
get_elem?-lt (x ∷ xs) zero h = (x, refl)
get_elem?-lt (x ∷ xs) (suc i) h = get_elem?-lt xs i (omega arith)

advance_lt : (idx count : ℕ) → idx < count → advance idx count < count
unfolding advance
advance_lt idx count h = ground arith

-- In a pool whose next friend is one of its schedulers, a task that can be made is spawned: that
-- scheduler gets it as its last message, and the next friend is again one of the schedulers.
pub spawn_lem :
    (os : Os) (min_stack address : ℕ) (opts : TaskOpts) (p : SchedPool) (m : Memory)
    (task : GreenTask) (stacks : StackPool)
    → p.next_friend < length p.handles
    → configure os min_stack address opts p.stack_pool ≡ ok (task, stacks)
    → (p' : SchedPool) × (m' : Memory) × (handle : SchedHandle) × (spawn os min_stack address opts p
          m
        ≡ ok (p', m'))
      × (get_elem? p.handles p.next_friend ≡ some handle)
      × (contents (m'.inboxes handle.queue)
          ≡ contents (m.inboxes handle.queue) ++ task_from_friend task ∷ [])
      × (p'.handles ≡ p.handles)
      × (p'.next_friend < length p'.handles)
unfolding spawn
spawn_lem os min_stack address opts p m task stacks h e =
    let (handle, found) = get_elem?-lt p.handles p.next_friend h in
    (
      record p { next_friend = advance p.next_friend (length p.handles); stack_pool = stacks },
      deliver handle (task_from_friend task) m,
      handle,
      rw (spawn, e, then_ok, jettison, found) refl,
      found,
      ground (arith, contents-deliver handle (task_from_friend task) m handle.queue),
      refl,
      advance_lt p.next_friend (length p.handles) h,
    )

-- The deques of which a message tells.
abbrev pub neighbors : List SchedMessage → List ℕ
neighbors [] = []
neighbors (new_neighbor id ∷ msgs) = id ∷ neighbors msgs
neighbors (_ ∷ msgs) = neighbors msgs

-- The deques that a scheduler knows, those in its inbox included.
abbrev pub known : Scheduler → Memory → List ℕ
known s m = s.work_queues ++ neighbors (contents (m.inboxes s.message_queue))

neighbors-append :
    (xs : List SchedMessage) (id : ℕ)
    → neighbors (xs ++ new_neighbor id ∷ []) ≡ neighbors xs ++ id ∷ []
neighbors-append [] id = refl
neighbors-append (wake ∷ xs) id = neighbors-append xs id
neighbors-append (shutdown ∷ xs) id = neighbors-append xs id
neighbors-append (new_neighbor x ∷ xs) id = rw (neighbors-append xs id)
neighbors-append (pinned_task t ∷ xs) id = neighbors-append xs id
neighbors-append (task_from_friend t ∷ xs) id = neighbors-append xs id
neighbors-append (run_once t ∷ xs) id = neighbors-append xs id

-- A scheduler that is spawned knows all deques of the pool; and one that knew them all before, and
-- to which the pool has one handle, knows them all after, the new one included.
pub spawn_sched-known :
    (draws : ℕ → ℕ → ℕ) (p : SchedPool) (m : Memory) (s : Scheduler)
    → (id : ℕ) → id ≡ length p.threads
    → mail (new_neighbor id) s.message_queue p.handles ≡ new_neighbor id ∷ []
    → known s m ≡ p.stealers
    → (known s (spawn_sched draws p m).2 ≡ (spawn_sched draws p m).1.stealers)
      × ((spawn_sched draws p m).1.stealers ≡ p.stealers ++ id ∷ [])
      × ((spawn_sched draws p m).1.threads
          ≡ p.threads ++ new_sched id p.pool_id (p.stealers ++ id ∷ []) (draws id) ∷ [])
unfolding spawn_sched
spawn_sched-known draws p m s id e one all = (rw e at knows, rw e refl, rw e refl)
  where
    knows : known s (announce (new_neighbor id) p.handles m) ≡ p.stealers ++ id ∷ []
    knows =
        rw
          (
            contents-announce (new_neighbor id) p.handles m s.message_queue,
            one,
            neighbors-append (contents (m.inboxes s.message_queue)) id,
            ← append_assoc,
            all,
          )
          refl

-- Each of the schedulers knows these deques, in their order it owns one, and it has one handle.
abbrev pub Serves : (stealers workers : List ℕ) → List Scheduler → List SchedHandle → Type 0
Serves stealers [] [] [] = Unit
Serves stealers (w ∷ ws) (s ∷ ss) (h ∷ hs) =
    (s.work_queue ≡ w) × (s.work_queues ≡ stealers) × (h ≡ handle_of s) × Serves stealers ws ss hs
Serves stealers _ _ _ = ⊥

Serves-last :
    (stealers ws : List ℕ) (ss : List Scheduler) (hs : List SchedHandle) (s : Scheduler)
    → s.work_queues ≡ stealers
    → Serves stealers ws ss hs
    → Serves stealers (ws ++ s.work_queue ∷ []) (ss ++ s ∷ []) (hs ++ handle_of s ∷ [])
Serves-last stealers [] [] [] s e h = (refl, e, refl, tt)
Serves-last stealers [] [] (x ∷ hs) s e h = absurd h
Serves-last stealers [] (x ∷ ss) hs s e h = absurd h
Serves-last stealers (w ∷ ws) [] hs s e h = absurd h
Serves-last stealers (w ∷ ws) (x ∷ ss) [] s e h = absurd h
Serves-last stealers (w ∷ ws) (x ∷ ss) (y ∷ hs) s e h =
    (h.0, h.1, h.2, Serves-last stealers ws ss hs s e h.3)

start_threads-Serves :
    (draws : ℕ → ℕ → ℕ) (before workers : List ℕ) (p : SchedPool)
    → Serves p.stealers before p.threads p.handles
    → let q : SchedPool = start_threads draws workers p in
      (q.stealers ≡ p.stealers)
      × (q.next_friend ≡ p.next_friend)
      × Serves p.stealers (before ++ workers) q.threads q.handles
unfolding start_threads new_sched
start_threads-Serves draws before [] p h = (refl, refl, rw (append-nil before) h)
start_threads-Serves draws before (worker ∷ workers) p h =
    let sched : Scheduler = new_sched worker p.pool_id p.stealers (draws worker) in
    let (e, f, all) =
      start_threads-Serves draws (before ++ worker ∷ []) workers _
        (Serves-last p.stealers before p.threads p.handles sched refl h) in
    (e, f, rw append_assoc at all)

-- A pool of at least one thread is made; each of its schedulers has one of its deques, in their
-- order, knows them all, and has its handle in the pool, and the first task goes to the first.
pub new_lem :
    (draws : ℕ → ℕ → ℕ) (id nscheds : ℕ)
    → 0 < nscheds
    → (p : SchedPool) × (new draws id nscheds ≡ ok p)
      × (p.stealers ≡ deque_ids nscheds 0)
      × (p.next_friend ≡ 0)
      × Serves p.stealers p.stealers p.threads p.handles
unfolding new
new_lem draws id nscheds h =
    let (e, f, all) = start_threads-Serves draws [] (deque_ids nscheds 0) bare tt in
    (start_threads draws (deque_ids nscheds 0) bare, rw test refl, e, f, rw e all)
  where
    bare : SchedPool
    bare = record {
      pool_id = id;
      threads = [];
      handles = [];
      stealers = deque_ids nscheds 0;
      next_friend = 0;
      stack_pool = empty;
    }

    test : ltb 0 nscheds ≡ true
    test = ground (arith, h)

-- When no task is active, shutting down sends `Shutdown` to every handle, after what was there.
pub shut_down_lem :
    (p : SchedPool) (m : Memory) (p' : SchedPool) (m' : Memory) (q : ℕ)
    → shut_down p m ≡ some (p', m')
    → (active m.task_state ≡ false)
      × (contents (m'.inboxes q) ≡ contents (m.inboxes q) ++ mail shutdown q p.handles)
unfolding shut_down
shut_down_lem p m p' m' q e = elim (Bool-cases (active m.task_state)) [
  | inl busy ↦ absurd (ground (arith, busy, e))
  | inr idle ↦
      let same : announce shutdown p.handles m ≡ m' = ground (arith, idle, e) in
      (idle, rw (← same) (contents-announce shutdown p.handles m q))
]
