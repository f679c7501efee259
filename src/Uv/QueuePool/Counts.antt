-- ===== src/Uv/QueuePool/Counts.antt =====
-- The reference count of librustuv/src/queue.rs against the queues that exist.
use native.Mathlib.Nat.{mod-eq_of_lt, add-zero}
use green_rs.Stack.{uint}
use green_rs.Prelude.{
  ℕ, ◌+◌, ◌-◌, ◌^◌, ◌≤◌, ◌<◌, ◌≡◌, refl, Bool, true, false, not, List, [], ◌∷◌, ◌++◌, arith, ◌==◌,
  if◌then◌else◌, length,
}
use green_rs.Uv.QueuePool.Covers.{
  Covers, Covers-bound, Covers-suc, Covers-top, Covers-last, Covers-pos, Ends,
}
use green_rs.MessageQueue.{Queue, contents}
use green_rs.MessageQueue
use green_rs.MessageQueue.Fifo.{contents-push}
use green_rs.Uv.QueuePool.{
  Message, reawakens, increments, decrements, QueuePool, new, open_queue, push, clone_queue,
  drop_queue, on_message, process, async_cb,
}

-- `live` queues exist, and no count on the way exceeds `top`.
pub record Counts (top live : ℕ) (p : QueuePool) : Type 0 where
  pub covers : Covers top live p.refcnt (contents p.queue)
  pub flag : p.referenced ≡ not (p.refcnt == 0)

module _ {top live : ℕ} {p : QueuePool} where
  push_message-Counts :
      {live' : ℕ} (msg : Message) (sent : ℕ)
      → Ends msg live live'
      → Counts top live p
      → Counts (top + 1) live' (record p { queue = MessageQueue.push msg p.queue; sent = sent })
  push_message-Counts {live'} msg sent e h = record {
    covers =
        rw (contents-push msg p.queue)
          (Covers-last top live p.refcnt live' (contents p.queue) msg e h.covers);
    flag = h.flag;
  }

  open_queue-Counts :
      top + 1 < 2 ^ 64 → Counts top live p → Counts (top + 1) (live + 1) (open_queue p)
  unfolding open_queue
  open_queue-Counts small h =
      let le : p.refcnt ≤ top = Covers-bound top live p.refcnt (contents p.queue) h.covers in
      let fits : p.refcnt + 1 < 2 ^ 64 = omega (arith, le, small) in
      let same : uint (p.refcnt + 1) ≡ p.refcnt + 1 = mod-eq_of_lt fits in
      record {
        covers = rw same (Covers-suc top live p.refcnt (contents p.queue) h.covers);
        flag = ground (arith, h.flag, same);
      }

-- The callback keeps the count, whatever messages it finds; the rest is left in the queue.
process-Counts :
    {top live : ℕ} (msgs rest : List Message) (p : QueuePool)
    → top < 2 ^ 64
    → Covers top live p.refcnt (msgs ++ rest)
    → p.referenced ≡ not (p.refcnt == 0)
    → contents p.queue ≡ rest
    → Counts top live (process msgs p).0
unfolding process on_message
process-Counts [] rest p small c flag e = record { covers = rw e c; flag = flag }
process-Counts (reawakens task ∷ msgs) rest p small c flag e =
    process-Counts msgs rest p small c.1 flag e
process-Counts {top} {live} (increments ∷ msgs) rest p small c flag e =
    let le : p.refcnt + 1 ≤ top = Covers-bound top live (p.refcnt + 1) (msgs ++ rest) c.2 in
    let same : uint (p.refcnt + 1) ≡ p.refcnt + 1 = mod-eq_of_lt (omega (arith, le, small)) in
    process-Counts msgs rest _ small (rw same c.2) (ground (arith, flag, same)) e
process-Counts {top} {live} (decrements ∷ msgs) rest p small c flag e =
    let le : p.refcnt ≤ top = c.0 in
    let pos : 0 < p.refcnt = c.1 in
    let same : uint (p.refcnt + 2 ^ 64 - 1) ≡ p.refcnt - 1 = omega (arith, le, pos, small) in
    process-Counts msgs rest _ small (rw same c.2) (ground (arith, flag, same, pos)) e

-- What the threads do with the queues, and the callback.
pub data Op : Type 0 where
  opens clones drops calls_back : Op
  pushes : ℕ → Op

-- The pool, and how many queues there are.
pub record Use : Type 0 where
  pub pool : QueuePool
  pub live : ℕ

abbrev pub start : Use
start = record { pool = new; live = 0 }

-- A queue is cloned, dropped or pushed to only if there is one.
unfoldable pub step : Use → Op → Use
step u opens = record { pool = open_queue u.pool; live = u.live + 1 }
step u calls_back = record u { pool = (async_cb u.pool).0 }
step u clones = if u.live == 0 then u else record { pool = clone_queue u.pool; live = u.live + 1 }
step u drops = if u.live == 0 then u else record { pool = drop_queue u.pool; live = u.live - 1 }
step u (pushes task) = if u.live == 0 then u else record u { pool = push task u.pool }

unfoldable pub run : Use → List Op → Use
run u [] = u
run u (o ∷ ops) = run (step u o) ops

Counts-top : {top live : ℕ} {p : QueuePool} → Counts top live p → Counts (top + 1) live p
Counts-top {top} {live} {p} h = record {
  covers = Covers-top top live p.refcnt (contents p.queue) h.covers;
  flag = h.flag;
}

if-Counts :
    {top : ℕ} (test : Bool) (u v : Use)
    → Counts top u.live u.pool
    → (test ≡ false → Counts top v.live v.pool)
    → let w : Use = if test then u else v in Counts top w.live w.pool
if-Counts true u v h g = h
if-Counts false u v h g = g refl

step-Counts :
    (top : ℕ) (u : Use) (o : Op)
    → top + 1 < 2 ^ 64
    → Counts top u.live u.pool
    → Counts (top + 1) (step u o).live (step u o).pool
unfolding step async_cb clone_queue drop_queue push
step-Counts top u opens small h = open_queue-Counts small h
step-Counts top u calls_back small h =
    Counts-top
      (process-Counts u.pool.queue.items u.pool.queue.unlinked _ (omega arith) h.covers h.flag refl)
step-Counts top u clones small h =
    if-Counts (u.live == 0) u _ (Counts-top h)
      λ some. push_message-Counts increments u.pool.sent (ground arith) h
step-Counts top u drops small h =
    if-Counts (u.live == 0) u _ (Counts-top h)
      λ some. push_message-Counts decrements (u.pool.sent + 1) (ground arith) h
step-Counts top u (pushes task) small h =
    if-Counts (u.live == 0) u _ (Counts-top h)
      λ some. push_message-Counts (reawakens task) (u.pool.sent + 1) refl h

run-Counts :
    (top : ℕ) (u : Use) (ops : List Op)
    → top + length ops < 2 ^ 64
    → Counts top u.live u.pool
    → Counts (top + length ops) (run u ops).live (run u ops).pool
unfolding run
run-Counts top u [] small h = rw (add-zero top) h
run-Counts top u (o ∷ ops) small h =
    let same : top + 1 + length ops ≡ top + length (o ∷ ops) = omega arith in
    rw same at
      (run-Counts (top + 1) (step u o) ops (omega arith) (step-Counts top u o (omega arith) h))

start-Counts : Counts 0 0 new
unfolding new MessageQueue.queue
start-Counts = record { covers = (refl, omega arith); flag = refl }

run_start-Counts :
    (ops : List Op)
    → length ops < 2 ^ 64
    → Counts (0 + length ops) (run start ops).live (run start ops).pool
run_start-Counts ops small = run-Counts 0 start ops (omega arith) start-Counts

-- However queues are opened, cloned, dropped and pushed to, and the callback runs, in fewer than
-- `2 ^ 64` steps: while there is a queue, the event loop is referenced.
pub run_referenced :
    (ops : List Op)
    → length ops < 2 ^ 64
    → 0 < (run start ops).live
    → (run start ops).pool.referenced ≡ true
run_referenced ops small live =
    let h = run_start-Counts ops small in
    let p = (run start ops).pool in
    let pos =
      Covers-pos (0 + length ops) (run start ops).live p.refcnt (contents p.queue) h.covers live in
    ground (arith, h.flag, pos)

-- In such a run, when no message is left, the reference count is the number of queues, and the event
-- loop is referenced only if there is one.
pub run_refcnt :
    (ops : List Op)
    → length ops < 2 ^ 64
    → contents (run start ops).pool.queue ≡ []
    → ((run start ops).pool.refcnt ≡ (run start ops).live)
      × ((run start ops).pool.referenced ≡ not ((run start ops).live == 0))
run_refcnt ops small e =
    let h = run_start-Counts ops small in
    let same : (run start ops).pool.refcnt ≡ (run start ops).live = (rw e at h.covers).0 in
    (same, rw same at h.flag)
