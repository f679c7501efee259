-- ===== src/Uv/QueuePool.antt =====
-- librustuv/src/queue.rs: queues on which other threads send blocked tasks back to an event loop.
-- Tasks go by ids. The lock that the drop of a queue shares with the callback has no value.
pub mod Covers
pub mod Counts
use green_rs.Prelude.{ℕ, ◌+◌, ◌-◌, ◌^◌, Bool, true, false, List, [], ◌∷◌, ◌++◌, ◌==◌, if◌then◌else◌}
use green_rs.Stack.{uint}
use green_rs.MessageQueue
use green_rs.MessageQueue.{Queue}

pub data Message : Type 0 where
  reawakens : ℕ → Message
  increments decrements : Message

-- `QueuePool` with its `State`: whether the event loop counts the handle as a reference, and how
-- often the handle has been sent.
pub record QueuePool : Type 0 where
  pub refcnt : ℕ
  pub referenced : Bool
  pub queue : Queue Message
  pub sent : ℕ

unfoldable pub new : QueuePool
new = record { refcnt = 0; referenced = false; queue = MessageQueue.queue; sent = 0 }

-- `QueuePool::queue`
unfoldable pub open_queue : QueuePool → QueuePool
open_queue p = record p {
  referenced = if p.refcnt == 0 then true else p.referenced;
  refcnt = uint (p.refcnt + 1);
}

unfoldable pub push : ℕ → QueuePool → QueuePool
push task p = record p { queue = MessageQueue.push (reawakens task) p.queue; sent = p.sent + 1 }

-- `Clone` and `Drop` of `Queue`.
unfoldable pub clone_queue : QueuePool → QueuePool
clone_queue p = record p { queue = MessageQueue.push increments p.queue }

unfoldable pub drop_queue : QueuePool → QueuePool
drop_queue p = record p { queue = MessageQueue.push decrements p.queue; sent = p.sent + 1 }

-- One message of the callback.
unfoldable pub on_message : Message → QueuePool → QueuePool
on_message (reawakens task) p = p
on_message increments p = record p {
  referenced = if p.refcnt == 0 then true else p.referenced;
  refcnt = uint (p.refcnt + 1);
}
on_message decrements p =
    let refcnt = uint (p.refcnt + 2 ^ 64 - 1) in
    record p { refcnt = refcnt; referenced = if refcnt == 0 then false else p.referenced }

abbrev pub reawakened : Message → List ℕ
reawakened (reawakens task) = task ∷ []
reawakened increments = []
reawakened decrements = []

-- The `loop` of `async_cb` over the messages that can be popped, with the tasks it reawakens.
unfoldable pub process : List Message → QueuePool → QueuePool × List ℕ
process [] p = (p, [])
process (msg ∷ rest) p =
    let (p', tasks) = process rest (on_message msg p) in (p', reawakened msg ++ tasks)

unfoldable pub async_cb : QueuePool → QueuePool × List ℕ
async_cb p = process p.queue.items (record p { queue = record p.queue { items = [] } })
