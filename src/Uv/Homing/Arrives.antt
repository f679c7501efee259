-- ===== src/Uv/Homing/Arrives.antt =====
-- A task that goes home by librustuv/src/homing.rs and the callback of librustuv/src/queue.rs that
-- reawakens it there.
use mathlib.Core.List.{append_assoc}
use green_rs.Prelude.{ℕ, ◌+◌, ◌≡◌, ◌≢◌, refl, Bool, false, some, List, [], ◌∷◌, ◌++◌, ok, arith}
use green_rs.MessageQueue.{Queue}
use green_rs.Uv.EventLoop.{borrow_raw}
use green_rs.Uv.QueuePool.{
  QueuePool, Message, reawakens, push, on_message, reawakened, process, async_cb,
}
use green_rs.Uv.Homing.{local_id, go_home}

process-append :
    (msgs : List Message) (task : ℕ) (p p' : QueuePool)
    → (process (msgs ++ reawakens task ∷ []) p).1 ≡ (process msgs p').1 ++ task ∷ []
unfolding process
process-append [] task p p' = refl
process-append (msg ∷ rest) task p p' =
    rw
      (
        process-append rest task (on_message msg p) (on_message msg p'),
        append_assoc (reawakened msg) (process rest (on_message msg p')).1 (task ∷ []),
      )
      refl

-- Unless another thread is in the middle of a push, a task that is on another event loop than the one
-- it goes home to is put on that loop's queue and the handle of that queue is sent; and the callback that
-- this brings about reawakens the task, after those that were put there before.
pub go_home-async_cb :
    (destination here task : ℕ) (borrowed : Bool) (pool : QueuePool)
    → here ≢ destination
    → pool.queue.unlinked ≡ []
    → (pool' : QueuePool) × (go_home destination task (some (here, borrowed)) pool
        ≡ ok (false, pool'))
      × (pool'.sent ≡ pool.sent + 1)
      × ((async_cb pool').1 ≡ (async_cb pool).1 ++ task ∷ [])
unfolding go_home local_id borrow_raw async_cb push green_rs.MessageQueue.push
go_home-async_cb destination here task borrowed pool away whole = (
  push task pool,
  ground (arith, away),
  refl,
  rw whole (process-append pool.queue.items task _ _),
)
