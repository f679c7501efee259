-- ===== src/Sched/Held/Sends.antt =====
-- Sending a message and queueing a task in libgreen/src/sched.rs add that task to what is held.
use green_rs.Prelude.{
  ℕ, ◌+◌, ◌≡◌, refl, ap, List, [], ◌∷◌, not, arith, sum_of, sum_of-append, Sum-update,
}
use green_rs.MessageQueue.{Queue, contents, push}
use green_rs.MessageQueue.Fifo.{contents-push}
use green_rs.Task.{GreenTask, SchedHandle, is_sched}
use green_rs.Sched.World.{World, Local, SchedMessage, wake, send}
use green_rs.Sched.Logic.{After, After-bind, After-assert}
use green_rs.Sched.Work.{resume_idle, push_work, notify_sleeper, enqueue_task}
use green_rs.Sched.Held.{is_task, in_message, in_inbox, in_deque, Holds}

pub in_inbox-push :
    (a : ℕ) (msg : SchedMessage) (q : Queue SchedMessage)
    → in_inbox a (push msg q) ≡ in_inbox a q + in_message a msg
in_inbox-push a msg q = omega (
  arith,
  ap (sum_of (in_message a)) (contents-push msg q),
  sum_of-append (in_message a) (contents q) (msg ∷ []),
)

module _ {a k : ℕ} {l : Local} where
  pub send-Holds :
      (handle : SchedHandle) (msg : SchedMessage) {w : World}
      → Holds a k l w
      → After (send handle msg w) (λ _. Holds a (k + in_message a msg) l)
  unfolding send
  send-Holds handle msg {w} h = record {
    in_deques = h.in_deques;
    in_inboxes = h.in_inboxes + in_message a msg;
    deques = h.deques;
    inboxes =
        Sum-update (in_inbox a) handle.queue (push msg (w.mem.inboxes handle.queue)) _ h.inboxes
          (omega (arith, in_inbox-push a msg (w.mem.inboxes handle.queue)));
    count = omega (arith, h.count);
    clean = h.clean;
    in_tls = h.in_tls;
  }

  pub notify_sleeper-Holds :
      {w : World} → Holds a k l w → After (notify_sleeper w) (λ _. Holds a k l)
  unfolding notify_sleeper
  notify_sleeper-Holds {w} h = by_sleepers w.mem.sleepers refl
    where
      by_sleepers :
          (sleepers : List SchedHandle)
          → w.mem.sleepers ≡ sleepers
          → After (notify_sleeper w) (λ _. Holds a k l)
      by_sleepers [] e = rw (e, notify_sleeper) (ground (arith, h))
      by_sleepers (handle ∷ rest) e =
          rw (e, notify_sleeper)
            (record {
              in_deques = h.in_deques;
              in_inboxes = h.in_inboxes;
              deques = h.deques;
              inboxes =
                  Sum-update (in_inbox a) handle.queue (push wake (w.mem.inboxes handle.queue)) _
                    h.inboxes (omega (arith, in_inbox-push a wake (w.mem.inboxes handle.queue)));
              count = h.count;
              clean = h.clean;
              in_tls = h.in_tls;
            })

  pub push_work-Holds :
      (t : GreenTask) {w : World}
      → Holds a k l w
      → After (push_work t w) (λ _. Holds a (k + is_task a t) l)
  unfolding push_work
  push_work-Holds t {w} h = record {
    in_deques = h.in_deques + is_task a t;
    in_inboxes = h.in_inboxes;
    deques =
        Sum-update (in_deque a) w.sched.work_queue (t ∷ w.mem.deques w.sched.work_queue) _ h.deques
          (omega arith);
    inboxes = h.inboxes;
    count = omega (arith, h.count);
    clean = h.clean;
    in_tls = h.in_tls;
  }

-- A task that is enqueued is held once more, and nothing else is gained or lost.
pub enqueue_task-Holds :
    {a k : ℕ} {l : Local} (t : GreenTask) {w : World}
    → Holds a k l w
    → After (enqueue_task t w) (λ _. Holds a (k + is_task a t) l)
unfolding enqueue_task
enqueue_task-Holds {a} {k} {l} t {w} h = After-assert _ (not (is_sched t)) _ w λ _.
    After-bind _ (λ _. Holds a (k + is_task a t) l) (push_work t) _ w (push_work-Holds t h)
      λ _ w' h'.
        notify_sleeper-Holds {a = a} {k = k + is_task a t} {l = l} {w = resumed w'}
          (ground (arith, h'))
  where
    resumed : World → World
    resumed w = record w {
      sched = record w.sched { idle_callback = resume_idle w.sched.idle_callback };
    }
