-- ===== src/Sched/Held/Cycle.antt =====
-- The count of a task through the scheduler task's cycle in libgreen/src/sched.rs.
use green_rs.Prelude.{
  ℕ, zero, suc, ◌+◌, ◌-◌, ◌≤◌, ◌≡◌, refl, not, ◌&&◌, Bool, true, false, Option, none, some, List,
  [], ◌∷◌, arith, Sum-update, Sum-member, if◌then◌else◌,
}
use green_rs.MessageQueue.{Queue, casual_pop}
use green_rs.MessageQueue.Fifo.{pop-Pops}
use green_rs.Task.{GreenTask, SchedHandle, home_sched, give_home}
use green_rs.Task.Laws.{give_home-address}
use green_rs.Sched.World.{
  World, M, Local, vacant, SchedMessage, wake, shutdown, new_neighbor, pinned_task,
  task_from_friend, run_once, send, return, make_handle, handle_of, ◌>>=◌,
}
use green_rs.Sched.Logic.{After, After-bind, After-if, After-lift}
use green_rs.Sched.Work.{find_work}
use green_rs.Sched.Switch.{resume_task_immediately}
use green_rs.Sched.Loop.{
  EffortLevel, dont_try_too_hard, give_it_your_best, data_or_none, pop_with, pop_message, wake_all,
  process, run_found, on_message, interpret_message_queue, do_work, work_round, work_loop,
}
use green_rs.Sched.Held.{is_task, in_message, in_inbox, in_slots, Holds, Took}
use green_rs.Sched.Held.Sends.{send-Holds}
use green_rs.Sched.Held.Moves.{find_work-Took}
use green_rs.Sched.Held.Swaps.{GreenKeeps, resume_task_immediately-Took}
use green_rs.Sched.Held.Routes.{process_task-After}

abbrev in_message? : ℕ → Option SchedMessage → ℕ
in_message? a none = 0
in_message? a (some msg) = in_message a msg

in_inbox-pop_with :
    (a : ℕ) (effort : EffortLevel) (q : Queue SchedMessage)
    → in_inbox a (pop_with effort q).1 + in_message? a (pop_with effort q).0 ≡ in_inbox a q
unfolding pop_with data_or_none casual_pop
in_inbox-pop_with a dont_try_too_hard q = ground (arith, pop-Pops q)
in_inbox-pop_with a give_it_your_best q = ground (arith, pop-Pops q)

module _ {a k : ℕ} {l : Local} where
  pop_message-Took :
      (effort : EffortLevel) {w : World}
      → Holds a k l w
      → After
          (pop_message effort w)
          (λ msg w'. (rest : ℕ) × (rest + in_message? a msg ≡ k) × Holds a rest l w')
  unfolding pop_message
  pop_message-Took effort {w} h = (
    k - in_message? a popped.0,
    omega (arith, member, less, h.count),
    record {
      in_deques = h.in_deques;
      in_inboxes = h.in_inboxes - in_message? a popped.0;
      deques = h.deques;
      inboxes =
          Sum-update (in_inbox a) w.sched.message_queue popped.1 _ h.inboxes
            (omega (arith, member, less));
      count = omega (arith, member, less, h.count);
      clean = h.clean;
      in_tls = h.in_tls;
    },
  )
    where
      own : Queue SchedMessage
      own = w.mem.inboxes w.sched.message_queue

      popped : Option SchedMessage × Queue SchedMessage
      popped = pop_with effort own

      member : in_inbox a own ≤ h.in_inboxes
      member = Sum-member (in_inbox a) w.sched.message_queue h.inboxes

      less : in_inbox a popped.1 + in_message? a popped.0 ≡ in_inbox a own
      less = in_inbox-pop_with a effort own

  wake_all-Holds :
      (handles : List SchedHandle) {w : World}
      → Holds a k l w
      → After (wake_all handles w) (λ _. Holds a k l)
  unfolding wake_all
  wake_all-Holds [] h = h
  wake_all-Holds (handle ∷ rest) {w} h =
      After-bind _ (λ _. Holds a (k + 0) l) (send handle wake) (λ _. wake_all rest)
        (record w { mem = record w.mem { sleepers = rest } })
        (send-Holds handle wake (ground (arith, h)))
        λ _ w' h'. wake_all-Holds rest {w = w'} (ground (arith, h'))

-- What is held besides the task in hand.
pub Took-rest :
    {a k : ℕ} {l : Local} (task : GreenTask) {w : World}
    → Took a k l (some task) w
    → (rest : ℕ) × (rest + is_task a task ≡ k) × Holds a rest l w
Took-rest {a} task {w} h = (h.in_deques + h.in_inboxes + in_slots a w, h.count, ground (arith, h))

-- The scheduler task is in hand, and all else adds up to `k`.
abbrev pub InHand : ℕ → ℕ → GreenTask × Bool → World → Type 0
InHand a k r = Took a k vacant (some r.0)

-- `none` is a loop that has not ended within the fuel.
abbrev pub EndedInHand : ℕ → ℕ → Option (GreenTask × Bool) → World → Type 0
EndedInHand a k none w = Unit
EndedInHand a k (some r) w = InHand a k r w

module _ {a : ℕ} (run_green : M GreenTask) (keeps : GreenKeeps a run_green) where
  pub process-Took :
      {k : ℕ} (stask next : GreenTask) {w : World}
      → Holds a k vacant w
      → After
          (process run_green stask next w)
          (λ stask'. Took a (k + is_task a stask + is_task a next) vacant (some stask'))
  process-Took {k} stask next {w} h =
      process_task-After
        (λ stask'. Took a (k + is_task a stask + is_task a next) vacant (some stask')) (λ t. t)
        (resume_task_immediately run_green) stask next h
        (resume_task_immediately-Took run_green stask next keeps h) λ w' h'. ground (arith, h')

  done-InHand :
      {k : ℕ} (m : M GreenTask) (w : World) {k' : ℕ}
      → k ≡ k'
      → After (m w) (λ stask. Took a k vacant (some stask))
      → After ((m >>= λ stask. return (stask, true)) w) (InHand a k')
  done-InHand {k} m w e h =
      After-bind (InHand a _) (λ stask. Took a k vacant (some stask)) m
        (λ stask. return (stask, true)) w h λ stask w' h'. rw (← e) h'

  on_message-InHand :
      {k : ℕ} (stask : GreenTask) (msg : Option SchedMessage) {w : World}
      → Holds a k vacant w
      → After
          (on_message run_green stask msg w)
          (InHand a (k + is_task a stask + in_message? a msg))
  unfolding on_message make_handle
  on_message-InHand stask none h = ground (arith, h)
  on_message-InHand stask (some wake) h = ground (arith, h)
  on_message-InHand stask (some (new_neighbor id)) h = ground (arith, h)
  on_message-InHand {k} stask (some (run_once task)) {w} h =
      done-InHand (resume_task_immediately run_green stask task) w refl
        (resume_task_immediately-Took run_green stask task keeps h)
  on_message-InHand {k} stask (some (task_from_friend task)) {w} h =
      done-InHand (process run_green stask task) w refl (process-Took stask task h)
  on_message-InHand {k} stask (some (pinned_task task)) {w} h =
      After-lift _ (give_home (home_sched (handle_of w.sched)) task) _ w λ homed e.
        done-InHand (resume_task_immediately run_green stask homed) w
          (rw (give_home-address (home_sched (handle_of w.sched)) task e))
          (resume_task_immediately-Took run_green stask homed keeps h)
  on_message-InHand {k} stask (some shutdown) {w} h =
      After-bind _ (λ _. Holds a k vacant)
        (if w.sched.sleepy then wake_all w.mem.sleepers else return tt) _ w
        (After-if _ w.sched.sleepy (wake_all w.mem.sleepers) (return tt) w
          (λ _. wake_all-Holds w.mem.sleepers h) (λ _. h))
        λ _ w' h'. ground (arith, h')

  pub interpret-InHand :
      {k : ℕ} (stask : GreenTask) (effort : EffortLevel) {w : World}
      → Holds a k vacant w
      → After (interpret_message_queue run_green stask effort w) (InHand a (k + is_task a stask))
  unfolding interpret_message_queue
  interpret-InHand {k} stask effort {w} h =
      After-bind _ _ (pop_message effort) _ w (pop_message-Took effort h) λ msg w' p.
        let whole : k + is_task a stask ≡ p.0 + is_task a stask + in_message? a msg =
          omega (arith, p.1) in
        rw whole (on_message-InHand stask msg p.2)

  do_work-InHand :
      {k : ℕ} (stask : GreenTask) {w : World}
      → Holds a k vacant w
      → After (do_work run_green stask w) (InHand a (k + is_task a stask))
  unfolding do_work
  do_work-InHand {k} stask {w} h =
      After-bind _ (Took a k vacant) find_work (run_found run_green stask) w (find_work-Took h)
        λ found w' h'. by_found found h'
    where
      by_found :
          (found : Option GreenTask) {w' : World}
          → Took a k vacant found w'
          → After (run_found run_green stask found w') (InHand a (k + is_task a stask))
      by_found none h' = ground (arith, h')
      by_found (some task) {w'} h' =
          let (rest, e, held) = Took-rest task h' in
          done-InHand (process run_green stask task) w' (omega (arith, e))
            (process-Took stask task held)

  pub work_round-InHand :
      {k : ℕ} (stask : GreenTask) {w : World}
      → Holds a k vacant w
      → After (work_round run_green stask w) (InHand a (k + is_task a stask))
  unfolding work_round
  work_round-InHand {k} stask {w} h =
      After-bind _ (InHand a (k + is_task a stask)) (do_work run_green stask) _ w
        (do_work-InHand stask h)
        λ r w₁ p.
          let (rest, e, held) = Took-rest r.0 p in
          After-bind _ (InHand a (k + is_task a stask))
            (interpret_message_queue run_green r.0 give_it_your_best) _ w₁
            (rw (← e) (interpret-InHand r.0 give_it_your_best held)) λ r' w₂ p'. p'

  pub work_loop-InHand :
      {k : ℕ} (fuel : ℕ) (go : Bool) (stask : GreenTask) (did_work : Bool) {w : World}
      → Took a k vacant (some stask) w
      → After (work_loop run_green fuel go stask did_work w) (EndedInHand a k)
  unfolding work_loop
  work_loop-InHand zero false stask did_work h = h
  work_loop-InHand (suc fuel) false stask did_work h = h
  work_loop-InHand zero true stask did_work h = tt
  work_loop-InHand {k} (suc fuel) true stask did_work {w} h =
      let (rest, e, held) = Took-rest stask h in
      After-bind _ (InHand a k) (work_round run_green stask) _ w
        (rw (← e) (work_round-InHand stask held))
        λ r w' p. work_loop-InHand fuel (r.1 && not w'.mem.active_io) r.0 r.1 {w = w'} p
