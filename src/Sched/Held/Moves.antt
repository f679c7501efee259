-- ===== src/Sched/Held/Moves.antt =====
-- Finding work in libgreen/src/sched.rs takes the task out of its queue, and loses none.
use green_rs.Prelude.{
  ℕ, zero, suc, ◌+◌, ◌%◌, ◌≡◌, refl, ap, false, List, [], ◌∷◌, Option, none, some, index, arith,
  sum_of-append, Sum-update, Sum-member, update, ◌-◌, split_last, split_last_lem, get_elem?, length,
  not,
}
use green_rs.Task.{GreenTask}
use green_rs.Sched.World.{World, Local, M, or_else, return}
use green_rs.Sched.Logic.{After, After-bind, After-if, After-expect}
use green_rs.Sched.Work.{
  newest, oldest, pop_work, steal, steal_rounds, gen_range, try_steals, find_local, find_work,
}
use green_rs.Sched.Held.{is_task, in_deque, in_slot, Holds, Took}

in_deque-newest :
    (a : ℕ) (ts : List GreenTask)
    → in_deque a (newest ts).1 + in_slot a (newest ts).0 ≡ in_deque a ts
in_deque-newest a [] = refl
in_deque-newest a (t ∷ ts) = omega arith

in_deque-oldest :
    (a : ℕ) (ts : List GreenTask)
    → in_deque a (oldest ts).1 + in_slot a (oldest ts).0 ≡ in_deque a ts
unfolding oldest
in_deque-oldest a [] = refl
in_deque-oldest a (t ∷ ts) = omega (
  arith,
  ap (in_deque a) (split_last_lem t ts),
  sum_of-append (is_task a) (split_last t ts).0 ((split_last t ts).1 ∷ []),
)

module _ {a k : ℕ} {l : Local} where
  -- Splitting a deque into a task and the rest moves the task from the deque into the hand.
  taken-Took :
      (queue : ℕ) (split : Option GreenTask × List GreenTask) {w : World}
      → in_deque a split.1 + in_slot a split.0 ≡ in_deque a (w.mem.deques queue)
      → Holds a k l w
      → Took a k l split.0
          (record w { mem = record w.mem { deques = update w.mem.deques queue split.1 } })
  taken-Took queue split {w} e h = record {
    in_deques = h.in_deques - in_slot a split.0;
    in_inboxes = h.in_inboxes;
    deques =
        Sum-update (in_deque a) queue split.1 _ h.deques
          (omega (arith, Sum-member (in_deque a) queue h.deques));
    inboxes = h.inboxes;
    count = omega (arith, Sum-member (in_deque a) queue h.deques, h.count);
    clean = h.clean;
    in_tls = h.in_tls;
  }

  pub pop_work-Took : {w : World} → Holds a k l w → After (pop_work w) (Took a k l)
  unfolding pop_work
  pop_work-Took {w} h =
      let own = w.mem.deques w.sched.work_queue in
      taken-Took w.sched.work_queue (newest own) (in_deque-newest a own) h

  pub steal-Took : (queue : ℕ) {w : World} → Holds a k l w → After (steal queue w) (Took a k l)
  unfolding steal
  steal-Took queue {w} h =
      let theirs = w.mem.deques queue in
      After-if _ (w.mem.contended queue) (return none) _ w (λ _. ground (arith, h))
        λ _. taken-Took queue (oldest theirs) (in_deque-oldest a theirs) h

  Took-Holds : {w : World} → Took a k l none w → Holds a k l w
  Took-Holds h = ground (arith, h)

  or_else-Took :
      (found : Option GreenTask) (next : M (Option GreenTask)) {w : World}
      → Took a k l found w
      → ((w' : World) → Holds a k l w' → After (next w') (Took a k l))
      → After (or_else found next w) (Took a k l)
  or_else-Took none next {w} h rest = rest w (Took-Holds h)
  or_else-Took (some task) next h rest = h

  pub steal_rounds-Took :
      (rounds i : ℕ) (queues : List ℕ) {w : World}
      → Holds a k l w
      → After (steal_rounds rounds i queues w) (Took a k l)
  unfolding steal_rounds
  steal_rounds-Took zero i queues h = ground (arith, h)
  steal_rounds-Took (suc rounds) i queues {w} h =
      After-expect _ index (get_elem? queues (i % length queues)) _ w λ queue e.
        After-bind _ (Took a k l) (steal queue) _ w (steal-Took queue h) λ stolen w' h'.
          or_else-Took stolen (steal_rounds rounds (i + 1) queues) h'
            λ w'' h''. steal_rounds-Took rounds (i + 1) queues {w = w''} h''

  gen_range-Holds :
      (len : ℕ) {w : World} → Holds a k l w → After (gen_range len w) (λ _. Holds a k l)
  unfolding gen_range
  gen_range-Holds zero h = tt
  gen_range-Holds (suc len) h = ground (arith, h)

  pub try_steals-Took : {w : World} → Holds a k l w → After (try_steals w) (Took a k l)
  unfolding try_steals
  try_steals-Took {w} h =
      After-bind _ (λ _. Holds a k l) (gen_range (length w.sched.work_queues)) _ w
        (gen_range-Holds (length w.sched.work_queues) h)
        λ start w' h'.
          steal_rounds-Took (length w.sched.work_queues) start w.sched.work_queues {w = w'} h'

  pub find_local-Took : {w : World} → Holds a k l w → After (find_local w) (Took a k l)
  unfolding find_local
  find_local-Took {w} h =
      After-bind (Took a k l) (Took a k l) pop_work (λ task. or_else task try_steals) w
        (pop_work-Took h)
        λ task w' h'. or_else-Took task try_steals h' (λ w'' h''. try_steals-Took h'')

  -- A task that is found leaves the place where it was held, and no other task is gained or lost.
  pub find_work-Took : {w : World} → Holds a k l w → After (find_work w) (Took a k l)
  unfolding find_work
  find_work-Took {w} h =
      After-if _ (not w.sched.steal_for_yield) find_local _ w (λ _. find_local-Took h)
        λ _.
          After-bind (Took a k l) (Took a k l) try_steals (λ task. or_else task find_local)
            (cleared w) (try_steals-Took {w = cleared w} (ground (arith, h)))
            λ task w' h'. or_else-Took task find_local h' (λ w'' h''. find_local-Took h'')
    where
      cleared : World → World
      cleared w = record w { sched = record w.sched { steal_for_yield = false } }
