-- ===== src/Sched/Held/Routes.antt =====
-- Routing a task in libgreen/src/sched.rs loses none: it runs here, or it is queued elsewhere.
use green_rs.Prelude.{ℕ, ◌+◌, ◌==◌, ◌≡◌, not, Option, none, some, arith, ok}
use green_rs.Task.{GreenTask, SchedHandle, Home, any_sched, home_sched, give_home, take_unwrap_home}
use green_rs.Task.Laws.{give_home-take_unwrap_home, take_home-address}
use green_rs.Sched.World.{World, M, Local, pinned_task, task_from_friend, lift, ◌>>=◌}
use green_rs.Sched.Logic.{After, After-bind, After-if, After-lift}
use green_rs.Sched.Routing.{go_home, befriend, route, send_task_home, send_to_friend, process_task}
use green_rs.Sched.Held.{is_task, Holds}
use green_rs.Sched.Held.Sends.{send-Holds}

module _ {a k : ℕ} {l : Local} where
  send_task_home-Holds :
      (t : GreenTask) {w : World}
      → Holds a k l w
      → After (send_task_home t w) (λ _. Holds a (k + is_task a t) l)
  unfolding send_task_home
  send_task_home-Holds t {w} h =
      After-lift _ (take_unwrap_home t) _ w λ taken e. by_home taken.0 taken.1 e
    where
      by_home :
          (home : Home) (t' : GreenTask)
          → take_unwrap_home t ≡ ok (home, t')
          → After (go_home home t' w) (λ _. Holds a (k + is_task a t) l)
      by_home any_sched t' e = tt
      by_home (home_sched handle) t' e =
          rw (← take_home-address t e) (send-Holds handle (pinned_task t') h)

  send_to_friend-Holds :
      (t : GreenTask) {w : World}
      → Holds a k l w
      → After (send_to_friend t w) (λ _. Holds a (k + is_task a t) l)
  unfolding send_to_friend
  send_to_friend-Holds t {w} h = by_friend w.sched.friend_handle
    where
      by_friend :
          (friend : Option SchedHandle)
          → After (befriend friend t w) (λ _. Holds a (k + is_task a t) l)
      by_friend none = tt
      by_friend (some handle) = send-Holds handle (task_from_friend t) h

  -- Routing hands the task to `schedule_fn` or queues it for another scheduler.
  pub process_task-After {ℓ κ} :
      {A : Type ℓ} (Q : A → World → Type κ) (stay : GreenTask → A)
      (schedule_fn : GreenTask → GreenTask → M A) (cur next : GreenTask) {w : World}
      → Holds a k l w
      → (After (schedule_fn cur next w) Q)
      → ((w' : World) → Holds a (k + is_task a next) l w' → Q (stay cur) w')
      → After (process_task stay schedule_fn cur next w) Q
  unfolding process_task
  process_task-After {A = A} Q stay schedule_fn cur next {w} h runs stays =
      After-lift Q (take_unwrap_home next) _ w λ taken e. by_home taken.0 taken.1 e
    where
      given_back :
          (home : Home) (next' : GreenTask) (k : GreenTask → M A)
          → take_unwrap_home next ≡ ok (home, next')
          → After (k next w) Q
          → After ((lift (give_home home next') >>= k) w) Q
      given_back home next' k e after = After-lift Q (give_home home next') k w λ t g.
          let same : t ≡ next = ground (arith, (give_home-take_unwrap_home next home next' e).0) in
          rw same after

      by_home :
          (home : Home) (next' : GreenTask)
          → take_unwrap_home next ≡ ok (home, next')
          → After (route stay schedule_fn cur home next' w) Q
      by_home (home_sched handle) next' e =
          After-if Q (not (handle.sched_id == w.sched.sched_id)) _ _ w
            (λ _. given_back (home_sched handle) next' _ e (
              After-bind Q (λ _. Holds a (k + is_task a next) l) (send_task_home next) _ w
                (send_task_home-Holds next h) λ _ w' h'. stays w' h'))
            (λ _. given_back (home_sched handle) next' _ e runs)
      by_home any_sched next' e =
          After-if Q w.sched.run_anything _ _ w (λ _. given_back any_sched next' _ e runs)
            (λ _. given_back any_sched next' _ e (
              After-bind Q (λ _. Holds a (k + is_task a next) l) (send_to_friend next) _ w
                (send_to_friend-Holds next h) λ _ w' h'. stays w' h'))
