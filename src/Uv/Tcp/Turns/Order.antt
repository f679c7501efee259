-- ===== src/Uv/Tcp/Turns/Order.antt =====
-- The order of the writes to a shared connection of librustuv/src/tcp.rs, and their requests.
use mathlib.Core.List.{append-nil, append_assoc}
use green_rs.Prelude.{
  ℕ, ◌+◌, ◌≤◌, ◌≡◌, refl, sym, ap, ◌∙◌, Bool, true, false, none, some, List, [], ◌∷◌, ◌++◌, length,
  Result, ok, then_ok, arith, update, ◌==◌,
}
use green_rs.Uv.Access
use green_rs.Uv.Access.{Waiter}
use green_rs.Uv.Access.Exclusive.{waiting, waiting-append}
use green_rs.Uv.Block.{wakeup}
use green_rs.Uv.Stream.{Writing, write_cb}
use green_rs.Uv.Tcp.Writing.{uv_write, write_with_access}
use green_rs.Uv.Tcp.Turns.{
  Shared, Event, starts, goes_on, reports, ends, step, run, call_of, asked, line,
}
use green_rs.Uv.Tcp.Turns.States.{
  View, is_free, is_handed, is_sending, is_told, state, access_of, Holds, lends, Fits, put-Holds,
  next, granted-none, granted-some, gone_on, ended,
}

abbrev Steps : List ℕ → Event → Result Shared → Type 0
Steps before e r =
    (v : View) × (streams : ℕ → Writing) × (returned : List ℕ) × (r ≡ ok (state v streams returned))
    × Fits v streams
    × (line (state v streams returned) ≡ before ++ call_of e)

stays :
    (v : View) (streams : ℕ → Writing) (returned : List ℕ)
    → line (state v streams returned) ≡ line (state v streams returned) ++ []
stays v streams returned = sym (append-nil (line (state v streams returned)))

-- A task that starts while another one has the access comes last.
queued :
    (returned : List ℕ) (first task : ℕ) (queue : List Waiter)
    → returned ++ (first ∷ waiting (queue ++ record { task = task; token = 0 } ∷ []))
      ≡ (returned ++ (first ∷ waiting queue)) ++ task ∷ []
queued returned first task queue =
    ap (λ l. returned ++ (first ∷ l)) (waiting-append queue (record { task = task; token = 0 }))
    ∙ sym (append_assoc returned (first ∷ waiting queue) (task ∷ []))

-- A task that starts while nobody has the access is the only one in the line.
alone : (returned : List ℕ) (task : ℕ) → returned ++ task ∷ [] ≡ (returned ++ []) ++ task ∷ []
alone returned task = sym (ap (λ l. l ++ task ∷ []) (append-nil returned))

-- A task that returns goes over to those that have.
passed :
    (q : List Waiter) (streams : ℕ → Writing) (returned : List ℕ) (t : ℕ)
    → line (state (next q) streams (returned ++ t ∷ [])) ≡ (returned ++ (t ∷ waiting q)) ++ []
passed [] streams returned t =
    append_assoc returned (t ∷ []) [] ∙ sym (append-nil (returned ++ (t ∷ [])))
passed (x ∷ q) streams returned t =
    append_assoc returned (t ∷ []) (x.task ∷ waiting q)
    ∙ sym (append-nil (returned ++ (t ∷ x.task ∷ waiting q)))

-- The stream of a task that only waits is as it was.
same-Fits :
    (v : View) (streams : ℕ → Writing) (t : ℕ)
    → Fits v streams
    → Fits v (update streams t (streams t))
same-Fits v streams t h = put-Holds (lends v) streams t (streams t) (h t) (λ x e. h x)

-- Each step leads to such a state, and only a start adds to the line.
step-Steps :
    (v : View) (streams : ℕ → Writing) (returned : List ℕ) (e : Event)
    → Fits v streams
    → Steps (line (state v streams returned)) e (step e (state v streams returned))
unfolding step uv_write write_with_access write_cb wakeup Access.grant Access.regrant
step-Steps is_free streams returned (starts task none) h =
    let (streams', req, e, fits) = granted-none task streams returned h (access_of false []) [] in
    (is_sending task req [], streams', returned, ap ok e, fits, alone returned task)
step-Steps is_free streams returned (starts task (some code)) h =
    let (streams', e, fits) = granted-some task streams returned h (access_of false []) [] code in
    (
      is_free,
      streams',
      returned ++ task ∷ [],
      ap ok e,
      fits,
      append-nil (returned ++ task ∷ []) ∙ alone returned task,
    )
step-Steps (is_handed t q) streams returned (starts task send) h = (
  is_handed t (q ++ record { task = task; token = 0 } ∷ []),
  update streams task (streams task),
  returned,
  refl,
  same-Fits (is_handed t q) streams task h,
  queued returned t task q,
)
step-Steps (is_sending t req q) streams returned (starts task send) h = (
  is_sending t req (q ++ record { task = task; token = 0 } ∷ []),
  update streams task (streams task),
  returned,
  refl,
  same-Fits (is_sending t req q) streams task h,
  queued returned t task q,
)
step-Steps (is_told t req status q) streams returned (starts task send) h = (
  is_told t req status (q ++ record { task = task; token = 0 } ∷ []),
  update streams task (streams task),
  returned,
  refl,
  same-Fits (is_told t req status q) streams task h,
  queued returned t task q,
)
step-Steps (is_handed t q) streams returned (goes_on none) h =
    let (streams', req, e, fits) = gone_on t q streams returned h in
    (is_sending t req q, streams', returned, e, fits, stays (is_handed t q) streams returned)
step-Steps (is_handed t q) streams returned (goes_on (some code)) h =
    let (streams', e, fits) = granted-some t streams returned h (access_of true q) q code in
    (next q, streams', returned ++ t ∷ [], ap ok e, fits, passed q streams' returned t)
step-Steps (is_sending t req q) streams returned (reports status) h = (
  is_told t req status q,
  streams,
  returned,
  refl,
  h,
  stays (is_sending t req q) streams returned,
)
step-Steps (is_told t req status q) streams returned ends h =
    let (streams', e, fits) = ended t req status q streams returned h in
    (next q, streams', returned ++ t ∷ [], e, fits, passed q streams' returned t)
step-Steps v streams returned e h = (v, streams, returned, refl, h, stays v streams returned)

-- What holds of a state that occurs.
abbrev pub IsInTurn : Shared → Type 0
IsInTurn s =
    (length s.inside ≤ 1)
    × (s.inside ≡ [] → s.access.queue ≡ [])
    × ((task : ℕ) → (s.streams task).made ≤ (s.streams task).freed + 1)

Holds-made : (b : Bool) (w : Writing) → Holds b w → w.made ≤ w.freed + 1
Holds-made true w (freed, e) = rw e (omega arith)
Holds-made false w (none, freed, e) = rw e (omega arith)
Holds-made false w (some req, freed, e) = rw e (omega arith)

state-IsInTurn :
    (v : View) (streams : ℕ → Writing) (returned : List ℕ)
    → Fits v streams
    → IsInTurn (state v streams returned)
state-IsInTurn is_free streams returned h =
    (omega arith, λ e. refl, λ x. Holds-made false (streams x) (h x))
state-IsInTurn (is_handed t q) streams returned h =
    (omega arith, λ e. cc, λ x. Holds-made false (streams x) (h x))
state-IsInTurn (is_sending t req q) streams returned h =
    (omega arith, λ e. cc, λ x. Holds-made (t == x) (streams x) (h x))
state-IsInTurn (is_told t req status q) streams returned h =
    (omega arith, λ e. cc, λ x. Holds-made (t == x) (streams x) (h x))

-- Any events lead to such a state.
pub run-state :
    (v : View) (streams : ℕ → Writing) (returned : List ℕ) (events : List Event)
    → Fits v streams
    → (v' : View) × (streams' : ℕ → Writing) × (returned' : List ℕ) × (run events
          (state v streams returned)
        ≡ ok (state v' streams' returned'))
      × Fits v' streams'
      × (line (state v' streams' returned') ≡ line (state v streams returned) ++ asked events)
unfolding run
run-state v streams returned [] h = (v, streams, returned, refl, h, stays v streams returned)
run-state v streams returned (e ∷ events) h =
    let (v', streams', returned', same, fits, added) = step-Steps v streams returned e h in
    let (v2, streams2, returned2, same2, fits2, content) =
      run-state v' streams' returned' events fits in
    (
      v2,
      streams2,
      returned2,
      ap (λ r. then_ok r (run events)) same ∙ same2,
      fits2,
      content
          ∙ ap (λ l. l ++ asked events) added
          ∙ append_assoc (line (state v streams returned)) (call_of e) (asked events),
    )

-- A new connection, and the clones that are made of it.
unfoldable pub no_writes : Shared
unfolding Access.new
no_writes = record {
  access = Access.new tt;
  streams = λ task. record { last_write_req = none; made = 0; freed = 0 };
  inside = [];
  returned = [];
}

pub no_requests : Fits is_free (λ task. record { last_write_req = none; made = 0; freed = 0 })
no_requests x = (none, 0, refl)

-- However tasks with clones of a new connection start writes, go on with the access, and are called back
-- by libuv, refused requests included: nothing panics; one task at most has the access, and nobody waits
-- if none has; of the stream of each clone there is at most one request that is not freed; and those
-- whose writes have returned, the one with the access and those that wait are the tasks in the order of
-- their calls.
pub run-IsInTurn :
    (events : List Event)
    → (s : Shared) × (run events no_writes ≡ ok s) × IsInTurn s × (line s ≡ asked events)
unfolding no_writes Access.new
run-IsInTurn events =
    let (v, streams, returned, same, fits, content) = run-state is_free _ [] events no_requests in
    (state v streams returned, same, state-IsInTurn v streams returned fits, content)
