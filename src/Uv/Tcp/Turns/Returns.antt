-- ===== src/Uv/Tcp/Turns/Returns.antt =====
-- That the writes to a shared connection of librustuv/src/tcp.rs return.
use mathlib.Core.List.{append-nil, append_assoc}
use green_rs.Prelude.{
  ℕ, suc, ◌+◌, ◌-◌, ◌≤◌, ◌≡◌, refl, sym, ap, ◌∙◌, none, List, [], ◌∷◌, ◌++◌, length, length-append,
  Result, ok, fault, then_ok, ℤ, arith,
}
use green_rs.Uv.Access
use green_rs.Uv.Access.{Waiter}
use green_rs.Uv.Access.Exclusive.{waiting}
use green_rs.Uv.Block.{wakeup}
use green_rs.Uv.Stream.{Writing, write_cb}
use green_rs.Uv.Tcp.Turns.{Shared, Event, goes_on, reports, ends, step, run, call_of, asked, line}
use green_rs.Uv.Tcp.Turns.States.{
  View, is_free, is_handed, is_sending, is_told, state, Fits, next, gone_on, ended,
}
use green_rs.Uv.Tcp.Turns.Order.{run-IsInTurn, run-state, no_writes, no_requests}

-- The task with the access goes on, libuv reports a status to its request, and its write ends, as far
-- as there is something to do.
abbrev round : ℤ → List Event
round status = goes_on none ∷ reports status ∷ ends ∷ []

abbrev pub rounds : List ℤ → List Event
rounds [] = []
rounds (status ∷ statuses) = round status ++ rounds statuses

run-append : (xs ys : List Event) (s : Shared) → run (xs ++ ys) s ≡ then_ok (run xs s) (run ys)
unfolding run
run-append [] ys s = refl
run-append (e ∷ xs) ys s = by_step (λ s'. run-append xs ys s') (step e s)
  where
    by_step :
        ((s' : Shared) → run (xs ++ ys) s' ≡ then_ok (run xs s') (run ys))
        → (r : Result Shared) → then_ok r (run (xs ++ ys)) ≡ then_ok (then_ok r (run xs)) (run ys)
    by_step later (ok s') = later s'
    by_step later (fault f) = refl

asked-append : (xs ys : List Event) → asked (xs ++ ys) ≡ asked xs ++ asked ys
asked-append [] ys = refl
asked-append (e ∷ xs) ys =
    ap (λ l. call_of e ++ l) (asked-append xs ys)
    ∙ sym (append_assoc (call_of e) (asked xs) (asked ys))

asked-rounds : (statuses : List ℤ) → asked (rounds statuses) ≡ []
asked-rounds [] = refl
asked-rounds (status ∷ statuses) = asked-rounds statuses

-- How many have the access or wait for it.
abbrev busy : View → ℕ
busy is_free = 0
busy (is_handed t q) = 1 + length q
busy (is_sending t req q) = 1 + length q
busy (is_told t req status q) = 1 + length q

busy-next : (q : List Waiter) → busy (next q) ≡ length q
busy-next [] = refl
busy-next (x ∷ q) = omega arith

abbrev Rounds : List Event → View → (ℕ → Writing) → List ℕ → Type 0
Rounds events v streams returned =
    (v' : View) × (streams' : ℕ → Writing) × (returned' : List ℕ) × (run events
        (state v streams returned)
      ≡ ok (state v' streams' returned'))
    × Fits v' streams'
    × (busy v' ≤ busy v - 1)

end_round :
    (t req : ℕ) (status : ℤ) (q : List Waiter) (streams : ℕ → Writing) (returned : List ℕ)
    → Fits (is_told t req status q) streams
    → Rounds (ends ∷ []) (is_told t req status q) streams returned
unfolding run
end_round t req status q streams returned h =
    let (streams', same, fits) = ended t req status q streams returned h in
    (
      next q,
      streams',
      returned ++ t ∷ [],
      ap (λ r. then_ok r (run [])) same,
      fits,
      omega (arith, busy-next q),
    )

report_round :
    (status : ℤ) (t req : ℕ) (q : List Waiter) (streams : ℕ → Writing) (returned : List ℕ)
    → Fits (is_sending t req q) streams
    → Rounds (reports status ∷ ends ∷ []) (is_sending t req q) streams returned
unfolding run step write_cb wakeup
report_round status t req q streams returned h = end_round t req status q streams returned h

one_round :
    (status : ℤ) (v : View) (streams : ℕ → Writing) (returned : List ℕ)
    → Fits v streams
    → Rounds (round status) v streams returned
unfolding run step
one_round status is_free streams returned h = (is_free, streams, returned, refl, h, omega arith)
one_round status (is_handed t q) streams returned h =
    let (streams1, req, same1, fits1) = gone_on t q streams returned h in
    let (v', streams', returned', same, fits, fewer) =
      report_round status t req q streams1 returned fits1 in
    (
      v',
      streams',
      returned',
      ap (λ r. then_ok r (run (reports status ∷ ends ∷ []))) same1 ∙ same,
      fits,
      fewer,
    )
one_round status (is_sending t req q) streams returned h =
    report_round status t req q streams returned h
one_round status (is_told t req other q) streams returned h =
    end_round t req other q streams returned h

-- With as many rounds as there are tasks, nobody is left.
rounds-free :
    (statuses : List ℤ) (v : View) (streams : ℕ → Writing) (returned : List ℕ)
    → Fits v streams
    → busy v ≤ length statuses
    → (streams' : ℕ → Writing) × (returned' : List ℕ) × (run
          (rounds statuses)
          (state v streams returned)
        ≡ ok (state is_free streams' returned'))
unfolding run
rounds-free [] is_free streams returned fits h = (streams, returned, refl)
rounds-free [] (is_handed t q) streams returned fits h = absurd (omega (arith, h))
rounds-free [] (is_sending t req q) streams returned fits h = absurd (omega (arith, h))
rounds-free [] (is_told t req s q) streams returned fits h = absurd (omega (arith, h))
rounds-free (status ∷ statuses) v streams returned fits h =
    let (v', streams', returned', same, fits', fewer) = one_round status v streams returned fits in
    let (streams2, returned2, rest) =
      rounds-free statuses v' streams' returned' fits' (omega (arith, fewer, h)) in
    (
      streams2,
      returned2,
      run-append (round status) (rounds statuses) (state v streams returned)
          ∙ ap (λ r. then_ok r (run (rounds statuses))) same
          ∙ rest,
    )

length-waiting : (q : List Waiter) → length (waiting q) ≡ length q
length-waiting [] = refl
length-waiting (x ∷ q) = ap suc (length-waiting q)

busy-line :
    (v : View) (streams : ℕ → Writing) (returned : List ℕ)
    → busy v ≤ length (line (state v streams returned))
busy-line is_free streams returned = omega arith
busy-line (is_handed t q) streams returned =
    omega (arith, length-append returned (t ∷ waiting q), length-waiting q)
busy-line (is_sending t req q) streams returned =
    omega (arith, length-append returned (t ∷ waiting q), length-waiting q)
busy-line (is_told t req s q) streams returned =
    omega (arith, length-append returned (t ∷ waiting q), length-waiting q)

-- Whatever has happened on the clones of a new connection: once the task with the access, or the one that takes it
-- over, has gone on, been called back, with any status, and ended its write as many times as there were
-- calls, nobody has the access or waits, and the writes have returned in the order of their calls.
pub run-returned :
    (events : List Event) (statuses : List ℤ)
    → length (asked events) ≤ length statuses
    → (s : Shared) × (run (events ++ rounds statuses) no_writes ≡ ok s)
      × (s.inside ≡ [])
      × (s.access.queue ≡ [])
      × (s.returned ≡ asked events)
unfolding no_writes Access.new
run-returned events statuses enough =
    let (v, streams, returned, same, fits, content) = run-state is_free _ [] events no_requests in
    let size : busy v ≤ length statuses =
      omega (arith, busy-line v streams returned, ap length content, enough) in
    let (streams', returned', rest) = rounds-free statuses v streams returned fits size in
    let whole : run (events ++ rounds statuses) no_writes ≡ ok (state is_free streams' returned') =
      run-append events (rounds statuses) no_writes
      ∙ ap (λ r. then_ok r (run (rounds statuses))) same
      ∙ rest in
    let (s, same', h, order) = run-IsInTurn (events ++ rounds statuses) in
    let equal : s ≡ state is_free streams' returned' = cc in
    (
      state is_free streams' returned',
      whole,
      refl,
      refl,
      sym (append-nil returned')
          ∙ ap line (sym equal)
          ∙ order
          ∙ asked-append events (rounds statuses)
          ∙ ap (λ l. asked events ++ l) (asked-rounds statuses)
          ∙ append-nil (asked events),
    )
