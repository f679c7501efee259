-- ===== src/Examples/Loops.antt =====
-- Event loops, timers and the ends of pools on small inputs.
use mathlib.Core.List.{reverse}
use green_rs.Prelude.{
  ◌&&◌, ◌+◌, ℕ, ◌≡◌, refl, true, false, none, some, List, [], ◌∷◌, ◌++◌, ok, arith,
}
use green_rs.MessageQueue.{Queue}
use green_rs.TaskState.{increment, decrement}
use green_rs.TaskState.Shutdown
use green_rs.TaskState.Shutdown.{Reach, Waits, finished, shutdown-IsFinished}
use green_rs.Basic.{BasicLoop}
use green_rs.Basic.Remotes.{registered}
use green_rs.Basic.Owners
use green_rs.Basic.Owners.{run-registered}
use green_rs.Simple.Wakes
use green_rs.Simple.Wakes.{run-finish}
use green_rs.Sched.World.{World}
use green_rs.Sched.Bootstrap.{loop, after_run, with_idle, is_done}
use green_rs.Uv.Address.{Libc, SocketAddr, Storage, ipv4_addr, addr_to_sockaddr, sockaddr_to_addr}
use green_rs.Uv.Address.RoundTrip.{addr_to_sockaddr-sockaddr_to_addr}
use green_rs.Uv.Async.Closes
use green_rs.Uv.Async.Closes.{run_closes}
use green_rs.Uv.Block.{has_active_io}
use green_rs.Uv.Block.Overlap.{start_all, end_all, block_overlap}
use green_rs.Uv.Homing
use green_rs.Uv.Homing.{arrive, check}
use green_rs.Uv.Homing.Arrives.{go_home-async_cb}
use green_rs.Uv.QueuePool.{QueuePool, reawakens, async_cb}
use green_rs.Uv.Timer
use green_rs.Uv.Timer.Requests.{plan_of, shoots, repeats, calls}
use green_rs.Uv.Timer.Actions
use green_rs.Uv.Timer.Actions.{fires, asks, run_plan}
use green_rs.Examples.{world_with}

abbrev ticks : List Actions.Event
ticks = asks (repeats 10 3) ∷ fires [] ∷ fires (shoots 5 4 ∷ []) ∷ []

run_plan_example : plan_of (Actions.run Timer.new ticks).action ≡ calls 4
run_plan_example = run_plan ticks (omega arith, (omega arith, tt))

abbrev turns : List Closes.Turn
turns = Closes.fires ∷ Closes.loops ∷ Closes.fires ∷ Closes.drops ∷ []

run_closes_example :
    (((Closes.run turns Closes.fresh).async.closed && (Closes.run turns Closes.fresh).owed) ≡ false)
    × ((Closes.run Closes.five (Closes.run turns Closes.fresh)).async.closed ≡ true)
    × ((Closes.run Closes.five (Closes.run turns Closes.fresh)).owed ≡ false)
unfolding Closes.run Closes.turn green_rs.Uv.Async.new green_rs.Uv.Async.fire
    green_rs.Uv.Async.begin_cb green_rs.Uv.Async.drop_async
run_closes_example = run_closes turns refl

abbrev interleaved : List Wakes.Turn
interleaved = Wakes.mine ∷ Wakes.mine ∷ Wakes.mine ∷ Wakes.others ∷ Wakes.others ∷ []

run-finish_example : (Wakes.finish (Wakes.run interleaved Wakes.begun)).own ≡ Wakes.returned
unfolding Wakes.run Wakes.turn Wakes.other_step Wakes.own_step Wakes.begun
    green_rs.Simple.begin_deschedule green_rs.Simple.begin_reawaken green_rs.Simple.test_awoken
run-finish_example = run-finish interleaved refl

-- One task has started and ended.
abbrev ended : Shutdown.Waiting
ended = record Shutdown.begun { tasks = decrement (increment Shutdown.begun.tasks) }

shutdown-IsFinished_example : (t : Shutdown.Waiting) × Waits t ended × (t.phase ≡ finished)
unfolding green_rs.TaskState.new increment decrement
shutdown-IsFinished_example =
    shutdown-IsFinished ended
      (Shutdown.by_task (Shutdown.by_task Shutdown.here (Shutdown.starts (omega arith)))
        (Shutdown.ends (omega arith)))
      refl

-- Two remotes: one is fired and dropped, the other stays.
abbrev commands : List Owners.Command
commands =
    Owners.registers 5
    ∷ Owners.registers 6
    ∷ Owners.fires 0
    ∷ Owners.works
    ∷ Owners.fires 1
    ∷ Owners.drops 0
    ∷ []

abbrev adds_work : ℕ → BasicLoop → BasicLoop
adds_work f l = record l { work = l.work ++ f ∷ [] }

run-registered_example :
    (o : Owners.Owners) × (Owners.run adds_work (commands ++ Owners.works ∷ []) Owners.nobody
      ≡ ok o)
    × (o.loop.messages ≡ [])
    × ((id : ℕ) → registered id o.loop.remotes ≡ o.handles id)
run-registered_example = run-registered adds_work (λ f l. (refl, refl)) commands

abbrev linux : Libc
linux = record {
  big_endian = false;
  af_inet = 2;
  af_inet6 = 10;
  sockaddr_in_size = 16;
  sockaddr_in6_size = 28;
}

abbrev localhost : SocketAddr
localhost = record { ip = ipv4_addr 127 0 0 1; port = 8080 }

abbrev zeroed : Storage
zeroed = record {
  ss_family = 0;
  port = 0;
  s_addr = 0;
  s6_addr = record { a = 0; b = 0; c = 0; d = 0; e = 0; f = 0; g = 0; h = 0 };
}

addr_to_sockaddr-sockaddr_to_addr_example :
    sockaddr_to_addr linux
      (addr_to_sockaddr linux localhost zeroed).0
      (addr_to_sockaddr linux localhost zeroed).1
    ≡ ok localhost
addr_to_sockaddr-sockaddr_to_addr_example =
    addr_to_sockaddr-sockaddr_to_addr linux localhost zeroed (omega arith)
      (omega arith, omega arith, omega arith, omega arith) (omega arith)

-- A task waits to be reawakened on the loop already.
abbrev pool_of_loop : QueuePool
pool_of_loop = record {
  refcnt = 1;
  referenced = true;
  queue = record { items = reawakens 4 ∷ []; unlinked = [] };
  sent = 1;
}

go_home-async_cb_example :
    (pool : QueuePool) × (Homing.go_home 64 5 (some (32, true)) pool_of_loop ≡ ok (false, pool))
    × (pool.sent ≡ pool_of_loop.sent + 1)
    × ((async_cb pool).1 ≡ (async_cb pool_of_loop).1 ++ 5 ∷ [])
go_home-async_cb_example = go_home-async_cb 64 32 5 true pool_of_loop (omega arith) refl

abbrev still_loop : World → World
still_loop w = w

-- The world in which its loop has run for the last time.
abbrev last : World
last =
    after_run still_loop 1
      (with_idle none (after_run still_loop 1 (with_idle (some true) (world_with 0 none))))

block_overlap_example :
    (end_all (reverse (start_all 3 0).0) 7 ≡ 0)
    × (end_all (start_all 3 0).0 7 ≡ 2)
    × (has_active_io (end_all (start_all 3 0).0 7) ≡ true)
block_overlap_example = block_overlap 1 0 7 (omega arith)
