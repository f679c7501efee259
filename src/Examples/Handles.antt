-- ===== src/Examples/Handles.antt =====
-- Handles of libuv that are opened, refused and closed.
use green_rs.Prelude.{ℕ, ◌≡◌, refl, none, some, ok, update, negsuc, arith}
use green_rs.Uv.Handles.{absent, live, closing, Handles, no_handles}
use green_rs.Uv.Handles.Owned.{
  Fits, Command, opens, binds, clones, Allowed, step, Reach, start, then_step, Reach-Owned,
}

-- A connection with two owners, and a listener that could not be bound.
abbrev two_handles : Handles
two_handles = record {
  life = update (update (update (λ _. absent) 0 live) 1 live) 1 closing;
  owners = update (update (update (update (λ _. 0) 0 1) 0 2) 1 1) 1 0;
  next = 2;
}

reached : Reach two_handles
unfolding step no_handles
reached =
    then_step (binds none (some (negsuc 97)))
      (then_step (clones 0) (then_step (opens none none) start tt refl) (omega arith) refl) tt refl

Reach-Owned_example :
    ((h : ℕ) → Fits (two_handles.life h) (two_handles.owners h))
    × ((c : Command) → Allowed c two_handles → (hs' : Handles) × (step c two_handles ≡ ok hs'))
Reach-Owned_example = Reach-Owned reached
