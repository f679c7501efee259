-- ===== src/Task/Laws.antt =====
-- What the methods of `GreenTask` in libgreen/src/task.rs leave alone, and how they undo another.
use green_rs.Prelude.{◌≡◌, some, ok, arith}
use green_rs.Task.{GreenTask, StdTask, Home, type_green, give_home, take_unwrap_home, swap, convert}

pub convert-address :
    (t : StdTask × GreenTask) {task : GreenTask} → convert t ≡ ok task → task.address ≡ t.1.address
unfolding convert
convert-address (std, t) e = ground arith

pub swap-address :
    (t : GreenTask) {b : StdTask × GreenTask} → swap t ≡ ok b → b.1.address ≡ t.address
unfolding swap
swap-address t e = ground arith

pub take_home-address :
    (t : GreenTask) {home : Home} {t' : GreenTask}
    → take_unwrap_home t ≡ ok (home, t')
    → t'.address ≡ t.address
unfolding take_unwrap_home
take_home-address t e = ground arith

pub give_home-address :
    (home : Home) (t : GreenTask) {t' : GreenTask}
    → give_home home t ≡ ok t'
    → t'.address ≡ t.address
unfolding give_home
give_home-address home t e = ground arith

-- Giving a task the home that was taken from it restores the task, and this cannot fail.
pub give_home-take_unwrap_home :
    (t : GreenTask) (home : Home) (t' : GreenTask)
    → take_unwrap_home t ≡ ok (home, t')
    → (give_home home t' ≡ ok t) × (t.task_type ≡ type_green (some home))
unfolding give_home take_unwrap_home
give_home-take_unwrap_home t home t' e = ground arith

-- A task that leaves the local slot comes back as it was, with its libstd task.
pub convert-swap : (t : GreenTask) (b : StdTask × GreenTask) → swap t ≡ ok b → convert b ≡ ok t
unfolding swap convert
convert-swap t b e = ground arith
