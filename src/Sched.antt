-- ===== src/Sched.antt =====
-- libgreen/src/sched.rs, and the parts of libgreen/src/task.rs that act on a scheduler.
pub mod World
pub mod Logic
pub mod Work
pub mod Routing
pub mod Switch
pub mod Loop
pub mod Green
pub mod Bootstrap
pub mod Held
pub mod Steals
pub mod Sleep
pub mod Ends
pub mod Idle
