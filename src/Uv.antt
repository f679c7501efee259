-- ===== src/Uv.antt =====
-- librustuv: the parts of the I/O library that keep state of their own.
pub mod Access
pub mod Timeout
pub mod QueuePool
pub mod Block
pub mod Address
pub mod Timer
pub mod Stream
pub mod Async
pub mod Homing
pub mod Udp
pub mod Tcp
pub mod Idle
pub mod Fs
pub mod AddrInfo
pub mod Tty
pub mod Errors
pub mod Signal
pub mod EventLoop
pub mod Handles
pub mod Pipe
