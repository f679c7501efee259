-- ===== src/Uv/Stream.antt =====
-- librustuv/src/stream.rs: reads and writes on a stream of libuv. Tasks, buffers and requests go by
-- ids. All code here runs on the thread of the stream's event loop.
pub mod Reads
pub mod Writes
use green_rs.Prelude.{
  ℕ, ◌+◌, Bool, true, false, not, Option, none, some, Result, ok, fault, assertion, abort, panic,
  if◌then◌else◌, then_ok, ℤ, pos, negsuc, is_negative, ◌==ℤ◌, magnitude,
}
use green_rs.Uv.Block.{wakeup}

-- What a request of the I/O library answers: `Ok`, or `Err` of a code of libuv.
pub data UvResult {ℓ} (A : Type ℓ) : Type ℓ where
  uv_ok : A → UvResult A
  uv_err : ℤ → UvResult A

pub record ReadContext : Type 0 where
  pub buf : Option ℕ
  pub result : ℤ
  pub task : Option ℕ

-- The read of a stream: the context in the frame of `read`, while that runs, whether the handle's
-- data point to it or are null, and whether libuv reads, from `read_start` to `read_stop`.
pub record Reading : Type 0 where
  pub context : Option ReadContext
  pub attached : Bool
  pub started : Bool

-- `read` until its task blocks; `start` is the error of `read_start`, if it has one.
unfoldable pub read_begin : (buf task : ℕ) → (start : Option ℤ) → Reading × Option (UvResult ℕ)
read_begin buf task none = (
  record {
    context = some (record { buf = some buf; result = pos 0; task = some task });
    attached = true;
    started = true;
  },
  none,
)
read_begin buf task (some e) =
    (record { context = none; attached = false; started = false }, some (uv_err e))

-- What `read` makes of the result.
abbrev pub answer : ℤ → UvResult ℕ
answer n = if is_negative n then uv_err n else uv_ok (magnitude n)

-- `read` after its task has been reawakened.
unfoldable pub read_end : Reading → Result (Reading × UvResult ℕ)
read_end r = elim r.context [
  | none ↦ fault abort
  | some c ↦ ok (record r { context = none; attached = false }, answer c.result)
]

-- The context through the handle's data: a null pointer has none.
abbrev pub data_of : Reading → Option ReadContext
data_of r = if r.attached then r.context else none

-- The task that is to be reawakened comes with the reading.
unfoldable pub cancel_read : ℤ → Reading → Reading × Option ℕ
cancel_read reason r = elim (data_of r) [
  | none ↦ (record r { started = false }, none)
  | some c ↦ (
    record {
      context = some (record c { result = reason; task = none });
      attached = false;
      started = false;
    },
    c.task,
  )
]

-- libuv asks for a buffer. To read a context through a null pointer is to crash.
unfoldable pub alloc_cb : Reading → Result (Reading × ℕ)
alloc_cb r = elim (data_of r) [
  | none ↦ fault abort
  | some c ↦ elim c.buf [
    | none ↦ fault panic
    | some b ↦ ok (record r { context = some (record c { buf = none }) }, b)
  ]
]

-- `canceled` is libuv's ECANCELED.
unfoldable pub read_cb : (canceled nread : ℤ) → Reading → Result (Reading × ℕ)
unfolding wakeup
read_cb canceled nread r = if nread ==ℤ canceled then fault assertion else elim (data_of r) [
  | none ↦ fault abort
  | some c ↦ elim (wakeup c.task) [
    | fault e ↦ fault e
    | ok (task, slot) ↦ ok (
      record r { started = false; context = some (record c { result = nread; task = slot }) },
      task,
    )
  ]
]

-- Requests to write, by ids: the cached one, and how many have been made and freed.
pub record Writing : Type 0 where
  pub last_write_req : Option ℕ
  pub made : ℕ
  pub freed : ℕ

-- The request of a `write`, cached or new.
abbrev take_req : Option ℕ → Writing → ℕ × Writing
take_req (some req) w = (req, record w { last_write_req = none })
take_req none w = (w.made, record w { made = w.made + 1 })

-- The drop of a `Write`, which frees the request.
unfoldable pub drop_write : Writing → Writing
drop_write w = record w { freed = w.freed + 1 }

pub record WriteContext : Type 0 where
  pub result : ℤ
  pub task : Option ℕ

-- `write` until its task blocks, with the request; `send` is the error of the request, if it is
-- refused, which drops it.
unfoldable pub write_begin :
    (task : ℕ) → (send : Option ℤ) → Writing → Writing × UvResult (ℕ × WriteContext)
unfolding drop_write
write_begin task send w =
    let (req, w') = take_req w.last_write_req w in
    elim send [
      | some e ↦ (drop_write w', uv_err e)
      | none ↦ (w', uv_ok (req, record { result = pos 0; task = some task }))
    ]

unfoldable pub write_cb : ℤ → WriteContext → Result (WriteContext × ℕ)
unfolding wakeup
write_cb status c = elim (wakeup c.task) [
  | fault e ↦ fault e
  | ok (task, slot) ↦ ok (record { result = status; task = slot }, task)
]

-- `write` after its task has been reawakened.
unfoldable pub write_end : ℕ → WriteContext → Writing → Writing × UvResult (Unit {0})
write_end req c w = (
  record w { last_write_req = some req },
  if c.result ==ℤ pos 0 then uv_ok tt else uv_err c.result,
)

-- The drop of the stream.
unfoldable pub drop_stream : Writing → Writing
unfolding drop_write
drop_stream w = elim w.last_write_req [
  | none ↦ w
  | some req ↦ drop_write (record w { last_write_req = none })
]
