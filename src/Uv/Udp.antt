-- ===== src/Uv/Udp.antt =====
-- `recv_from` and `send_to` of librustuv/src/udp.rs with their callbacks, after access has been granted.
-- Tasks and buffers go by ids; addresses are of any type.
pub mod Receives
pub mod Sockets
use green_rs.Prelude.{
  ℕ, Bool, true, false, Option, none, some, Result, ok, fault, assertion, abort, panic, unwrap,
  if◌then◌else◌, ℤ, pos, is_negative, ◌==ℤ◌, magnitude,
}
use green_rs.Uv.Block.{wakeup}
use green_rs.Uv.Stream.{UvResult, uv_ok, uv_err}

pub record UdpRecvCtx {ℓ} (A : Type ℓ) : Type ℓ where
  pub task : Option ℕ
  pub buf : Option ℕ
  pub result : Option (ℤ × Option A)

-- The context in the frame of `recv_from`, while that runs, whether the handle's data point to it, and
-- whether libuv receives, from `recv_start` to `recv_stop`.
pub record Receiving {ℓ} (A : Type ℓ) : Type ℓ where
  pub context : Option (UdpRecvCtx A)
  pub attached : Bool
  pub started : Bool

pub record UdpSendCtx : Type 0 where
  pub result : ℤ
  pub task : Option ℕ

module _ {ℓ} {A : Type ℓ} where
  abbrev pub silent : Receiving A
  silent = record { context = none; attached = false; started = false }

  -- `recv_from` until its task blocks; `start` is the error of `recv_start`, if it has one.
  unfoldable pub recv_begin :
      (buf task : ℕ) → (start : Option ℤ) → Receiving A × Option (UvResult (ℕ × A))
  recv_begin buf task none = (
    record {
      context = some (record { task = some task; buf = some buf; result = none });
      attached = true;
      started = true;
    },
    none,
  )
  recv_begin buf task (some e) = (silent, some (uv_err e))

  abbrev with_address : ℤ → Option A → Result (UvResult (ℕ × A))
  with_address n none = fault unwrap
  with_address n (some addr) = ok (uv_ok (magnitude n, addr))

  abbrev pub received : Option (ℤ × Option A) → Result (UvResult (ℕ × A))
  received none = fault unwrap
  received (some (n, addr)) = if is_negative n then ok (uv_err n) else with_address n addr

  -- `recv_from` after its task has been reawakened.
  unfoldable pub recv_end : Receiving A → Result (UvResult (ℕ × A))
  recv_end r = elim r.context [ none ↦ fault abort | some c ↦ received c.result ]

  abbrev pub data_of : Receiving A → Option (UdpRecvCtx A)
  data_of r = if r.attached then r.context else none

  -- `cancel_read` of `set_read_timeout`, with libuv's ECANCELED.
  unfoldable pub cancel_read : ℤ → Receiving A → Receiving A × Option ℕ
  cancel_read canceled r = elim (data_of r) [
    | none ↦ (record r { started = false }, none)
    | some c ↦ (
      record r {
        started = false;
        context = some (record c { result = some (canceled, none); task = none });
      },
      c.task,
    )
  ]

  unfoldable pub alloc_cb : Receiving A → Result (Receiving A × ℕ)
  alloc_cb r = elim (data_of r) [
    | none ↦ fault abort
    | some c ↦ elim c.buf [
      | none ↦ fault panic
      | some b ↦ ok (record r { context = some (record c { buf = none }) }, b)
    ]
  ]

  -- The task that is reawakened, if there is something to receive.
  unfoldable pub recv_cb :
      (canceled nread : ℤ) → (buf : ℕ) → Option A → Receiving A → Result (Receiving A × Option ℕ)
  unfolding wakeup
  recv_cb canceled nread buf addr r =
      if nread ==ℤ canceled then fault assertion else elim (data_of r) [
        | none ↦ fault abort
        | some c ↦
            if nread ==ℤ pos 0
            then ok (record r { context = some (record c { buf = some buf }) }, none)
            else elim (wakeup c.task) [
              | fault e ↦ fault e
              | ok (task, slot) ↦ ok (
                record r {
                  started = false;
                  context = some (record c { result = some (nread, addr); task = slot });
                },
                some task,
              )
            ]
      ]

-- `send_to`: until its task blocks, if the request is not refused; its callback; and its end.
unfoldable pub send_begin : (canceled : ℤ) → (task : ℕ) → (send : Option ℤ) → UvResult UdpSendCtx
send_begin canceled task none = uv_ok (record { result = canceled; task = some task })
send_begin canceled task (some e) = uv_err e

unfoldable pub send_cb : ℤ → UdpSendCtx → Result (UdpSendCtx × ℕ)
unfolding wakeup
send_cb status c = elim (wakeup c.task) [
  | fault e ↦ fault e
  | ok (task, slot) ↦ ok (record { result = status; task = slot }, task)
]

unfoldable pub send_end : UdpSendCtx → UvResult (Unit {0})
send_end c = if is_negative c.result then uv_err c.result else uv_ok tt
