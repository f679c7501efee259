-- ===== src/Uv/AddrInfo.antt =====
-- librustuv/src/addrinfo.rs: the resolution of a host's name. The answer of libuv is a list of socket
-- addresses with their lengths, which has a first one.
pub mod Hosts
use green_rs.Prelude.{
  ℕ, Bool, true, false, Option, none, some, List, [], ◌∷◌, Result, ok, fault, assertion, unwrap,
  if◌then◌else◌, then_ok, ℤ, pos, is_negative, ◌==ℤ◌,
}
use green_rs.Uv.Block.{wakeup}
use green_rs.Uv.Stream.{UvResult, uv_ok, uv_err}
use green_rs.Uv.Address.{Libc, Storage, SocketAddr, IpAddr, sockaddr_to_addr}

-- A node of `libc::addrinfo`, and the list from it on.
abbrev pub Info : Type 0
Info = (Storage × ℕ) × List (Storage × ℕ)

pub record Data : Type 0 where
  pub blocker : Option ℕ
  pub status : ℤ
  pub addrinfo : Option Info

-- `get_host_addresses_on` until its task blocks, if the request is not refused.
unfoldable pub resolve_begin : (task : ℕ) → (send : Option ℤ) → UvResult Data
resolve_begin task none = uv_ok (record { blocker = some task; status = pos 0; addrinfo = none })
resolve_begin task (some e) = uv_err e

unfoldable pub callback : (canceled status : ℤ) → Info → Data → Result (Data × ℕ)
unfolding wakeup
callback canceled status res d =
    if status ==ℤ canceled then fault assertion else elim (wakeup d.blocker) [
      | fault e ↦ fault e
      | ok (task, slot) ↦ ok (record { blocker = slot; status = status; addrinfo = some res }, task)
    ]

-- The loop over the nodes.
unfoldable pub addresses : Libc → Storage × ℕ → List (Storage × ℕ) → Result (List IpAddr)
addresses libc (addr, len) [] =
    then_ok (sockaddr_to_addr libc addr len) (λ rustaddr. ok (rustaddr.ip ∷ []))
addresses libc (addr, len) (next ∷ rest) =
    then_ok (sockaddr_to_addr libc addr len)
      (λ rustaddr. then_ok (addresses libc next rest) (λ addrs. ok (rustaddr.ip ∷ addrs)))

-- `get_host_addresses_on` after its task has been reawakened.
unfoldable pub resolve_end : Libc → Data → Result (UvResult (List IpAddr))
unfolding addresses
resolve_end libc d = if is_negative d.status then ok (uv_err d.status) else elim d.addrinfo [
  | none ↦ fault unwrap
  | some (first, rest) ↦ then_ok (addresses libc first rest) (λ addrs. ok (uv_ok addrs))
]
