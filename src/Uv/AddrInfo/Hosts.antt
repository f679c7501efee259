-- ===== src/Uv/AddrInfo/Hosts.antt =====
-- The addresses of a host that librustuv/src/addrinfo.rs answers with.
use green_rs.Prelude.{ℕ, ◌<◌, ◌^◌, ◌≡◌, ◌≢◌, refl, Option, some, List, [], ◌∷◌, map, ok, pos}
use green_rs.Uv.Stream.{uv_ok}
use green_rs.Uv.Address.{Libc, Storage, SocketAddr, addr_to_sockaddr}
use green_rs.Uv.Address.RoundTrip.{IsIpAddr, addr_to_sockaddr-sockaddr_to_addr}
use green_rs.Uv.AddrInfo.{resolve_end, addresses}

-- An address as libuv gives it, on top of what the storage held.
abbrev pub stored : Libc → Storage → SocketAddr → Storage × ℕ
stored libc storage addr = addr_to_sockaddr libc addr storage

abbrev pub AreAddrs : List SocketAddr → Type 0
AreAddrs [] = Unit
AreAddrs (addr ∷ rest) = IsIpAddr addr.ip × (addr.port < 2 ^ 16) × AreAddrs rest

module _ (libc : Libc) (storage : Storage) (other : libc.af_inet ≢ libc.af_inet6) where
  addresses-stored :
      (first : SocketAddr) (rest : List SocketAddr)
      → AreAddrs (first ∷ rest)
      → addresses libc (stored libc storage first) (map (stored libc storage) rest)
        ≡ ok (map (λ (a : SocketAddr). a.ip) (first ∷ rest))
  unfolding addresses
  addresses-stored first [] h =
      rw (addr_to_sockaddr-sockaddr_to_addr libc first storage other h.0 h.1) refl
  addresses-stored first (next ∷ rest) h =
      rw
        (
          addr_to_sockaddr-sockaddr_to_addr libc first storage other h.0 h.1,
          addresses-stored next rest h.2,
        )
        refl

  -- If libuv reports success with some addresses, the resolution answers with these, in order.
  pub resolve_end-stored :
      (first : SocketAddr) (rest : List SocketAddr) (task : Option ℕ)
      → AreAddrs (first ∷ rest)
      → resolve_end libc (record {
        blocker = task;
        status = pos 0;
        addrinfo = some (stored libc storage first, map (stored libc storage) rest);
      })
        ≡ ok (uv_ok (map (λ (a : SocketAddr). a.ip) (first ∷ rest)))
  unfolding resolve_end
  resolve_end-stored first rest task h = rw (addresses-stored first rest h) refl
