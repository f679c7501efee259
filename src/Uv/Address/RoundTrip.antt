-- ===== src/Uv/Address/RoundTrip.antt =====
-- Socket addresses of librustuv/src/raw/mod.rs, stored and read back.
use green_rs.Prelude.{ℕ, ◌+◌, ◌*◌, ◌/◌, ◌^◌, ◌<◌, ◌≡◌, ◌≢◌, refl, Bool, true, false, ok, arith}
use green_rs.Uv.Address.{
  Libc, Words, IpAddr, ipv4_addr, ipv6_addr, SocketAddr, Storage, byte, be16, be32, be_words,
  store_ip, sockaddr_to_addr, addr_to_sockaddr,
}

-- The numbers fit their types.
abbrev pub IsWords : Words → Type 0
IsWords w =
    (w.a < 2 ^ 16)
    × (w.b < 2 ^ 16)
    × (w.c < 2 ^ 16)
    × (w.d < 2 ^ 16)
    × (w.e < 2 ^ 16)
    × (w.f < 2 ^ 16)
    × (w.g < 2 ^ 16)
    × (w.h < 2 ^ 16)

abbrev pub IsIpAddr : IpAddr → Type 0
IsIpAddr (ipv4_addr a b c d) = (a < 256) × (b < 256) × (c < 256) × (d < 256)
IsIpAddr (ipv6_addr w) = IsWords w

be16_twice : (libc : Libc) (u : ℕ) → u < 2 ^ 16 → be16 libc (be16 libc u) ≡ u
unfolding be16
be16_twice libc u h = by_order libc.big_endian refl
  where
    by_order : (big : Bool) → libc.big_endian ≡ big → be16 libc (be16 libc u) ≡ u
    by_order true e = ground (arith, e)
    by_order false e = rw e (omega arith)

be32_twice : (libc : Libc) (u : ℕ) → u < 2 ^ 32 → be32 libc (be32 libc u) ≡ u
unfolding be32
be32_twice libc u h = by_order libc.big_endian refl
  where
    by_order : (big : Bool) → libc.big_endian ≡ big → be32 libc (be32 libc u) ≡ u
    by_order true e = ground (arith, e)
    by_order false e = rw e (omega arith)

be_words_twice : (libc : Libc) (w : Words) → IsWords w → be_words libc (be_words libc w) ≡ w
unfolding be_words
be_words_twice libc w h =
    rw
      (
        be16_twice libc w.a h.0,
        be16_twice libc w.b h.1,
        be16_twice libc w.c h.2,
        be16_twice libc w.d h.3,
        be16_twice libc w.e h.4,
        be16_twice libc w.f h.5,
        be16_twice libc w.g h.6,
        be16_twice libc w.h h.7,
      )
      refl

store_ip-sockaddr_to_addr :
    (libc : Libc) (ip : IpAddr) (port : ℕ) (storage : Storage)
    → libc.af_inet ≢ libc.af_inet6
    → IsIpAddr ip
    → port < 2 ^ 16
    → let (stored, len) = store_ip libc ip port storage in
      sockaddr_to_addr libc stored len ≡ ok (record { ip = ip; port = port })
unfolding store_ip sockaddr_to_addr
store_ip-sockaddr_to_addr libc (ipv4_addr a b c d) port storage ne h small =
    let number : ℕ = a * 2 ^ 24 + b * 2 ^ 16 + c * 2 ^ 8 + d in
    let bytes : (byte (number / 2 ^ 24) ≡ a)
        × (byte (number / 2 ^ 16) ≡ b)
        × (byte (number / 2 ^ 8) ≡ c)
        × (byte number ≡ d) =
      omega arith in
    ground (arith, be32_twice libc number (omega arith), be16_twice libc port small, bytes)
store_ip-sockaddr_to_addr libc (ipv6_addr words) port storage ne h small =
    ground (arith, be_words_twice libc words h, be16_twice libc port small)

-- An address that is stored, whatever the storage held, is what is read back, on a machine of either
-- byte order, if the numbers fit their types.
pub addr_to_sockaddr-sockaddr_to_addr :
    (libc : Libc) (addr : SocketAddr) (storage : Storage)
    → libc.af_inet ≢ libc.af_inet6
    → IsIpAddr addr.ip
    → addr.port < 2 ^ 16
    → sockaddr_to_addr libc
        (addr_to_sockaddr libc addr storage).0
        (addr_to_sockaddr libc addr storage).1
      ≡ ok addr
unfolding addr_to_sockaddr
addr_to_sockaddr-sockaddr_to_addr libc addr storage ne h small =
    store_ip-sockaddr_to_addr libc addr.ip addr.port storage ne h small
