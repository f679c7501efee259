-- ===== src/Uv/Address.antt =====
-- Socket addresses in librustuv/src/raw/mod.rs. A byte or a word is a number in its range.
pub mod RoundTrip
use native.Mathlib.Nat.{mod-eq_of_lt}
use green_rs.Prelude.{
  ℕ, ◌+◌, ◌*◌, ◌/◌, ◌%◌, ◌^◌, ◌<◌, ◌≡◌, ◌≢◌, refl, Bool, true, false, Result, ok, fault, assertion,
  panic, arith, leb, ◌==◌, if◌then◌else◌, ltb,
}

-- What libc says of the platform: the families and the sizes of the two structures.
pub record Libc : Type 0 where
  pub big_endian : Bool
  pub af_inet : ℕ
  pub af_inet6 : ℕ
  pub sockaddr_in_size : ℕ
  pub sockaddr_in6_size : ℕ

pub record Words : Type 0 where
  pub a : ℕ
  pub b : ℕ
  pub c : ℕ
  pub d : ℕ
  pub e : ℕ
  pub f : ℕ
  pub g : ℕ
  pub h : ℕ

pub data IpAddr : Type 0 where
  ipv4_addr : (a b c d : ℕ) → IpAddr
  ipv6_addr : Words → IpAddr

pub record SocketAddr : Type 0 where
  pub ip : IpAddr
  pub port : ℕ

-- `sockaddr_storage`, read as `sockaddr_in` or `sockaddr_in6`: the family and the port stand at the
-- same place in both, `s_addr` and `s6_addr` at different ones.
pub record Storage : Type 0 where
  pub ss_family : ℕ
  pub port : ℕ
  pub s_addr : ℕ
  pub s6_addr : Words

abbrev swap_bytes16 : ℕ → ℕ
swap_bytes16 u = u % 256 * 256 + u / 256

abbrev swap_bytes32 : ℕ → ℕ
swap_bytes32 u = u % 256 * 2 ^ 24 + u / 2 ^ 8 % 256 * 2 ^ 16 + u / 2 ^ 16 % 256 * 2 ^ 8 + u / 2 ^ 24

-- `to_be` and `from_be` of `u16` and `u32` are the same function.
unfoldable pub be16 : Libc → ℕ → ℕ
be16 libc u = if libc.big_endian then u else swap_bytes16 u

unfoldable pub be32 : Libc → ℕ → ℕ
be32 libc u = if libc.big_endian then u else swap_bytes32 u

-- The eight words, each in the other order.
be_words : Libc → Words → Words
unfolding be16
be_words libc w = record {
  a = be16 libc w.a;
  b = be16 libc w.b;
  c = be16 libc w.c;
  d = be16 libc w.d;
  e = be16 libc w.e;
  f = be16 libc w.f;
  g = be16 libc w.g;
  h = be16 libc w.h;
}

-- `as u8`
abbrev byte : ℕ → ℕ
byte u = u % 256

unfoldable pub sockaddr_to_addr : Libc → Storage → ℕ → Result SocketAddr
unfolding be32 be16 be_words
sockaddr_to_addr libc storage len =
    if storage.ss_family == libc.af_inet
    then (if leb libc.sockaddr_in_size len
        then (let ip = be32 libc storage.s_addr in
            ok (record {
              ip =
                  ipv4_addr (byte (ip / 2 ^ 24)) (byte (ip / 2 ^ 16)) (byte (ip / 2 ^ 8)) (byte ip);
              port = be16 libc storage.port;
            }))
        else fault assertion)
    else if storage.ss_family == libc.af_inet6
    then (if leb libc.sockaddr_in6_size len
        then ok (record {
          ip = ipv6_addr (be_words libc storage.s6_addr);
          port = be16 libc storage.port;
        })
        else fault assertion)
    else fault panic

-- The bytes do not overlap, so that `|` is `+`. Returns the storage and the length.
store_ip : Libc → IpAddr → ℕ → Storage → Storage × ℕ
unfolding be32 be16 be_words
store_ip libc (ipv4_addr a b c d) port storage = (
  record storage {
    ss_family = libc.af_inet;
    port = be16 libc port;
    s_addr = be32 libc (a * 2 ^ 24 + b * 2 ^ 16 + c * 2 ^ 8 + d);
  },
  libc.sockaddr_in_size,
)
store_ip libc (ipv6_addr words) port storage = (
  record storage {
    ss_family = libc.af_inet6;
    port = be16 libc port;
    s6_addr = be_words libc words;
  },
  libc.sockaddr_in6_size,
)

unfoldable pub addr_to_sockaddr : Libc → SocketAddr → Storage → Storage × ℕ
unfolding store_ip
addr_to_sockaddr libc addr storage = store_ip libc addr.ip addr.port storage
