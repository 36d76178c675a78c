-- ===== src/Net.antt =====
-- The addresses of the standard library that umay/src/app/server.rs and umay/src/balance compare
-- and rewrite. An IPv4 address is a 32-bit number and an IPv6 address a 128-bit number, in network
-- order; the derived `Ord` compares the variant first and then the fields.
use umay.Base.Ord.{Ord, ord_by, nat_ord, pair_ord}
use umay.Base.{
  ℕ, ◌+◌, ◌*◌, ◌/◌, ◌%◌, ◌^◌, ◌<◌, ◌≡◌, refl, Option, none, some, arith, ◌==◌, if◌then◌else◌,
}

pub data IpAddr : Type 0 where
  v4 : ℕ → IpAddr
  v6 : ℕ → IpAddr

-- `v6` holds the address, the port, the flow information and the scope.
pub data SocketAddr : Type 0 where
  v4 : ℕ → ℕ → SocketAddr
  v6 : ℕ → ℕ → ℕ → ℕ → SocketAddr

-- `SocketAddr::new`
unfoldable pub socket_addr : IpAddr → ℕ → SocketAddr
socket_addr (IpAddr.v4 a) p = SocketAddr.v4 a p
socket_addr (IpAddr.v6 a) p = SocketAddr.v6 a p 0 0

abbrev pub ip : SocketAddr → IpAddr
ip (SocketAddr.v4 a p) = IpAddr.v4 a
ip (SocketAddr.v6 a p f s) = IpAddr.v6 a

abbrev pub port : SocketAddr → ℕ
port (SocketAddr.v4 a p) = p
port (SocketAddr.v6 a p f s) = p

abbrev pub fields : SocketAddr → ℕ × (ℕ × (ℕ × (ℕ × ℕ)))
fields (SocketAddr.v4 a p) = (0, (a, (p, (0, 0))))
fields (SocketAddr.v6 a p f s) = (1, (a, (p, (f, s))))

pub fields-injective : (x y : SocketAddr) → fields x ≡ fields y → x ≡ y
fields-injective x y h = ground arith

instance abbrev pub socket_ord : Ord SocketAddr
socket_ord = ord_by fields fields-injective

-- `Ipv6Addr::to_ipv4_mapped`: the addresses ::ffff:a.b.c.d
unfoldable pub to_ipv4_mapped : ℕ → Option ℕ
to_ipv4_mapped a = if a / 2 ^ 32 == 0xffff then some (a % 2 ^ 32) else none

-- `ipv4_mapped` of `bind_listener`
unfoldable pub ipv4_mapped : SocketAddr → SocketAddr
unfolding to_ipv4_mapped
ipv4_mapped (SocketAddr.v4 a p) = SocketAddr.v4 a p
ipv4_mapped (SocketAddr.v6 a p f s) = elim (to_ipv4_mapped a) [
  | none ↦ SocketAddr.v6 a p f s
  | some b ↦ SocketAddr.v4 b p
]

-- An address ::ffff:b for a 32-bit b is rewritten to the IPv4 address b, with the port kept.
pub ipv4_mapped-mapped :
    (b p f s : ℕ)
    → b < 2 ^ 32
    → ipv4_mapped (SocketAddr.v6 (0xffff * 2 ^ 32 + b) p f s) ≡ SocketAddr.v4 b p
unfolding ipv4_mapped
ipv4_mapped-mapped b p f s h = ground arith

-- Rewriting a socket address by `ipv4_mapped` twice is rewriting it once.
pub ipv4_mapped_idem : (x : SocketAddr) → ipv4_mapped (ipv4_mapped x) ≡ ipv4_mapped x
unfolding ipv4_mapped
ipv4_mapped_idem (SocketAddr.v4 a p) = refl
ipv4_mapped_idem (SocketAddr.v6 a p f s) = ground arith
