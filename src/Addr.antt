-- ===== src/Addr.antt =====
-- crust/src/util/util.rs, crust/src/common.rs and crust/src/net/peer/uid.rs: addresses, which of
-- them are global, kinds of users, unique identifiers. The tests of std::net are written out.
pub mod Global
use crust_futures.Base.{
  ℕ, ◌*◌, ◌+◌, ◌≡◌, ◌⊎◌, ◌<◌, Bool, true, false, not, ◌&&◌, ◌||◌, ◌==◌, leb, ℕ_discrete, Result,
  List,
}

-- std::net::Ipv4Addr by its octets.
pub record Ipv4Addr : Type 0 where
  pub a : ℕ
  pub b : ℕ
  pub c : ℕ
  pub d : ℕ

-- An IPv6 address is its 128-bit value.
pub data IpAddr : Type 0 where
  v4 : Ipv4Addr → IpAddr
  v6 : ℕ → IpAddr

pub record SocketAddr : Type 0 where
  pub ip : IpAddr
  pub port : ℕ

unfoldable pub Ipv4Addr-discrete : Discrete Ipv4Addr
Ipv4Addr-discrete = hlevel ℕ_discrete

unfoldable pub IpAddr-discrete : Discrete IpAddr
unfolding Ipv4Addr-discrete
IpAddr-discrete = hlevel (ℕ_discrete, Ipv4Addr-discrete)

unfoldable pub SocketAddr-discrete : Discrete SocketAddr
unfolding IpAddr-discrete
SocketAddr-discrete = hlevel (ℕ_discrete, IpAddr-discrete)

-- The methods of std::net that the source calls.
abbrev pub is_loopback : Ipv4Addr → Bool
is_loopback ip = ip.a == 127

abbrev pub is_private : Ipv4Addr → Bool
is_private ip =
    ip.a == 10 || (ip.a == 172 && leb 16 ip.b && leb ip.b 31) || (ip.a == 192 && ip.b == 168)

abbrev pub is_link_local : Ipv4Addr → Bool
is_link_local ip = ip.a == 169 && ip.b == 254

abbrev pub is_multicast : Ipv4Addr → Bool
is_multicast ip = leb 224 ip.a && leb ip.a 239

abbrev pub is_broadcast : Ipv4Addr → Bool
is_broadcast ip = ip.a == 255 && ip.b == 255 && ip.c == 255 && ip.d == 255

abbrev pub is_documentation : Ipv4Addr → Bool
is_documentation ip =
    (ip.a == 192 && ip.b == 0 && ip.c == 2)
    || (ip.a == 198 && ip.b == 51 && ip.c == 100)
    || (ip.a == 203 && ip.b == 0 && ip.c == 113)

abbrev pub is_unspecified_v4 : Ipv4Addr → Bool
is_unspecified_v4 ip = ip.a == 0 && ip.b == 0 && ip.c == 0 && ip.d == 0

unfoldable pub ipv4_addr_is_global : Ipv4Addr → Bool
ipv4_addr_is_global ip = not (
    is_loopback ip
    || is_private ip
    || is_link_local ip
    || is_multicast ip
    || is_broadcast ip
    || is_documentation ip
    || is_unspecified_v4 ip)

-- ::1 is the loopback address, :: the unspecified one.
unfoldable pub ipv6_addr_is_global : ℕ → Bool
ipv6_addr_is_global ip = not (ip == 1 || ip == 0)

unfoldable pub ip_addr_is_global : IpAddr → Bool
unfolding ipv4_addr_is_global ipv6_addr_is_global
ip_addr_is_global (v4 ip) = ipv4_addr_is_global ip
ip_addr_is_global (v6 ip) = ipv6_addr_is_global ip

unfoldable pub is_unspecified : IpAddr → Bool
is_unspecified (v4 ip) = is_unspecified_v4 ip
is_unspecified (v6 ip) = ip == 0

pub data CrustUser : Type 0 where
  node client : CrustUser

-- The trait `Uid` by the operations that the source uses: equality and a total order.
pub record Uid (U : Type 0) : Type 0 where
  pub eq : Discrete U
  pub lt : U → U → Bool
  pub lt_total : (x y : U) → (lt x y ≡ true) ⊎ (lt y x ≡ true) ⊎ (x ≡ y)
  pub lt_asymm : (x y : U) → lt x y ≡ true → lt y x ≡ false
  pub lt_irrefl : (x : U) → lt x x ≡ false
