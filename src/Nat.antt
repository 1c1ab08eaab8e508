-- ===== src/Nat.antt =====
-- crust/src/net/nat/mapping_context.rs and mapped_tcp_socket.rs: the interfaces of the machine, and
-- the addresses on which one of its sockets may be reached. Sets are lists that are asked for
-- membership. Gateways and their search, and the replies of peers, are parameters.
pub mod Mapped
use crust_futures.Base.{
  ℕ, ◌≡◌, List, [], ◌∷◌, ◌++◌, map, keep, any, somes, Option, none, some, Bool, true, false, not,
  Result, ok, err, ◌>>=◌, if◌then◌else◌,
}
use crust_futures.Addr.{
  Ipv4Addr, IpAddr, v4, v6, SocketAddr, is_loopback, is_unspecified, ip_addr_is_global,
}
use crust_futures.Net.{IoError}

pub record Ifv4 (G : Type 0) : Type 0 where
  pub ip : Ipv4Addr
  pub gateway : Option G
  pub force_include_port : Bool

pub record MappingContext (G : Type 0) : Type 0 where
  pub our_ifv4s : List (Ifv4 G)
  pub our_ifv6s : List ℕ
  pub peer_stuns : List SocketAddr

ipv4s : List IpAddr → List Ipv4Addr
ipv4s [] = []
ipv4s (v4 ip ∷ ifs) = ip ∷ ipv4s ifs
ipv4s (v6 ip ∷ ifs) = ipv4s ifs

ipv6s : List IpAddr → List ℕ
ipv6s [] = []
ipv6s (v4 ip ∷ ifs) = ipv6s ifs
ipv6s (v6 ip ∷ ifs) = ip ∷ ipv6s ifs

-- `MappingContext::new`, on the interfaces of the machine; `search` is the gateway that is found from
-- an interface's address within a second.
pub new :
    {G E : Type 0}
    → Bool
    → Result E (List IpAddr)
    → (Ipv4Addr → Option G)
    → Result E (MappingContext G)
unfolding ipv4s ipv6s
new force_include_port (err e) search = err e
new force_include_port (ok ifs) search = ok (record {
  our_ifv4s =
      map (λ ip. record { ip = ip; gateway = search ip; force_include_port = force_include_port })
        (keep (λ ip. not (is_loopback ip)) (ipv4s ifs));
  our_ifv6s = ipv6s ifs;
  peer_stuns = [];
})

module _ {G : Type 0} where
  unfoldable pub expand_unspecified_addr : MappingContext G → SocketAddr → List SocketAddr
  expand_unspecified_addr mc addr =
      if not (is_unspecified addr.ip)
      then addr ∷ []
      else map (λ ifv4. record { ip = v4 ifv4.ip; port = addr.port }) mc.our_ifv4s

  unfoldable pub add_peer_stuns : List SocketAddr → MappingContext G → MappingContext G
  add_peer_stuns stun_addrs mc = record mc {
    peer_stuns = mc.peer_stuns ++ keep (λ elt. ip_addr_is_global elt.ip) stun_addrs;
  }

-- What a mapped socket meets: the address that it is bound to, an address that a gateway maps a local
-- endpoint to and one that a peer sees us at, within three seconds, and whether there are timers.
pub record Outside (G : Type 0) : Type 0 where
  pub new_reusably_bound : SocketAddr → Result IoError SocketAddr
  pub get_any_address : G → SocketAddr → Option SocketAddr
  pub stun : SocketAddr → SocketAddr → Option SocketAddr
  pub timeout : Result IoError (Unit {0})

module _ {G : Type 0} (net : Outside G) where
  open net use {new_reusably_bound, get_any_address, stun, timeout}

  map_port : SocketAddr → Ifv4 G → Option G → Option SocketAddr
  map_port addr ifv4 none = none
  map_port addr ifv4 (some gateway) =
      get_any_address gateway (record { ip = v4 ifv4.ip; port = addr.port })

  -- The addresses that the gateways and the peers give.
  pub mappings : MappingContext G → SocketAddr → List SocketAddr
  unfolding map_port
  mappings mc addr = somes (
      map (λ ifv4. map_port addr ifv4 ifv4.gateway) mc.our_ifv4s
      ++ map (λ peer_stun. stun addr peer_stun) mc.peer_stuns)

  pub forced_ports : Bool → SocketAddr → List SocketAddr → List SocketAddr
  forced_ports false addr addrs = []
  forced_ports true addr addrs =
      map (λ a. record { ip = a.ip; port = addr.port }) (keep (λ a. ip_addr_is_global a.ip) addrs)

  pub mapped_addrs : MappingContext G → SocketAddr → List SocketAddr
  unfolding mappings forced_ports expand_unspecified_addr
  mapped_addrs mc addr =
      let addrs = mappings mc addr in
      expand_unspecified_addr mc addr
      ++ (forced_ports (any (λ ifv4. ifv4.force_include_port) mc.our_ifv4s) addr addrs ++ addrs)

  -- The socket, by the address that it is bound to, with its possible addresses.
  unfoldable pub mapped_tcp_socket :
      MappingContext G → SocketAddr → Result IoError (SocketAddr × List SocketAddr)
  unfolding mapped_addrs
  mapped_tcp_socket mc addr =
      new_reusably_bound addr >>= λ addr. timeout >>= λ _. ok (addr, mapped_addrs mc addr)
