-- ===== src/Service.antt =====
-- crust/src/service.rs: the operations of a service.
pub mod Addresses
use crust_futures.Base.{
  ℕ, List, [], ◌∷◌, ◌++◌, Bool, Result, ok, err, map_err, ◌>>=◌, Option, none, some,
}
use crust_futures.Addr.{Ipv4Addr, IpAddr, v4, SocketAddr, CrustUser, node, client, Uid}
use crust_futures.Net.{IoError, Codec}
use crust_futures.Config.{Text, ConfigSettings, network_name_hash}
use crust_futures.Handshake.{
  NameHash, ExternalReachability, not_required, required, HandshakeMessage,
}
use crust_futures.ConnectionInfo.{PrivConnectionInfo, PubConnectionInfo}
use crust_futures.Listener.{Incoming}
use crust_futures.Nat
use crust_futures.Nat.{MappingContext, Outside, mapped_tcp_socket}
use crust_futures.Connect.{World, ConnectError}
use crust_futures.Bootstrap.Search
use crust_futures.Bootstrap.Search.{FileHandlers, BootstrapError, Around}
use crust_futures.Acceptor
use crust_futures.Acceptor.{Acceptor}
use crust_futures.Advertise
use crust_futures.Advertise.{ServiceDiscovery}
use crust_futures.Peer.{Peer}

pub record Service (U D G : Type 0) : Type 0 where
  pub config : ConfigSettings
  pub our_uid : U
  pub mc : MappingContext G
  pub acceptor : Acceptor U D

-- 0.0.0.0 and a port.
abbrev pub unspecified_at : ℕ → SocketAddr
unspecified_at port = record { ip = v4 (record { a = 0; b = 0; c = 0; d = 0 }); port = port }

-- What a bootstrap asks for: nodes want to be reached.
unfoldable pub ext_reachability : CrustUser → List SocketAddr → ExternalReachability
ext_reachability node current_addrs = required current_addrs
ext_reachability client current_addrs = not_required

abbrev pub port_or_any : Option ℕ → ℕ
port_or_any (some port) = port
port_or_any none = 0

module _ {U D G : Type 0} where
  pub with_config :
      {E : Type 0}
      → Result E (List IpAddr)
      → (Ipv4Addr → Option G)
      → ConfigSettings
      → U
      → Result E (Service U D G)
  with_config ifs search config our_uid =
      Nat.new config.force_acceptor_port_in_ext_ep ifs search >>= λ mc.
      ok (record { config = config; our_uid = our_uid; mc = mc; acceptor = Acceptor.new our_uid })

  unfoldable pub start_listener :
      Outside G
      → (SocketAddr → Result IoError SocketAddr)
      → Incoming
      → Service U D G
      → Result IoError (SocketAddr × Service U D G)
  start_listener net listen incoming s =
      let port = port_or_any s.config.tcp_acceptor_port in
      Acceptor.listener net listen incoming (unspecified_at port) s.mc s.acceptor
      >>= λ (local_addr, acceptor). ok (local_addr, record s { acceptor = acceptor })

  unfoldable pub prepare_connection_info :
      Outside G → Service U D G → Service U D G × Result IoError (PrivConnectionInfo U)
  prepare_connection_info net s =
      let (direct_addrs, acceptor) = Acceptor.addresses s.acceptor in
      (
        record s { acceptor = acceptor },
        mapped_tcp_socket net s.mc (unspecified_at 0) >>= λ (socket, hole_punch_addrs). ok (record {
          id = s.our_uid;
          for_direct = direct_addrs;
          for_hole_punch = hole_punch_addrs;
          hole_punch_socket = some socket;
        }),
      )

  pub bootstrap_acceptor : Service U D G → Service U D G × ℕ
  bootstrap_acceptor s =
      let (acceptor, channel) = Acceptor.bootstrap_acceptor s.acceptor in
      (record s { acceptor = acceptor }, channel)

  pub start_service_discovery :
      (ℕ → Result IoError ℕ) → Service U D G → Service U D G × Result IoError ServiceDiscovery
  start_service_discovery bind s =
      let (current_addrs, acceptor) = Acceptor.addresses s.acceptor in
      (record s { acceptor = acceptor }, Advertise.new bind s.config current_addrs)

module _ {U D G : Type 0} (C : Codec (HandshakeMessage U) D) (uids : Uid U)
    (sha3_256 : Text → NameHash) where
  pub bootstrap :
      {F E : Type 0}
      → FileHandlers F E
      → Around U D C.Error
      → List SocketAddr
      → Bool
      → CrustUser
      → Service U D G
      → Service U D G × Result (BootstrapError E C.Error) (Peer U D)
  unfolding ext_reachability
  bootstrap files w blacklist use_service_discovery crust_user s =
      let (current_addrs, acceptor) = Acceptor.addresses s.acceptor in
      (
        record s { acceptor = acceptor },
        Search.bootstrap C files w s.our_uid (network_name_hash sha3_256 s.config)
            (ext_reachability crust_user current_addrs) blacklist use_service_discovery s.config,
      )

  pub connect :
      World U D C.Error
      → PrivConnectionInfo U
      → PubConnectionInfo U
      → Service U D G
      → Service U D G × Result (ConnectError U C.Error) (Peer U D)
  connect w our_info their_info s =
      let (acceptor, r) =
        Acceptor.connect C uids w (network_name_hash sha3_256 s.config) our_info their_info s.config
          s.acceptor in
      (record s { acceptor = acceptor }, r)
