-- ===== src/Bootstrap/Search.antt =====
-- crust/src/net/peer/connect/bootstrap/bootstrap.rs and cache.rs: where peers to bootstrap to come
-- from, and the attempts on them. The file handler, service discovery, the network and `first_ok`
-- are parameters.
pub mod Found
use crust_futures.Base.{
  ℕ, ◌≡◌, List, [], ◌∷◌, ◌++◌, map, keep, contains, somes, Option, none, some, Bool, true, false,
  not, Result, ok, err, map_err, ◌>>=◌,
}
use crust_futures.Addr.{SocketAddr, SocketAddr-discrete}
use crust_futures.Net.{IoError, Codec, Race}
use crust_futures.Config.{Text, ConfigSettings}
use crust_futures.Handshake.{NameHash, ExternalReachability, HandshakeMessage}
use crust_futures.Peer.{Peer}
use crust_futures.Bootstrap.Try.{TryPeerError, Reply, Clock, try_peer}

-- `SERVICE_DISCOVERY_DEFAULT_PORT` of service.rs.
abbrev pub service_discovery_default_port : ℕ
service_discovery_default_port = 5484

-- config_file_handler, over its files and errors.
pub record FileHandlers (F E : Type 0) : Type 0 where
  pub exe_file_stem : Result E Text
  pub new : Text → Result E F
  pub read_file : F → Result E (List SocketAddr)

-- ".bootstrap.cache".
abbrev cache_suffix : Text
cache_suffix =
    46 ∷ 98 ∷ 111 ∷ 111 ∷ 116 ∷ 115 ∷ 116 ∷ 114 ∷ 97 ∷ 112 ∷ 46 ∷ 99 ∷ 97 ∷ 99 ∷ 104 ∷ 101 ∷ []

module _ {F E : Type 0} (files : FileHandlers F E) where
  unfoldable pub default_file_name : Result E Text
  default_file_name = files.exe_file_stem >>= λ name. ok (name ++ cache_suffix)

  -- `Cache::new`: the default name is made even if it is not used.
  unfoldable pub new_cache : Option Text → Result E F
  unfolding default_file_name
  new_cache name =
      default_file_name >>= λ default. files.new (elim name [ some given ↦ given | none ↦ default ])

  -- `Cache::read_file`, where an error is no peers.
  unfoldable pub read_cache_file : F → List SocketAddr
  read_cache_file file = elim (files.read_file file) [ ok addrs ↦ addrs | err e ↦ [] ]

pub data BootstrapError (E S : Type 0) : Type 0 where
  read_cache : E → BootstrapError E S
  service_discovery : IoError → BootstrapError E S
  all_peers_failed : List (SocketAddr × TryPeerError S) → BootstrapError E S
  timer_io : IoError → BootstrapError E S

-- What bootstrapping meets: the lists of addresses that are found on a port, and what becomes of a
-- connection to an address, within ten seconds.
pub record Around (U D S : Type 0) : Type 0 where
  pub discover : ℕ → Result IoError (List (List SocketAddr))
  pub timeout : Result IoError (Unit {0})
  pub clock : Clock
  pub contact : SocketAddr → Option (Result IoError (Unit {0}) × Reply D)
  pub race : Race (SocketAddr × TryPeerError S) (Peer U D)

pub flatten : List (List SocketAddr) → List SocketAddr
flatten [] = []
flatten (l ∷ ls) = l ++ flatten ls

module _ {U D F E : Type 0} (C : Codec (HandshakeMessage U) D) (files : FileHandlers F E)
    (w : Around U D C.Error) where
  unfoldable pub try_at :
      U
      → NameHash
      → ExternalReachability
      → SocketAddr
      → Option (Result IoError (Unit {0}) × Reply D)
      → Option (Result (SocketAddr × TryPeerError C.Error) (Peer U D))
  try_at our_uid name_hash ext_reachability addr none = none
  try_at our_uid name_hash ext_reachability addr (some (connected, reply)) = some (
      map_err (λ e. (addr, e))
        (try_peer C w.clock addr our_uid name_hash ext_reachability connected reply))

  -- The peers on the local network.
  unfoldable pub sd_peers : Bool → ConfigSettings → Result IoError (List SocketAddr)
  unfolding flatten
  sd_peers false config = ok []
  sd_peers true config =
      w.discover (elim config.service_discovery_port [
        | some port ↦ port
        | none ↦ service_discovery_default_port
      ])
      >>= λ found. ok (flatten found)

  unfoldable pub bootstrap :
      U
      → NameHash
      → ExternalReachability
      → List SocketAddr
      → Bool
      → ConfigSettings
      → Result (BootstrapError E C.Error) (Peer U D)
  unfolding try_at sd_peers new_cache read_cache_file
  bootstrap our_uid name_hash ext_reachability blacklist use_service_discovery config =
      map_err read_cache (new_cache files config.bootstrap_cache_name) >>= λ cache.
      map_err service_discovery (sd_peers use_service_discovery config) >>= λ found.
      map_err timer_io w.timeout >>= λ _. map_err all_peers_failed (
        w.race.apply (
          somes (
            map (λ addr. try_at our_uid name_hash ext_reachability addr (w.contact addr))
              (keep (λ addr. not (contains SocketAddr-discrete blacklist addr))
                (read_cache_file files cache ++ (config.hard_coded_contacts ++ found))))))
