-- ===== src/Advertise.antt =====
-- crust/src/net/service_discovery.rs: telling the local network our current addresses.
pub mod Current
use crust_futures.Base.{ℕ, List, [], ◌∷◌, Option, none, some, Result, ok, err, ◌>>=◌}
use crust_futures.Addr.{SocketAddr}
use crust_futures.Net.{IoError}
use crust_futures.Config.{ConfigSettings}
use crust_futures.Bootstrap.Search.{service_discovery_default_port}
use crust_futures.ServiceDiscovery.Server
use crust_futures.ServiceDiscovery.Server.{Server}

-- The handle, with the server that its task holds.
pub record ServiceDiscovery : Type 0 where
  pub port : ℕ
  pub server : Server (List SocketAddr)

-- `ServiceDiscovery::new`; `bind` gives the port that a server on a port has.
unfoldable pub new :
    (ℕ → Result IoError ℕ) → ConfigSettings → List SocketAddr → Result IoError ServiceDiscovery
new bind config current_addrs =
    bind (elim config.service_discovery_port [
      | some port ↦ port
      | none ↦ service_discovery_default_port
    ])
    >>= λ actual_port.
        ok (record { port = actual_port; server = Server.new actual_port current_addrs })

-- The task: every set of addresses that comes is given to the server.
unfoldable pub forward : List (List SocketAddr) → ServiceDiscovery → ServiceDiscovery
forward [] sd = sd
forward (addrs ∷ addrs_rx) sd =
    forward addrs_rx (record sd { server = Server.set_data addrs sd.server })
