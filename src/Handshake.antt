-- ===== src/Handshake.antt =====
-- crust/src/net/peer/connect/handshake_message.rs, ext_reachability.rs and the name hashes of
-- crust/src/common.rs: the messages of the handshakes.
use crust_futures.Base.{ℕ, List, ℕ_discrete}
use crust_futures.Addr.{SocketAddr}

-- 32 bytes.
abbrev pub NameHash : Type 0
NameHash = List ℕ

unfoldable pub NameHash-discrete : Discrete NameHash
NameHash-discrete = hlevel ℕ_discrete

pub data ExternalReachability : Type 0 where
  not_required : ExternalReachability
  required : List SocketAddr → ExternalReachability

pub record BootstrapRequest (U : Type 0) : Type 0 where
  pub uid : U
  pub name_hash : NameHash
  pub ext_reachability : ExternalReachability

pub record ConnectRequest (U : Type 0) : Type 0 where
  pub uid : U
  pub name_hash : NameHash

pub data BootstrapDenyReason : Type 0 where
  invalid_name_hash failed_external_reachability node_not_whitelisted client_not_whitelisted :
      BootstrapDenyReason

pub data HandshakeMessage (U : Type 0) : Type 0 where
  bootstrap_request : BootstrapRequest U → HandshakeMessage U
  bootstrap_granted : U → HandshakeMessage U
  bootstrap_denied : BootstrapDenyReason → HandshakeMessage U
  echo_addr_req : HandshakeMessage U
  echo_addr_resp : SocketAddr → HandshakeMessage U
  choose_connection : HandshakeMessage U
  connect : ConnectRequest U → HandshakeMessage U
