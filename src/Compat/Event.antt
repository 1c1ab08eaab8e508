-- ===== src/Compat/Event.antt =====
-- crust/src/compat/event.rs: what the service tells its owner.
use crust_futures.Base.{ℕ, Result}
use crust_futures.Addr.{SocketAddr, CrustUser}
use crust_futures.Net.{IoError}
use crust_futures.ConnectionInfo.{PrivConnectionInfo}

pub record ConnectionInfoResult (U : Type 0) : Type 0 where
  pub result_token : ℕ
  pub result : Result IoError (PrivConnectionInfo U)

pub data Event (U B : Type 0) : Type 0 where
  bootstrap_accept : U → CrustUser → Event U B
  bootstrap_connect : U → SocketAddr → Event U B
  bootstrap_failed : Event U B
  listener_started : ℕ → Event U B
  listener_failed : Event U B
  connection_info_prepared : ConnectionInfoResult U → Event U B
  connect_success : U → Event U B
  connect_failure : U → Event U B
  lost_peer : U → Event U B
  new_message : U → CrustUser → B → Event U B
  write_msg_size_prohibitive : U → B → Event U B
