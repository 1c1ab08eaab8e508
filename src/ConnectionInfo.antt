-- ===== src/ConnectionInfo.antt =====
-- crust/src/net/peer/connect/connection_info.rs: what two peers exchange before they connect.
use crust_futures.Base.{List, Option}
use crust_futures.Addr.{SocketAddr}

-- The socket for hole punching is the address that it is bound to.
pub record PrivConnectionInfo (U : Type 0) : Type 0 where
  pub id : U
  pub for_direct : List SocketAddr
  pub for_hole_punch : List SocketAddr
  pub hole_punch_socket : Option SocketAddr

pub record PubConnectionInfo (U : Type 0) : Type 0 where
  pub id : U
  pub for_hole_punch : List SocketAddr
  pub for_direct : List SocketAddr

unfoldable pub pub_connection_info : {U : Type 0} → PrivConnectionInfo U → PubConnectionInfo U
pub_connection_info info = record {
  id = info.id;
  for_hole_punch = info.for_hole_punch;
  for_direct = info.for_direct;
}
