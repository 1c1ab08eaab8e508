-- ===== src/ServiceDiscovery.antt =====
-- service_discovery/src: finding peers on the local network by datagrams.
pub mod Server
pub mod Discover
pub mod Exchange
use crust_futures.Base.{List, Result}
use crust_futures.Addr.{SocketAddr}

-- service_discovery/src/msg.rs.
pub data DiscoveryMsg (T : Type 0) : Type 0 where
  request : DiscoveryMsg T
  response : T → DiscoveryMsg T

-- A datagram as the codec of the UDP socket gives it: the sender, and the message or the error of
-- deserialising it.
abbrev pub Datagram : Type 0 → Type 0 → Type 0
Datagram E T = SocketAddr × Result E (DiscoveryMsg T)
