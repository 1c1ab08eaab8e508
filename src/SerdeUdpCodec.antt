-- ===== src/SerdeUdpCodec.antt =====
-- tokio-utils/src/serde_udp_codec.rs: messages in datagrams.
use crust_futures.Base.{Result}
use crust_futures.Addr.{SocketAddr}
use crust_futures.Net.{Codec}

module _ {M D : Type 0} (C : Codec M D) where
  unfoldable pub decode : SocketAddr → D → SocketAddr × Result C.Error M
  decode src buf = (src, C.deserialise buf)

  -- The contents of the datagram, and where it goes.
  unfoldable pub encode : SocketAddr × M → D × SocketAddr
  encode (addr, data') = (C.serialise data', addr)
