-- ===== src/Acceptor.antt =====
-- crust/src/net/peer/acceptor.rs: the listeners and the demultiplexer behind one handle.
use crust_futures.Base.{ℕ, List, [], ◌∷◌, ◌++◌, Result, ok, ◌>>=◌}
use crust_futures.Addr.{SocketAddr, Uid}
use crust_futures.Net.{IoError, Codec}
use crust_futures.Config.{ConfigSettings}
use crust_futures.Handshake.{NameHash, HandshakeMessage}
use crust_futures.ConnectionInfo.{PrivConnectionInfo, PubConnectionInfo}
use crust_futures.Listener
use crust_futures.Listener.{Addresses, Entry, Incoming}
use crust_futures.Nat.{MappingContext, Outside, mapped_tcp_socket}
use crust_futures.Demux
use crust_futures.Demux.{DemuxInner}
use crust_futures.Connect
use crust_futures.Connect.{World, ConnectError}
use crust_futures.Peer.{Peer}

-- `listeners_tx` is what was sent to the incoming side.
pub record Acceptor (U D : Type 0) : Type 0 where
  pub listeners : Addresses
  pub listeners_tx : List Entry
  pub demux : DemuxInner U D
  pub our_uid : U

module _ {U D : Type 0} where
  pub new : U → Acceptor U D
  new our_uid = record {
    listeners = record { current = []; observers = [] };
    listeners_tx = [];
    demux = Demux.new;
    our_uid = our_uid;
  }

  -- The current addresses, with a new observer of them.
  unfoldable pub addresses : Acceptor U D → List SocketAddr × Acceptor U D
  addresses a =
      let (current, addrs) = Listener.addresses a.listeners in
      (current, record a { listeners = addrs })

  -- `listen` tells at which address the socket listens, and `incoming` what comes there.
  unfoldable pub listener :
      {G : Type 0}
      → Outside G
      → (SocketAddr → Result IoError SocketAddr)
      → Incoming
      → SocketAddr
      → MappingContext G
      → Acceptor U D
      → Result IoError (SocketAddr × Acceptor U D)
  listener net listen incoming listen_addr mc a =
      mapped_tcp_socket net mc listen_addr >>= λ (socket, addrs). listen socket >>= λ local_addr.
      let (addresses, entry) = Listener.listener addrs incoming a.listeners in
      ok (
        local_addr,
        record a { listeners = addresses; listeners_tx = a.listeners_tx ++ entry ∷ [] },
      )

  pub bootstrap_acceptor : Acceptor U D → Acceptor U D × ℕ
  bootstrap_acceptor a =
      let (demux, channel) = Demux.bootstrap_acceptor a.demux in
      (record a { demux = demux }, channel)

module _ {U D : Type 0} (C : Codec (HandshakeMessage U) D) (uids : Uid U) where
  -- The world's `peer_rx` is the channel that is registered.
  pub connect :
      World U D C.Error
      → NameHash
      → PrivConnectionInfo U
      → PubConnectionInfo U
      → ConfigSettings
      → Acceptor U D
      → Acceptor U D × Result (ConnectError U C.Error) (Peer U D)
  connect w name_hash our_info their_info config a = (
    record a { demux = (Demux.register uids their_info.id a.demux).0 },
    Connect.connect C uids w name_hash our_info their_info config,
  )
