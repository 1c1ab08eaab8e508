-- ===== src/Bootstrap/Try.antt =====
-- crust/src/net/peer/connect/bootstrap/try_peer.rs: the handshake of the connecting side. Each
-- future is the value that it resolves to, or the time limit that comes first.
pub mod Replies
pub mod Granted
use crust_futures.Base.{
  ℕ, Option, none, some, Result, ok, err, map_err, ◌>>=◌, Async, ready, not_ready,
}
use crust_futures.Addr.{SocketAddr, CrustUser, node}
use crust_futures.Net.{IoError, Codec, SocketError}
use crust_futures.Handshake.{
  NameHash, ExternalReachability, BootstrapDenyReason, BootstrapRequest, HandshakeMessage,
  bootstrap_request, bootstrap_granted, bootstrap_denied,
}
use crust_futures.Socket.Front
use crust_futures.Socket.Front.{Socket}
use crust_futures.Peer.{Peer, from_handshaken_socket}

pub data ConnectHandshakeError (S : Type 0) : Type 0 where
  denied : BootstrapDenyReason → ConnectHandshakeError S
  io : IoError → ConnectHandshakeError S
  deserialisation : S → ConnectHandshakeError S
  invalid_response disconnected timed_out : ConnectHandshakeError S

-- `From<SocketError> for ConnectHandshakeError`.
abbrev pub from_socket_error : {S : Type 0} → SocketError S → ConnectHandshakeError S
from_socket_error (SocketError.io e) = ConnectHandshakeError.io e
from_socket_error SocketError.destroyed = disconnected
from_socket_error (SocketError.deserialisation e) = ConnectHandshakeError.deserialisation e

pub data TryPeerError (S : Type 0) : Type 0 where
  connect_error : IoError → TryPeerError S
  handshake_error : ConnectHandshakeError S → TryPeerError S

-- What the socket's stream gives next: a frame, the end of the stream or an error; or else nine
-- seconds pass.
pub data Reply (D : Type 0) : Type 0 where
  arrives : Result IoError (Option D) → Reply D
  too_late : Reply D

-- What the peer is made with: the time, and whether the reactor has timers.
pub record Clock : Type 0 where
  pub now : ℕ
  pub timers : Result IoError (Unit {0})

module _ {U D : Type 0} (C : Codec (HandshakeMessage U) D) (clock : Clock) where
  abbrev pub Handshaken : Type 0
  Handshaken = Result (ConnectHandshakeError C.Error) (Peer U D)

  -- The `match` on the message that came.
  respond : HandshakeMessage U → Socket D → Handshaken
  respond (bootstrap_granted peer_uid) s =
      map_err ConnectHandshakeError.io
        (from_handshaken_socket clock.now clock.timers s peer_uid node)
  respond (bootstrap_denied reason) s = err (denied reason)
  respond _ s = err invalid_response

  -- `into_future()` of the socket, and what becomes of its result.
  received : Socket D × Front.Polled C → Handshaken
  unfolding respond
  received (s, ok (ready (some m))) = respond m s
  received (s, ok (ready none)) = err disconnected
  received (s, ok not_ready) = err timed_out
  received (s, err e) = err (from_socket_error e)

  await : Reply D → Socket D → Handshaken
  unfolding received
  await too_late s = err timed_out
  await (arrives (ok d)) s = received (Front.poll C (ok (ready d)) s)
  await (arrives (err e)) s = received (Front.poll C (err e) s)

  request_sent : Result (SocketError C.Error) (Unit {0}) → Reply D → Socket D → Handshaken
  unfolding await
  request_sent (ok _) reply s = await reply s
  request_sent (err e) reply s = err (from_socket_error e)

  pub bootstrap_connect_handshake :
      U → NameHash → ExternalReachability → Reply D → Socket D → Handshaken
  unfolding request_sent
  bootstrap_connect_handshake our_uid name_hash ext_reachability reply s =
      let request : BootstrapRequest U = record {
        uid = our_uid;
        name_hash = name_hash;
        ext_reachability = ext_reachability;
      } in
      let (s', r) = Front.start_send C 0 (bootstrap_request request) s in request_sent r reply s'

  -- `connected` is what connecting to the address within ten seconds resolves to.
  pub try_peer :
      SocketAddr
      → U
      → NameHash
      → ExternalReachability
      → Result IoError (Unit {0})
      → Reply D
      → Result (TryPeerError C.Error) (Peer U D)
  unfolding bootstrap_connect_handshake
  try_peer addr our_uid name_hash ext_reachability (err e) reply = err (connect_error e)
  try_peer addr our_uid name_hash ext_reachability (ok _) reply =
      map_err handshake_error
        (bootstrap_connect_handshake our_uid name_hash ext_reachability reply (Front.wrap_tcp addr))
