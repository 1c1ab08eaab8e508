-- ===== src/Bootstrap/Try/Granted.antt =====
-- crust/src/net/peer/connect/bootstrap/try_peer.rs: where a peer comes from.
use crust_futures.Base.{
  ◌≡◌, refl, sym, ap, Option, none, some, Result, ok, err, map_err_ok, ready, not_ready, Async,
}
use crust_futures.Addr.{SocketAddr, node}
use crust_futures.Net.{IoError, Codec, SocketError}
use crust_futures.Handshake.{NameHash, ExternalReachability, HandshakeMessage, bootstrap_granted}
use crust_futures.Socket.Front
use crust_futures.Socket.Front.{Socket}
use crust_futures.Socket.Front.Lifecycle.{poll_gives, Says}
use crust_futures.Peer.{Peer, from_handshaken_socket_ok}
use crust_futures.Bootstrap.Try.{
  Reply, arrives, too_late, handshake_error, Clock, respond, received, await, request_sent,
  bootstrap_connect_handshake, try_peer, ConnectHandshakeError,
}

frame_inj :
    {D : Type 0} (d : Option D) {x : D}
    → Path (Result IoError (Async (Option D))) (ok (ready d)) (ok (ready (some x)))
    → Path (Result IoError (Option D)) (ok d) (ok (some x))
frame_inj d {x} h = let q : d ≡ some x = cc in ap ok q

module _ {U D : Type 0} (C : Codec (HandshakeMessage U) D) (clock : Clock) where
  respond_ok :
      (m : HandshakeMessage U) (s : Socket D) {p : Peer U D}
      → respond C clock m s ≡ ok p
      → (m ≡ bootstrap_granted p.their_uid) × (p.kind ≡ node)
  unfolding respond
  respond_ok (bootstrap_granted uid) s h =
      let (u, k, q) =
        from_handshaken_socket_ok clock.now clock.timers s uid node
          (map_err_ok ConnectHandshakeError.io _ h) in
      (ap bootstrap_granted (sym u), k)
  respond_ok (HandshakeMessage.bootstrap_request r) s h = cc
  respond_ok (HandshakeMessage.bootstrap_denied r) s h = cc
  respond_ok HandshakeMessage.echo_addr_req s h = cc
  respond_ok (HandshakeMessage.echo_addr_resp a) s h = cc
  respond_ok HandshakeMessage.choose_connection s h = cc
  respond_ok (HandshakeMessage.connect r) s h = cc

  received_ok :
      (r : Socket D × Front.Polled C) {p : Peer U D}
      → received C clock r ≡ ok p
      → (r.1 ≡ ok (ready (some (bootstrap_granted p.their_uid)))) × (p.kind ≡ node)
  unfolding received
  received_ok (s, ok (ready (some m))) h =
      let (e, k) = respond_ok m s h in (ap (λ m. ok (ready (some m))) e, k)
  received_ok (s, ok (ready none)) h = cc
  received_ok (s, ok not_ready) h = cc
  received_ok (s, err e) h = cc

  abbrev pub IsGrant : Reply D → Peer U D → Type 0
  IsGrant reply p =
      (f : Result IoError (Option D)) × (reply ≡ arrives f)
      × Says C f (bootstrap_granted p.their_uid)

  await_ok :
      (reply : Reply D) (s : Socket D) {p : Peer U D}
      → await C clock reply s ≡ ok p
      → IsGrant reply p × (p.kind ≡ node)
  unfolding await
  await_ok too_late s h = cc
  await_ok (arrives (ok d)) s h =
      let (e, k) = received_ok (Front.poll C (ok (ready d)) s) h in
      let (x, q, des, same_socket) = poll_gives C (ok (ready d)) s (bootstrap_granted _) e in
      ((ok d, refl, (x, frame_inj d q, des)), k)
  await_ok (arrives (err z)) s h =
      let (e, k) = received_ok (Front.poll C (err z) s) h in
      let (x, q, des, same_socket) = poll_gives C (err z) s (bootstrap_granted _) e in cc

  request_sent_ok :
      (r : Result (SocketError C.Error) (Unit {0})) (reply : Reply D) (s : Socket D) {p : Peer U D}
      → request_sent C clock r reply s ≡ ok p
      → IsGrant reply p × (p.kind ≡ node)
  unfolding request_sent
  request_sent_ok (ok x) reply s h = await_ok reply s h
  request_sent_ok (err e) reply s h = cc

  -- A peer that `try_peer` gives is a node whose grant came, under the uid in it, on a connection.
  pub try_peer_ok :
      (addr : SocketAddr) (uid : U) (hash : NameHash) (reach : ExternalReachability)
      (connected : Result IoError (Unit {0})) (reply : Reply D) {p : Peer U D}
      → try_peer C clock addr uid hash reach connected reply ≡ ok p
      → (connected ≡ ok tt) × IsGrant reply p × (p.kind ≡ node)
  unfolding try_peer bootstrap_connect_handshake
  try_peer_ok addr uid hash reach (err e) reply h = cc
  try_peer_ok addr uid hash reach (ok x) reply h =
      let (g, k) = request_sent_ok _ reply _ (map_err_ok handshake_error _ h) in (refl, g, k)
