-- ===== src/Bootstrap/Try/Replies.antt =====
-- crust/src/net/peer/connect/bootstrap/try_peer.rs: what `try_peer` makes of each reply.
use crust_futures.Base.{◌≡◌, refl, ap, ◌∙◌, [], ◌∷◌, ◌++◌, some, ok, err, map_err}
use crust_futures.Addr.{SocketAddr, node}
use crust_futures.Net.{Codec}
use crust_futures.Handshake.{
  NameHash, ExternalReachability, BootstrapDenyReason, BootstrapRequest, HandshakeMessage,
  bootstrap_request, bootstrap_granted, bootstrap_denied,
}
use crust_futures.Socket.Task.{send}
use crust_futures.Socket.Front
use crust_futures.Socket.Front.{Socket, Inner}
use crust_futures.Socket.Front.Lifecycle.{poll-serialise, start_send-live, wrap_tcp-live}
use crust_futures.Peer.{Peer, from_handshaken_socket}
use crust_futures.Bootstrap.Try.{
  ConnectHandshakeError, denied, handshake_error, arrives, Clock, respond, received, await,
  request_sent, bootstrap_connect_handshake, try_peer,
}

module _ {U D : Type 0} (C : Codec (HandshakeMessage U) D) (clock : Clock)
    (law : (m : HandshakeMessage U) → C.deserialise (C.serialise m) ≡ ok m) where
  -- The reply is read off a live socket and matched on.
  try_peer-arrives :
      (addr : SocketAddr) (uid : U) (hash : NameHash) (reach : ExternalReachability)
      (m : HandshakeMessage U)
      → (s : Socket D) × (try_peer C clock addr uid hash reach
            (ok tt)
            (arrives (ok (some (C.serialise m))))
          ≡ map_err handshake_error (respond C clock m s))
  unfolding try_peer bootstrap_connect_handshake request_sent await received
  try_peer-arrives addr uid hash reach m =
      let req : BootstrapRequest U = record {
        uid = uid;
        name_hash = hash;
        ext_reachability = reach;
      } in
      let s = Front.wrap_tcp addr in
      let (i, live) = wrap_tcp-live D addr in
      let sent = start_send-live C 0 (bootstrap_request req) s live in
      let s' : Socket D = record s {
        outbox = s.outbox ++ send 0 (C.serialise (bootstrap_request req)) ∷ [];
      } in
      (
        s',
        ap
              (λ x.
                map_err handshake_error
                  (request_sent C clock x.1 (arrives (ok (some (C.serialise m)))) x.0))
              sent
            ∙ ap (λ x. map_err handshake_error (received C clock x))
                (poll-serialise C m s' law live),
      )

  -- A grant makes a peer of the one that sent it, under the uid that it gives, if there are timers.
  pub try_peer-granted :
      (addr : SocketAddr) (uid peer_uid : U) (hash : NameHash) (reach : ExternalReachability)
      → clock.timers ≡ ok tt
      → (q : Peer U D) × (try_peer C clock addr uid hash reach
            (ok tt)
            (arrives (ok (some (C.serialise (bootstrap_granted peer_uid)))))
          ≡ ok q)
        × (q.their_uid ≡ peer_uid)
        × (q.kind ≡ node)
  unfolding respond from_handshaken_socket
  try_peer-granted addr uid peer_uid hash reach t =
      let (s, e) = try_peer-arrives addr uid hash reach (bootstrap_granted peer_uid) in
      (
        _,
        e
            ∙ ap
                (λ x. map_err handshake_error (
                  map_err ConnectHandshakeError.io
                    (from_handshaken_socket clock.now x s peer_uid node)))
                t,
        refl,
        refl,
      )

  pub try_peer-denied :
      (addr : SocketAddr) (uid : U) (hash : NameHash) (reach : ExternalReachability)
      (reason : BootstrapDenyReason)
      → try_peer C clock addr uid hash reach
          (ok tt)
          (arrives (ok (some (C.serialise (bootstrap_denied reason)))))
        ≡ err (handshake_error (denied reason))
  unfolding respond
  try_peer-denied addr uid hash reach reason =
      let (s, e) = try_peer-arrives addr uid hash reach (bootstrap_denied reason) in e
