-- ===== src/Bootstrap/Both.antt =====
-- Both sides of a bootstrap handshake together: try_peer.rs against bootstrap_acceptor.rs.
use crust_futures.Base.{◌≡◌, refl, ap, ◌∙◌, List, [], ◌∷◌, none, some, ok, err}
use crust_futures.Addr.{SocketAddr, node}
use crust_futures.Net.{Codec}
use crust_futures.Handshake.{BootstrapDenyReason, BootstrapRequest, HandshakeMessage}
use crust_futures.Socket.Task.{TaskMsg, send, shutdown}
use crust_futures.Socket.Front.{Socket, Inner}
use crust_futures.Peer.{Peer}
use crust_futures.Bootstrap.Accept.{BootstrapAcceptError, Acceptor, bootstrap_accept}
use crust_futures.Bootstrap.Accept.Decision.{bootstrap_accept_ok, kind_of}
use crust_futures.Bootstrap.Accept.Refusal.{reason_of, bootstrap_accept-IsRefusal, refusal_told}
use crust_futures.Bootstrap.Try.{denied, handshake_error, try_peer, Reply, arrives, too_late, Clock}
use crust_futures.Bootstrap.Try.Replies.{try_peer-granted, try_peer-denied}

-- The first frame that a task is sent, as the other side of the connection sees it.
abbrev pub first_frame : {D : Type 0} → List (TaskMsg D) → Reply D
first_frame [] = too_late
first_frame (send p d ∷ ms) = arrives (ok (some d))
first_frame (shutdown ∷ ms) = arrives (ok none)

module _ {U D E : Type 0} (C : Codec (HandshakeMessage U) D) (a : Acceptor U D E) (clock : Clock)
    (law : (m : HandshakeMessage U) → C.deserialise (C.serialise m) ≡ ok m) where
  -- When a request of ours is granted on a fresh connection, and our reactor has timers, we become
  -- a peer of the acceptor, under its uid, and it has one of ours, of the kind that was asked for.
  pub granted_both :
      (addr : SocketAddr) (i : Inner) (req : BootstrapRequest U) {p : Peer U D}
      → clock.timers ≡ ok tt
      → (bootstrap_accept C a req (record { inner = some i; outbox = [] })).1.1 ≡ ok p
      → (p.their_uid ≡ req.uid)
        × (p.kind ≡ kind_of req.ext_reachability)
        × ((q : Peer U D) × (try_peer C clock addr req.uid req.name_hash req.ext_reachability
                (ok tt)
                (first_frame p.socket.outbox)
              ≡ ok q)
            × (q.their_uid ≡ a.our_uid)
            × (q.kind ≡ node))
  granted_both addr i req {p} timers h =
      let admits = bootstrap_accept_ok C a req (record { inner = some i; outbox = [] }) h in
      let granted = admits.granted in
      let (q, e, u, k) =
        try_peer-granted C clock law addr req.uid a.our_uid req.name_hash req.ext_reachability
          timers in
      (
        granted.of_uid,
        granted.of_kind,
        (
          q,
          ap
                (λ l.
                  try_peer C clock addr req.uid req.name_hash req.ext_reachability (ok tt)
                    (first_frame l))
                granted.told
              ∙ e,
          u,
          k,
        ),
      )

  -- When a request of ours is refused on a fresh connection, with a reason, we learn that reason.
  pub denied_both :
      (addr : SocketAddr) (i : Inner) (req : BootstrapRequest U) {e : BootstrapAcceptError C.Error}
      {r : BootstrapDenyReason}
      → (bootstrap_accept C a req (record { inner = some i; outbox = [] })).1.1 ≡ err e
      → reason_of e ≡ some r
      → try_peer C clock addr req.uid req.name_hash req.ext_reachability (ok tt) (
          first_frame
            (bootstrap_accept C a req (record { inner = some i; outbox = [] })).1.0.outbox)
        ≡ err (handshake_error (denied r))
  denied_both addr i req {e = x} {r} h k =
      let s : Socket D = record { inner = some i; outbox = [] } in
      let told =
        refusal_told C a s (bootstrap_accept C a req s).1 (bootstrap_accept-IsRefusal C a req s) h i
          r refl k in
      ap
        (λ l.
          try_peer C clock addr req.uid req.name_hash req.ext_reachability (ok tt) (first_frame l))
        told
      ∙ try_peer-denied C clock law addr req.uid req.name_hash req.ext_reachability r
