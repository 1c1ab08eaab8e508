-- ===== src/Bootstrap/Accept/Refusal.antt =====
-- crust/src/net/peer/connect/bootstrap_acceptor.rs: what a refused peer is told.
use crust_futures.Base.{
  ◌≡◌, refl, ap, ◌∙◌, List, [], ◌∷◌, ◌++◌, append_assoc, Option, none, some, Bool, Result, ok, err,
  map_err, ◌>>=◌, same, Bool-cases, inl, inr, arith,
}
use crust_futures.Addr.{SocketAddr, IpAddr, CrustUser, node, client}
use crust_futures.Net.{IoError, Codec, SocketError}
use crust_futures.Config.{ConfigSettings, network_name_hash, is_peer_whitelisted}
use crust_futures.Handshake.{
  NameHash-discrete, ExternalReachability, not_required, required, BootstrapRequest,
  BootstrapDenyReason, HandshakeMessage, bootstrap_granted, bootstrap_denied,
}
use crust_futures.Socket.Task.{send, shutdown}
use crust_futures.Socket.Front
use crust_futures.Socket.Front.{Socket, Inner}
use crust_futures.Socket.Front.Lifecycle.{drop-inner, drop-live, start_send-live}
use crust_futures.Peer.{Peer, from_handshaken_socket}
use crust_futures.Bootstrap.Accept.{
  BootstrapAcceptError, socket_error, disconnected, connection_from_ourself, invalid_name_hash,
  node_not_whitelisted, failed_external_reachability, client_not_whitelisted, Acceptor,
  require_reachability, Accepted, made, deny, handshaken, grant_bootstrap, reach, reached, judge,
  with_addr, reloaded, bootstrap_accept,
}

-- The reason that goes with an error of the accepting side, where there is one.
abbrev pub reason_of : {S : Type 0} → BootstrapAcceptError S → Option BootstrapDenyReason
reason_of (socket_error e) = none
reason_of disconnected = none
reason_of connection_from_ourself = none
reason_of (invalid_name_hash h) = some BootstrapDenyReason.invalid_name_hash
reason_of (node_not_whitelisted ip) = some BootstrapDenyReason.node_not_whitelisted
reason_of (failed_external_reachability es) = some BootstrapDenyReason.failed_external_reachability
reason_of (client_not_whitelisted ip) = some BootstrapDenyReason.client_not_whitelisted

module _ {U D E : Type 0} (C : Codec (HandshakeMessage U) D) (a : Acceptor U D E) where
  -- A refusal leaves the socket dead, and one with a reason has told it to a peer that was there.
  abbrev pub IsRefusal : Socket D → Accepted C a → Type 0
  IsRefusal s (s', ok p) = Unit {0}
  IsRefusal s (s', err e) =
      (s'.inner ≡ none)
      × ((i : Inner) (r : BootstrapDenyReason)
          → s.inner ≡ some i
          → reason_of e ≡ some r
          → s'.outbox ≡ s.outbox ++ send 0 (C.serialise (bootstrap_denied r)) ∷ shutdown ∷ [])

  no_reason :
      (s s' : Socket D) (e : BootstrapAcceptError C.Error)
      → s'.inner ≡ none
      → reason_of e ≡ none
      → IsRefusal s (s', err e)
  no_reason s s' e dead n = (dead, λ i r live h. cc)

  -- The socket behind a message that a live socket has taken.
  abbrev HasSent : HandshakeMessage U → Socket D → Socket D → Type 0
  HasSent m s s' =
      (i : Inner)
      → s.inner ≡ some i
      → (s'.inner ≡ some i) × (s'.outbox ≡ s.outbox ++ send 0 (C.serialise m) ∷ [])

  start_send-HasSent :
      (m : HandshakeMessage U) (s : Socket D) → HasSent m s (Front.start_send C 0 m s).0
  start_send-HasSent m s i live =
      let e = start_send-live C 0 m s {i = i} live in
      (ap (λ x. x.0.inner) e ∙ live, ap (λ x. x.0.outbox) e)

  denied_end :
      (reason : BootstrapDenyReason) (e : BootstrapAcceptError C.Error) (s s' : Socket D)
      (r : Result (SocketError C.Error) (Unit {0}))
      → reason_of e ≡ some reason
      → HasSent (bootstrap_denied reason) s s'
      → IsRefusal s (Front.drop s', map_err socket_error r >>= λ _. err e)
  denied_end reason e s s' (err x) h sent =
      no_reason s (Front.drop s') (socket_error x) (drop-inner s') refl
  denied_end reason e s s' (ok x) h sent = (
    drop-inner s',
    λ i r live k.
        let same_reason : reason ≡ r = cc in
        let (live', told) = sent i live in
        rw (← same_reason) (
          drop-live s' live'
          ∙ ap (λ l. l ++ shutdown ∷ []) told
          ∙ append_assoc s.outbox (send 0 (C.serialise (bootstrap_denied reason)) ∷ [])
              (shutdown ∷ [])),
  )

  deny-IsRefusal :
      (reason : BootstrapDenyReason) (e : BootstrapAcceptError C.Error) (s : Socket D)
      → reason_of e ≡ some reason
      → IsRefusal s (deny C a reason e s)
  unfolding deny
  deny-IsRefusal reason e s h =
      let m = bootstrap_denied reason in
      let (s', r) = Front.start_send C 0 m s in
      denied_end reason e s s' r h (start_send-HasSent m s)

  made-IsRefusal : (r : Result IoError (Peer U D)) (s s' : Socket D) → IsRefusal s (made C a r s')
  unfolding made
  made-IsRefusal (ok p) s s' = tt
  made-IsRefusal (err e) s s' =
      no_reason s (Front.drop s') (socket_error (SocketError.io e)) (drop-inner s') refl

  handshaken-IsRefusal :
      (r : Result (SocketError C.Error) (Unit {0})) (uid : U) (kind : CrustUser) (s s' : Socket D)
      → IsRefusal s (handshaken C a r uid kind s')
  unfolding handshaken
  handshaken-IsRefusal (err e) uid kind s s' =
      no_reason s (Front.drop s') (socket_error e) (drop-inner s') refl
  handshaken-IsRefusal (ok x) uid kind s s' =
      made-IsRefusal (from_handshaken_socket a.now a.timers s' uid kind) s s'

  grant_IsRefusal :
      (uid : U) (kind : CrustUser) (s : Socket D) → IsRefusal s (grant_bootstrap C a uid kind s)
  unfolding grant_bootstrap
  grant_IsRefusal uid kind s =
      let (s', r) = Front.start_send C 0 (bootstrap_granted a.our_uid) s in
      handshaken-IsRefusal r uid kind s s'

  reached-IsRefusal :
      (r : Result (List IoError) (Unit {0})) (uid : U) (s : Socket D)
      → IsRefusal s (reached C a r uid s)
  unfolding reached
  reached-IsRefusal (ok x) uid s = grant_IsRefusal uid node s
  reached-IsRefusal (err v) uid s = deny-IsRefusal _ (failed_external_reachability v) s refl

  judge-IsRefusal :
      (r : ExternalReachability) (c : ConfigSettings) (require : Bool) (ip : IpAddr) (uid : U)
      (s : Socket D)
      → IsRefusal s (judge C a r c require ip uid s)
  unfolding judge
  judge-IsRefusal not_required c require ip uid s =
      elim (Bool-cases (is_peer_whitelisted c ip client)) [
        | inl e ↦ rw e (grant_IsRefusal uid client s)
        | inr e ↦ rw e (deny-IsRefusal _ (client_not_whitelisted ip) s refl)
      ]
  judge-IsRefusal (required addrs) c require ip uid s =
      elim (Bool-cases (is_peer_whitelisted c ip node)) [
        | inr e ↦ rw e (deny-IsRefusal _ (node_not_whitelisted ip) s refl)
        | inl e ↦ elim (Bool-cases require) [
          | inr f ↦ rw (e, f) (grant_IsRefusal uid node s)
          | inl f ↦ rw (e, f) (reached-IsRefusal (reach C a addrs) uid s)
        ]
      ]

  with_addr-IsRefusal :
      (r : Result (SocketError C.Error) SocketAddr) (req : BootstrapRequest U) (c : ConfigSettings)
      (require : Bool) (s : Socket D)
      → IsRefusal s (with_addr C a r req c require s)
  unfolding with_addr
  with_addr-IsRefusal (err e) req c require s =
      no_reason s (Front.drop s) (socket_error e) (drop-inner s) refl
  with_addr-IsRefusal (ok addr) req c require s =
      judge-IsRefusal req.ext_reachability c require addr.ip req.uid s

  -- Whatever the request and the environment, an error leaves the socket dropped, and where a
  -- reason goes with the error and the socket was alive, the peer was sent that reason and then
  -- the shutdown, and nothing else.
  pub bootstrap_accept-IsRefusal :
      (req : BootstrapRequest U) (s : Socket D) → IsRefusal s (bootstrap_accept C a req s).1
  unfolding bootstrap_accept
  bootstrap_accept-IsRefusal req s = elim (Bool-cases (same a.uids.eq a.our_uid req.uid)) [
    | inl e ↦ rw e (no_reason s (Front.drop s) connection_from_ourself (drop-inner s) refl)
    | inr e ↦
        elim (Bool-cases
          (same NameHash-discrete (network_name_hash a.sha3_256 a.config.cfg) req.name_hash)) [
            | inr f ↦ rw (e, f) (deny-IsRefusal _ (invalid_name_hash req.name_hash) s refl)
            | inl f ↦
                rw (e, f)
                  (with_addr-IsRefusal (Front.peer_addr C s) req (reloaded C a).cfg
                    (require_reachability a.config.cfg.dev) s)
          ]
  ]

  pub refusal_told :
      (s : Socket D) (out : Accepted C a) {e : BootstrapAcceptError C.Error}
      → IsRefusal s out
      → out.1 ≡ err e
      → (i : Inner) (r : BootstrapDenyReason) → s.inner ≡ some i
      → reason_of e ≡ some r
      → out.0.outbox ≡ s.outbox ++ send 0 (C.serialise (bootstrap_denied r)) ∷ shutdown ∷ []
  refusal_told s (s', ok p) h e i r live k = cc
  refusal_told s (s', err x) h e i r live k = h.1 i r live (ground arith)

  -- What the peer was told by a refusal with the given reason, if it was there to be told.
  abbrev pub Tells : Option BootstrapDenyReason → Option Inner → Socket D → Socket D → Type 0
  Tells (some r) (some i) s s' =
      s'.outbox ≡ s.outbox ++ send 0 (C.serialise (bootstrap_denied r)) ∷ shutdown ∷ []
  Tells (some r) none s s' = Unit {0}
  Tells none i s s' = Unit {0}

  tells :
      (reason : Option BootstrapDenyReason) (inner : Option Inner) (s s' : Socket D)
      → ((i : Inner) (r : BootstrapDenyReason)
          → inner ≡ some i
          → reason ≡ some r
          → s'.outbox ≡ s.outbox ++ send 0 (C.serialise (bootstrap_denied r)) ∷ shutdown ∷ [])
      → Tells reason inner s s'
  tells (some r) (some i) s s' h = h i r refl refl
  tells (some r) none s s' h = tt
  tells none i s s' h = tt

  refused_out :
      (s : Socket D) (out : Accepted C a) {e : BootstrapAcceptError C.Error}
      → IsRefusal s out
      → out.1 ≡ err e
      → (out.0.inner ≡ none) × Tells (reason_of e) s.inner s out.0
  refused_out s (s', ok p) h k = cc
  refused_out s (s', err x) {e} h k = (
    h.0,
    tells (reason_of e) s.inner s s' (λ i r live q. refusal_told s (s', err x) h k i r live q),
  )

  -- A request that is not granted leaves a dead socket. If the error has a reason that the messages
  -- know and the socket was alive, the peer was sent that reason, then the shutdown, and no more.
  pub bootstrap_accept_refused :
      (req : BootstrapRequest U) (s : Socket D) {e : BootstrapAcceptError C.Error}
      → (bootstrap_accept C a req s).1.1 ≡ err e
      → ((bootstrap_accept C a req s).1.0.inner ≡ none)
        × Tells (reason_of e) s.inner s (bootstrap_accept C a req s).1.0
  bootstrap_accept_refused req s h =
      refused_out s (bootstrap_accept C a req s).1 (bootstrap_accept-IsRefusal req s) h
