-- ===== src/Bootstrap/Accept/Decision.antt =====
-- crust/src/net/peer/connect/bootstrap_acceptor.rs: whom `bootstrap_accept` lets in.
use crust_futures.Base.{
  ◌≡◌, refl, sym, ◌∙◌, ◌≢◌, ◌⊎◌, inl, inr, List, [], ◌∷◌, ◌++◌, map, keep, true, false, Result, ok,
  err, map_err, ◌>>=◌, Memᴰ, Memᴰ-cons, same, same→eq, eq→same, Bool-cases, arith,
}
use crust_futures.Addr.{SocketAddr, IpAddr, ip_addr_is_global, CrustUser, node, client}
use crust_futures.Net.{IoError, Codec, SocketError}
use crust_futures.Config.{ConfigSettings, network_name_hash, is_peer_whitelisted}
use crust_futures.Handshake.{
  NameHash-discrete, ExternalReachability, not_required, required, BootstrapRequest,
  BootstrapDenyReason, HandshakeMessage, bootstrap_granted, bootstrap_denied,
}
use crust_futures.Socket.Task.{send}
use crust_futures.Socket.Front
use crust_futures.Socket.Front.{Socket}
use crust_futures.Socket.Front.Lifecycle.{start_send-ok}
use crust_futures.Peer.{Peer, from_handshaken_socket}
use crust_futures.Bootstrap.Accept.{
  BootstrapAcceptError, connection_from_ourself, invalid_name_hash, Acceptor, require_reachability,
  made, deny, handshaken, grant_bootstrap, reach, reached, judge, with_addr, reloaded,
  bootstrap_accept,
}

-- The kind of user that a request makes its sender.
abbrev pub kind_of : ExternalReachability → CrustUser
kind_of (required _) = node
kind_of not_required = client

module _ {U D E : Type 0} (C : Codec (HandshakeMessage U) D) (a : Acceptor U D E) where
  open a use {uids, our_uid, sha3_256, connect}

  -- A peer of the given identity and kind, whose socket was just sent the grant with our uid.
  pub record IsGranted (uid : U) (kind : CrustUser) (s : Socket D) (p : Peer U D) : Type 0 where
    pub of_uid : p.their_uid ≡ uid
    pub of_kind : p.kind ≡ kind
    pub told : p.socket.outbox ≡ s.outbox ++ send 0 (C.serialise (bootstrap_granted our_uid)) ∷ []

  -- One of the addresses is global and accepts a connection from us.
  abbrev pub IsReachable : List SocketAddr → Type 0
  IsReachable addrs =
      (addr : SocketAddr) × Memᴰ addr addrs
      × (ip_addr_is_global addr.ip ≡ true)
      × (connect addr ≡ ok tt)

  abbrev pub Reaches : ExternalReachability → Type 0
  Reaches not_required = Unit {0}
  Reaches (required addrs) = (require_reachability a.config.cfg.dev ≡ false) ⊎ IsReachable addrs

  deny_not_ok :
      (reason : BootstrapDenyReason) (e : BootstrapAcceptError C.Error) (s : Socket D)
      {p : Peer U D}
      → (deny C a reason e s).1 ≢ ok p
  unfolding deny
  deny_not_ok reason e s h = go (Front.start_send C 0 (bootstrap_denied reason) s).1 h
    where
      go :
          (r : Result (SocketError C.Error) (Unit {0})) {p : Peer U D}
          → (map_err BootstrapAcceptError.socket_error r >>= λ _. err e) ≢ ok p
      go (ok x) h = cc
      go (err x) h = cc

  made_ok :
      (t : Result IoError (Unit {0})) (uid : U) (kind : CrustUser) (s0 s : Socket D) {p : Peer U D}
      → s.outbox ≡ s0.outbox ++ send 0 (C.serialise (bootstrap_granted our_uid)) ∷ []
      → (made C a (from_handshaken_socket a.now t s uid kind) s).1 ≡ ok p
      → IsGranted uid kind s0 p
  unfolding made from_handshaken_socket
  made_ok (ok y) uid kind s0 s {p} sent h = record {
    of_uid = ground arith;
    of_kind = ground arith;
    told = ground arith;
  }
  made_ok (err y) uid kind s0 s sent h = cc

  handshaken_ok :
      (r : Result (SocketError C.Error) (Unit {0})) (uid : U) (kind : CrustUser) (s0 s : Socket D)
      {p : Peer U D}
      → ((x : Unit {0})
          → r ≡ ok x
          → s.outbox ≡ s0.outbox ++ send 0 (C.serialise (bootstrap_granted our_uid)) ∷ [])
      → (handshaken C a r uid kind s).1 ≡ ok p
      → IsGranted uid kind s0 p
  unfolding handshaken
  handshaken_ok (err e) uid kind s0 s sent h = cc
  handshaken_ok (ok x) uid kind s0 s sent h = made_ok a.timers uid kind s0 s (sent x refl) h

  grant_ok :
      (uid : U) (kind : CrustUser) (s : Socket D) {p : Peer U D}
      → (grant_bootstrap C a uid kind s).1 ≡ ok p
      → IsGranted uid kind s p
  unfolding grant_bootstrap
  grant_ok uid kind s h =
      let m = bootstrap_granted our_uid in
      let (s', r) = Front.start_send C 0 m s in
      handshaken_ok r uid kind s s' (λ x e. start_send-ok C 0 m s {x = x} e) h

  -- A success of the reachability check comes from a global address that accepted a connection.
  reach_ok : (addrs : List SocketAddr) (x : Unit {0}) → reach C a addrs ≡ ok x → IsReachable addrs
  unfolding reach
  reach_ok addrs x h = found addrs (a.first_ok.apply_ok _ x h)
    where
      found :
          (l : List SocketAddr)
          → Memᴰ (ok x) (map connect (keep (λ addr. ip_addr_is_global addr.ip) l))
          → IsReachable l
      found [] m = elim m [ ]
      found (y ∷ l) m = elim (Bool-cases (ip_addr_is_global y.ip)) [
        | inr e ↦ let (z, mem, g, c) = found l (rw e at m) in (z, Memᴰ.tail mem, g, c)
        | inl e ↦ elim (Memᴰ-cons (rw e at m)) [
          | inl q ↦ (y, Memᴰ.head refl, e, sym q)
          | inr m' ↦ let (z, mem, g, c) = found l m' in (z, Memᴰ.tail mem, g, c)
        ]
      ]

  reached_ok :
      (r : Result (List IoError) (Unit {0})) (uid : U) (s : Socket D) {p : Peer U D}
      → (reached C a r uid s).1 ≡ ok p
      → IsGranted uid node s p × (r ≡ ok tt)
  unfolding reached
  reached_ok (ok x) uid s h = (grant_ok uid node s h, refl)
  reached_ok (err v) uid s h = absurd (deny_not_ok _ _ s h)

  judge_ok :
      (r : ExternalReachability) (c : ConfigSettings) (ip : IpAddr) (uid : U) (s : Socket D)
      {p : Peer U D}
      → (judge C a r c (require_reachability a.config.cfg.dev) ip uid s).1 ≡ ok p
      → IsGranted uid (kind_of r) s p × (is_peer_whitelisted c ip (kind_of r) ≡ true) × Reaches r
  unfolding judge
  judge_ok not_required c ip uid s h = elim (Bool-cases (is_peer_whitelisted c ip client)) [
    | inl e ↦ (grant_ok uid client s (rw e at h), e, tt)
    | inr e ↦ absurd (deny_not_ok _ _ s (rw e at h))
  ]
  judge_ok (required addrs) c ip uid s h = elim (Bool-cases (is_peer_whitelisted c ip node)) [
    | inr e ↦ absurd (deny_not_ok _ _ s (rw e at h))
    | inl e ↦ elim (Bool-cases (require_reachability a.config.cfg.dev)) [
      | inr f ↦ (grant_ok uid node s (rw (e, f) at h), e, inl f)
      | inl f ↦
          let (granted, found) = reached_ok (reach C a addrs) uid s (rw (e, f) at h) in
          (granted, e, inr (reach_ok addrs tt found))
    ]
  ]

  -- What holds of a request that was granted.
  pub record Admits (req : BootstrapRequest U) (s : Socket D) (p : Peer U D) : Type 0 where
    pub not_self : our_uid ≢ req.uid
    pub same_network : network_name_hash sha3_256 a.config.cfg ≡ req.name_hash
    pub granted : IsGranted req.uid (kind_of req.ext_reachability) s p
    pub from :
        (addr : SocketAddr) × (Front.peer_addr C s ≡ ok addr)
        × (is_peer_whitelisted (reloaded C a).cfg addr.ip (kind_of req.ext_reachability) ≡ true)
    pub reaches : Reaches req.ext_reachability

  with_addr_ok :
      (r : Result (SocketError C.Error) SocketAddr) (req : BootstrapRequest U) (c : ConfigSettings)
      (s : Socket D) {p : Peer U D}
      → (with_addr C a r req c (require_reachability a.config.cfg.dev) s).1 ≡ ok p
      → IsGranted req.uid (kind_of req.ext_reachability) s p
        × Reaches req.ext_reachability
        × ((addr : SocketAddr) × (r ≡ ok addr)
            × (is_peer_whitelisted c addr.ip (kind_of req.ext_reachability) ≡ true))
  unfolding with_addr
  with_addr_ok (err e) req c s h = cc
  with_addr_ok (ok addr) req c s h =
      let (g, w, r) = judge_ok req.ext_reachability c addr.ip req.uid s h in (g, r, (addr, refl, w))

  -- A peer comes out only of a request of somebody else, from our network, whose address is on the
  -- white list of its kind after the reload, and, for a node, with one of its global addresses
  -- connected to unless the configuration before the reload waives that. The peer has the
  -- requester's identity and kind, and was sent the grant with our uid.
  pub bootstrap_accept_ok :
      (req : BootstrapRequest U) (s : Socket D) {p : Peer U D}
      → (bootstrap_accept C a req s).1.1 ≡ ok p
      → Admits req s p
  unfolding bootstrap_accept
  bootstrap_accept_ok req s {p} h = elim (Bool-cases (same uids.eq our_uid req.uid)) [
    | inl e ↦ let h' : err connection_from_ourself ≡ ok p = rw e at h in cc
    | inr e ↦
        elim (Bool-cases
          (same NameHash-discrete (network_name_hash sha3_256 a.config.cfg) req.name_hash)) [
            | inr f ↦ absurd (
                deny_not_ok BootstrapDenyReason.invalid_name_hash (invalid_name_hash req.name_hash)
                  s {p = p} (rw (e, f) at h))
            | inl f ↦
                let (g, r, w) =
                  with_addr_ok (Front.peer_addr C s) req (reloaded C a).cfg s {p = p}
                    (rw (e, f) at h) in
                record {
                  not_self = λ q.
                      let clash : false ≡ true = sym e ∙ eq→same uids.eq our_uid req.uid q in cc;
                  same_network = same→eq NameHash-discrete _ _ f;
                  granted = g;
                  from = w;
                  reaches = r;
                }
          ]
  ]
