-- ===== src/Bootstrap/Accept.antt =====
-- crust/src/net/peer/connect/bootstrap_acceptor.rs: the handshake of the accepting side. Each
-- future is the value that it resolves to. An outgoing connection with its time limit, the
-- combinator `first_ok` and the timers of a peer are parameters.
pub mod Decision
pub mod Refusal
use crust_futures.Base.{
  ℕ, ◌≡◌, List, [], ◌∷◌, ◌++◌, map, keep, Option, none, some, Bool, true, false, not, Result, ok,
  err, map_err, ◌>>=◌, Memᴰ, same, if◌then◌else◌,
}
use crust_futures.Addr.{SocketAddr, IpAddr, ip_addr_is_global, CrustUser, node, client, Uid}
use crust_futures.Net.{IoError, Codec, SocketError, Race}
use crust_futures.Config.{
  Text, ConfigSettings, ConfigWrapper, DevConfigSettings, reload, network_name_hash,
  is_peer_whitelisted,
}
use crust_futures.Handshake.{
  NameHash, NameHash-discrete, ExternalReachability, not_required, required, BootstrapRequest,
  BootstrapDenyReason, HandshakeMessage, bootstrap_granted, bootstrap_denied,
}
use crust_futures.Socket.Front
use crust_futures.Socket.Front.{Socket}
use crust_futures.Peer.{Peer, from_handshaken_socket}

pub data BootstrapAcceptError (S : Type 0) : Type 0 where
  socket_error : SocketError S → BootstrapAcceptError S
  disconnected connection_from_ourself : BootstrapAcceptError S
  invalid_name_hash : NameHash → BootstrapAcceptError S
  node_not_whitelisted : IpAddr → BootstrapAcceptError S
  failed_external_reachability : List IoError → BootstrapAcceptError S
  client_not_whitelisted : IpAddr → BootstrapAcceptError S

-- What the accepting side has at hand besides the request and the socket.
pub record Acceptor (U D E : Type 0) : Type 0 where
  pub uids : Uid U
  pub our_uid : U
  pub sha3_256 : Text → NameHash
  pub config : ConfigWrapper
  -- What a reload of the configuration reads.
  pub on_disc : Result E ConfigSettings
  -- What connecting to an address within three seconds resolves to.
  pub connect : SocketAddr → Result IoError (Unit {0})
  pub first_ok : Race IoError (Unit {0})
  -- The time, and whether the reactor has timers, when the peer is made.
  pub now : ℕ
  pub timers : Result IoError (Unit {0})

-- `config.read().dev.as_ref().map_or(true, ..)`.
pub require_reachability : Option DevConfigSettings → Bool
require_reachability none = true
require_reachability (some dev) = not dev.disable_external_reachability_requirement

module _ {U D E : Type 0} (C : Codec (HandshakeMessage U) D) (a : Acceptor U D E) where
  open a use {uids, our_uid, sha3_256, on_disc, connect, first_ok, now, timers}

  abbrev pub Accepted : Type 0
  Accepted = Socket D × Result (BootstrapAcceptError C.Error) (Peer U D)

  -- The end of a refusal: the message is sent, and the socket is dropped.
  pub deny : BootstrapDenyReason → BootstrapAcceptError C.Error → Socket D → Accepted
  deny reason e s =
      let (s', r) = Front.start_send C 0 (bootstrap_denied reason) s in
      (Front.drop s', map_err socket_error r >>= λ _. err e)

  made : Result IoError (Peer U D) → Socket D → Accepted
  made (ok p) s = (s, ok p)
  made (err e) s = (Front.drop s, err (socket_error (SocketError.io e)))

  -- `from_handshaken_socket` behind a message that could be sent. Without a peer the socket is
  -- dropped.
  handshaken : Result (SocketError C.Error) (Unit {0}) → U → CrustUser → Socket D → Accepted
  unfolding made
  handshaken (err e) their_uid kind s = (Front.drop s, err (socket_error e))
  handshaken (ok _) their_uid kind s = made (from_handshaken_socket now timers s their_uid kind) s

  pub grant_bootstrap : U → CrustUser → Socket D → Accepted
  unfolding handshaken
  grant_bootstrap their_uid kind s =
      let (s', r) = Front.start_send C 0 (bootstrap_granted our_uid) s in
      handshaken r their_uid kind s'

  -- The external reachability check: connect back to the global ones of the peer's addresses.
  pub reach : List SocketAddr → Result (List IoError) (Unit {0})
  reach direct_listeners =
      first_ok.apply (map connect (keep (λ addr. ip_addr_is_global addr.ip) direct_listeners))

  reached : Result (List IoError) (Unit {0}) → U → Socket D → Accepted
  unfolding deny grant_bootstrap
  reached (ok _) their_uid s = grant_bootstrap their_uid node s
  reached (err v) their_uid s =
      deny BootstrapDenyReason.failed_external_reachability (failed_external_reachability v) s

  -- The `match` on the reachability that the request asks for, with the settings as reloaded and
  -- the address of the peer.
  judge : ExternalReachability → ConfigSettings → Bool → IpAddr → U → Socket D → Accepted
  unfolding reached reach
  judge (required direct_listeners) c require their_ip their_uid s =
      if not (is_peer_whitelisted c their_ip node)
      then deny BootstrapDenyReason.node_not_whitelisted (node_not_whitelisted their_ip) s
      else if not require
      then grant_bootstrap their_uid node s
      else reached (reach direct_listeners) their_uid s
  judge not_required c require their_ip their_uid s =
      if not (is_peer_whitelisted c their_ip client)
      then deny BootstrapDenyReason.client_not_whitelisted (client_not_whitelisted their_ip) s
      else grant_bootstrap their_uid client s

  with_addr :
      Result (SocketError C.Error) SocketAddr
      → BootstrapRequest U
      → ConfigSettings
      → Bool
      → Socket D
      → Accepted
  unfolding judge
  with_addr (err e) req c require s = (Front.drop s, err (socket_error e))
  with_addr (ok addr) req c require s = judge req.ext_reachability c require addr.ip req.uid s

  -- The configuration after the reload; an error of it is only logged.
  pub reloaded : ConfigWrapper
  reloaded = (reload on_disc a.config).0

  unfoldable pub bootstrap_accept : BootstrapRequest U → Socket D → ConfigWrapper × Accepted
  unfolding with_addr require_reachability reloaded
  bootstrap_accept req s =
      if same uids.eq our_uid req.uid
      then (a.config, (Front.drop s, err connection_from_ourself))
      else if not (same NameHash-discrete (network_name_hash sha3_256 a.config.cfg) req.name_hash)
      then (
        a.config,
        deny BootstrapDenyReason.invalid_name_hash (invalid_name_hash req.name_hash) s,
      )
      else (
        reloaded,
        with_addr (Front.peer_addr C s) req reloaded.cfg (require_reachability a.config.cfg.dev) s,
      )
