-- ===== src/Connect/Settled.antt =====
-- crust/src/net/peer/connect/connect.rs: what a rendezvous that succeeds has gone through.
use crust_futures.Base.{
  ◌≡◌, refl, sym, ap, ◌∙◌, List, [], ◌∷◌, ◌++◌, map, Option, none, some, true, false, Result, ok,
  err, map_err, bind_ok, map_err_ok, somes, of_Memᴰ-somes, of_Memᴰ-map, Memᴰ, same, Bool-cases,
  subst, if◌then◌else◌, inl, inr,
}
use crust_futures.Addr.{SocketAddr, node, Uid}
use crust_futures.Net.{IoError, Codec}
use crust_futures.Config.{ConfigSettings}
use crust_futures.Handshake.{NameHash, HandshakeMessage, choose_connection}
use crust_futures.ConnectionInfo.{PrivConnectionInfo, PubConnectionInfo}
use crust_futures.HolePunch.{Attempted}
use crust_futures.Socket.Task.{send}
use crust_futures.Socket.Front
use crust_futures.Socket.Front.{Socket, Inner}
use crust_futures.Socket.Front.Lifecycle.{start_send-sent, Says}
use crust_futures.Peer.{Peer, from_handshaken_socket_ok}
use crust_futures.Connect.{
  SingleConnectionError, connect_io, choose_error, all_connections_failed, Talk, Attempt, Shaken,
  World, heard, frame, handshake, make_peer, choose_on, choose, on_choice, await_choice, be_chosen,
  chooses, punched, attempts, settle, connect,
}
use crust_futures.Connect.Peers.{IsVouched, IsSocketOf, choice_of, heard-frame, handshake_ok}

module _ {U D : Type 0} (C : Codec (HandshakeMessage U) D) where
  -- Either we chose the connection, and its socket is the peer's, on which we told the other side
  -- so behind our request; or the other side chose it, and its socket is the peer's as it was.
  pub data IsChosen (uids : Uid U) (our_uid their_uid : U) (name_hash : NameHash) (a : Attempt U D)
      (p : Peer U D) : Type 0 where
    by_us :
        (s : Socket D)
        → chooses uids our_uid their_uid ≡ true
        → IsSocketOf C our_uid name_hash a s
        → p.socket ≡ (record s { outbox = s.outbox ++ send 0 (C.serialise choose_connection) ∷ [] })
        → IsChosen uids our_uid their_uid name_hash a p
    by_them :
        (f : Result IoError (Option D))
        → chooses uids our_uid their_uid ≡ false
        → choice_of C a ≡ some f
        → Says C f choose_connection
        → IsSocketOf C our_uid name_hash a p.socket
        → IsChosen uids our_uid their_uid name_hash a p

module _ {U D : Type 0} (C : Codec (HandshakeMessage U) D) (uids : Uid U) (w : World U D C.Error)
    (our_uid their_uid : U) (name_hash : NameHash) where
  make_peer_ok :
      (s : Socket D) {p : Peer U D}
      → make_peer C uids w our_uid their_uid name_hash s ≡ ok p
      → (p.their_uid ≡ their_uid) × (p.kind ≡ node) × (p.socket ≡ s)
  unfolding make_peer
  make_peer_ok s h = from_handshaken_socket_ok w.clock.now w.clock.timers s their_uid node h

  choose_ok :
      (shaken : List (Result (SingleConnectionError U C.Error) (Shaken D))) {p : Peer U D}
      → choose C uids w our_uid their_uid name_hash shaken ≡ ok p
      → (x : Shaken D) × Memᴰ (ok x) shaken
        × (p.their_uid ≡ their_uid)
        × (p.kind ≡ node)
        × (p.socket
            ≡ (record (x.0) { outbox = x.0.outbox ++ send 0 (C.serialise choose_connection) ∷ [] }))
  unfolding choose choose_on
  choose_ok shaken {p} h =
      let (x, e, k) =
        bind_ok (map_err all_connections_failed (w.sockets.apply shaken))
          (choose_on C uids w our_uid their_uid name_hash) h in
      let r = Front.start_send C 0 choose_connection x.0 in
      let (u, e', k') =
        bind_ok (map_err choose_error r.1)
          (λ _. map_err connect_io (make_peer C uids w our_uid their_uid name_hash r.0)) k in
      let (of_uid, of_kind, of_socket) = make_peer_ok r.0 (map_err_ok connect_io _ k') in
      (
        x,
        w.sockets.apply_ok shaken x (map_err_ok all_connections_failed _ e),
        of_uid,
        of_kind,
        of_socket ∙ start_send-sent C 0 choose_connection x.0 (map_err_ok choose_error r.1 e'),
      )

  on_choice_ok :
      (m : HandshakeMessage U) (s : Socket D) {p : Peer U D}
      → on_choice C uids w our_uid their_uid name_hash m s ≡ ok p
      → (m ≡ choose_connection) × (p.their_uid ≡ their_uid) × (p.kind ≡ node) × (p.socket ≡ s)
  unfolding on_choice
  on_choice_ok choose_connection s h =
      let (u, k, q) = make_peer_ok s (map_err_ok SingleConnectionError.io _ h) in (refl, u, k, q)
  on_choice_ok (HandshakeMessage.bootstrap_request r) s h = cc
  on_choice_ok (HandshakeMessage.bootstrap_granted u) s h = cc
  on_choice_ok (HandshakeMessage.bootstrap_denied r) s h = cc
  on_choice_ok HandshakeMessage.echo_addr_req s h = cc
  on_choice_ok (HandshakeMessage.echo_addr_resp a) s h = cc
  on_choice_ok (HandshakeMessage.connect r) s h = cc

  await_ok :
      (x : Result (SingleConnectionError U C.Error) (Shaken D)) {p : Peer U D}
      → await_choice C uids w our_uid their_uid name_hash x ≡ some (ok p)
      → (y : Shaken D) × (f : Result IoError (Option D)) × (x ≡ ok y)
        × (y.1 ≡ some f)
        × Says C f choose_connection
        × (p.their_uid ≡ their_uid)
        × (p.kind ≡ node)
        × (p.socket ≡ y.0)
  unfolding await_choice
  await_ok (err e) h = cc
  await_ok (ok (s, none)) h = cc
  await_ok (ok (s, some f)) {p} h =
      let q : heard C uids w our_uid their_uid name_hash
            (on_choice C uids w our_uid their_uid name_hash)
            (Front.poll C (frame C uids w our_uid their_uid name_hash f) s)
          ≡ ok p =
        cc in
      let (m, (d, of_frame, des), k) =
        heard-frame C uids w our_uid their_uid name_hash
          (on_choice C uids w our_uid their_uid name_hash) f s q in
      let (is_choice, u, k', same_socket) = on_choice_ok m s k in
      ((s, some f), f, refl, refl, (d, of_frame, des ∙ ap ok is_choice), u, k', same_socket)

  -- One of the connections that were tried has gone through its handshake, and one side chose it.
  settle_ok :
      (tried : List (Attempt U D)) {p : Peer U D}
      → (if chooses uids our_uid their_uid
          then choose C uids w our_uid their_uid name_hash
              (map (handshake C uids w our_uid their_uid name_hash) tried)
          else be_chosen C uids w our_uid their_uid name_hash
              (map (handshake C uids w our_uid their_uid name_hash) tried))
        ≡ ok p
      → (a : Attempt U D) × Memᴰ a tried
        × IsVouched C their_uid name_hash a
        × IsChosen C uids our_uid their_uid name_hash a p
        × (p.their_uid ≡ their_uid)
        × (p.kind ≡ node)
  unfolding be_chosen
  settle_ok tried h =
      let shaken = map (handshake C uids w our_uid their_uid name_hash) tried in
      elim (Bool-cases (chooses uids our_uid their_uid)) [
        | inl c ↦
            let (x, m, u, k, told) = choose_ok shaken (rw c at h) in
            let (a, e, tried_it) =
              of_Memᴰ-map (handshake C uids w our_uid their_uid name_hash) tried (ok x) m in
            let (vouched, of_choice, on_it) =
              handshake_ok C uids w our_uid their_uid name_hash a (sym e) in
            (a, tried_it, vouched, by_us x.0 c on_it told, u, k)
        | inr c ↦
            let awaited = map (await_choice C uids w our_uid their_uid name_hash) shaken in
            let m =
              w.peers.apply_ok (somes awaited) _
                (map_err_ok all_connections_failed _ (rw c at h)) in
            let (r, e, there) =
              of_Memᴰ-map (await_choice C uids w our_uid their_uid name_hash) shaken (some (ok _))
                (of_Memᴰ-somes awaited (ok _) m) in
            let (y, f, q, later, says, u, k, same_socket) = await_ok r (sym e) in
            let (a, e', tried_it) =
              of_Memᴰ-map (handshake C uids w our_uid their_uid name_hash) tried r there in
            let (vouched, of_choice, on_it) =
              handshake_ok C uids w our_uid their_uid name_hash a (sym e' ∙ q) in
            (
              a,
              tried_it,
              vouched,
              by_them f c (sym of_choice ∙ later) says
                  (subst (IsSocketOf C our_uid name_hash a) (sym same_socket) on_it),
              u,
              k,
            )
      ]

module _ {U D : Type 0} (C : Codec (HandshakeMessage U) D) (uids : Uid U) (w : World U D C.Error)
    (name_hash : NameHash) (our_info : PrivConnectionInfo U) (their_info : PubConnectionInfo U)
    (config : ConfigSettings) where
  -- What is behind a peer that `connect` gives.
  pub record IsRendezvous (p : Peer U D) : Type 0 where
    pub others : same uids.eq our_info.id their_info.id ≡ false
    pub of_uid : p.their_uid ≡ their_info.id
    pub of_kind : p.kind ≡ node
    pub holes : List (Attempted (SocketAddr × Talk D))
    pub punches :
        punched C uids w name_hash our_info their_info config our_info.hole_punch_socket ≡ ok holes
    pub attempt : Attempt U D
    pub is_tried : Memᴰ attempt (attempts C uids w name_hash our_info their_info config holes)
    pub is_vouched : IsVouched C their_info.id name_hash attempt
    pub is_chosen : IsChosen C uids our_info.id their_info.id name_hash attempt p

  -- A peer that `connect` gives has the uid that we meant to connect to, which is not ours. On one of
  -- the connections that we tried, its request for our network came and we sent ours, and the socket
  -- of that connection is the peer's: either we chose it and told the other side so on it, or the
  -- other side did and we heard it there.
  pub connect_ok :
      {p : Peer U D} → connect C uids w name_hash our_info their_info config ≡ ok p → IsRendezvous p
  unfolding connect settle
  connect_ok h = elim (Bool-cases (same uids.eq our_info.id their_info.id)) [
    | inl e ↦ let z = rw e at h in cc
    | inr e ↦
        let (holes, punches, k) =
          bind_ok
            (map_err connect_io
              (punched C uids w name_hash our_info their_info config our_info.hole_punch_socket))
            _ (rw e at h) in
        let (timer, e', k') = bind_ok (map_err connect_io w.timeout) _ k in
        let (a, tried, vouched, chosen, u, kind) =
          settle_ok C uids w our_info.id their_info.id name_hash
            (attempts C uids w name_hash our_info their_info config holes) k' in
        record {
          others = e;
          of_uid = u;
          of_kind = kind;
          holes = holes;
          punches = map_err_ok connect_io _ punches;
          attempt = a;
          is_tried = tried;
          is_vouched = vouched;
          is_chosen = chosen;
        }
  ]
