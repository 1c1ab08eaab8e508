-- ===== src/Connect/Peers.antt =====
-- crust/src/net/peer/connect/connect.rs: who is at the other end of a connection.
use crust_futures.Base.{
  ◌≡◌, refl, sym, ap, ◌∙◌, [], ◌∷◌, ◌++◌, Option, none, some, Result, ok, err, map_err, map_err_ok,
  ◌>>=◌, bind_ok, same, same→eq, eq→same, Bool-cases, inl, inr, ready, not_ready,
}
use crust_futures.Peer.{Peer, from_handshaken_socket}
use crust_futures.Addr.{node, Uid}
use crust_futures.Net.{IoError, Codec, SocketError}
use crust_futures.Handshake.{NameHash, NameHash-discrete, ConnectRequest, HandshakeMessage}
use crust_futures.Socket.Task.{send}
use crust_futures.Socket.Front
use crust_futures.Socket.Front.{Socket, Inner}
use crust_futures.Socket.Front.Lifecycle.{poll_gives, Says, start_send-sent, start_send-alive}
use crust_futures.Bootstrap.Try.{Reply, arrives, too_late}
use crust_futures.Connect.{
  SingleConnectionError, Attempt, came, went, Shaken, World, validate_connect_request, shake, heard,
  frame, replied, our_connect_request, handshake, make_peer,
}

module _ {U : Type 0} (uids : Uid U) where
  -- A request is accepted exactly if it is one of the uid and of the network.
  pub validate_ok :
      {S : Type 0} (uid : U) (hash : NameHash) (req : ConnectRequest U)
      → validate_connect_request uids {S = S} uid hash req ≡ ok tt
      → req ≡ (record { uid = uid; name_hash = hash })
  unfolding validate_connect_request
  validate_ok uid hash req h = elim (Bool-cases (same uids.eq req.uid uid)) [
    | inr e ↦ let z = rw e at h in cc
    | inl e ↦ elim (Bool-cases (same NameHash-discrete hash req.name_hash)) [
      | inr e' ↦ let z = rw (e, e') at h in cc
      | inl e' ↦
          ap (λ u. record { uid = u; name_hash = req.name_hash }) (same→eq uids.eq req.uid uid e)
          ∙ ap (λ n. record { uid = uid; name_hash = n })
              (sym (same→eq NameHash-discrete hash req.name_hash e'))
    ]
  ]

  pub validated :
      {S : Type 0} (uid : U) (hash : NameHash)
      → validate_connect_request uids {S = S} uid hash (record { uid = uid; name_hash = hash })
        ≡ ok tt
  unfolding validate_connect_request
  validated uid hash =
      rw (eq→same uids.eq uid uid refl, eq→same NameHash-discrete hash hash refl) refl

module _ {U D : Type 0} (C : Codec (HandshakeMessage U) D) where
  -- On this connection the other side has sent a request of a uid, for a network.
  abbrev pub IsVouched : U → NameHash → Attempt U D → Type 0
  IsVouched uid hash (came i) = i.request ≡ (record { uid = uid; name_hash = hash })
  IsVouched uid hash (went (err e)) = ⊥
  IsVouched uid hash (went (ok (addr, talk))) =
      (f : Result IoError (Option D)) × (talk.reply ≡ arrives f)
      × Says C f (HandshakeMessage.connect (record { uid = uid; name_hash = hash }))

  -- A socket is that of a connection, which is live, and the last thing said on it was our request.
  abbrev pub IsSocketOf : U → NameHash → Attempt U D → Socket D → Type 0
  IsSocketOf uid hash (came i) s =
      (j : Inner) × (i.socket.inner ≡ some j)
      × (s ≡ record {
        inner = some j;
        outbox =
            i.socket.outbox
            ++ send 0
                (C.serialise (HandshakeMessage.connect (record { uid = uid; name_hash = hash })))
              ∷ [];
      })
  IsSocketOf uid hash (went (err e)) s = ⊥
  IsSocketOf uid hash (went (ok (addr, talk))) s = s ≡ record {
    inner = some (record { peer_addr = addr });
    outbox =
        send 0 (C.serialise (HandshakeMessage.connect (record { uid = uid; name_hash = hash })))
        ∷ [];
  }

  abbrev pub choice_of : Attempt U D → Option (Result IoError (Option D))
  choice_of (came i) = i.choice
  choice_of (went (err e)) = none
  choice_of (went (ok (addr, talk))) = talk.choice

module _ {U D : Type 0} (C : Codec (HandshakeMessage U) D) (uids : Uid U) (w : World U D C.Error)
    (our_uid their_uid : U) (name_hash : NameHash) where
  pub made :
      (s : Socket D)
      → w.clock.timers ≡ ok tt
      → (p : Peer U D) × (make_peer C uids w our_uid their_uid name_hash s ≡ ok p)
        × (p.their_uid ≡ their_uid)
        × (p.kind ≡ node)
        × (p.socket ≡ s)
  unfolding make_peer from_handshaken_socket
  made s t =
      (_, ap (λ r. from_handshaken_socket w.clock.now r s their_uid node) t, refl, refl, refl)

  heard_ok :
      {A : Type 0} (on : HandshakeMessage U → Socket D → Result (SingleConnectionError U C.Error) A)
      (r : Socket D × Front.Polled C) {a : A}
      → heard C uids w our_uid their_uid name_hash on r ≡ ok a
      → (m : HandshakeMessage U) × (r.1 ≡ ok (ready (some m))) × (on m r.0 ≡ ok a)
  unfolding heard
  heard_ok on (s, ok (ready (some m))) h = (m, refl, h)
  heard_ok on (s, ok (ready none)) h = cc
  heard_ok on (s, ok not_ready) h = cc
  heard_ok on (s, err e) h = cc

  framed :
      (f : Result IoError (Option D)) (d : D)
      → frame C uids w our_uid their_uid name_hash f ≡ ok (ready (some d))
      → f ≡ ok (some d)
  unfolding frame
  framed (ok none) d h = cc
  framed (ok (some x)) d h = let q : x ≡ d = cc in ap (λ y. ok (some y)) q
  framed (err e) d h = cc

  -- A message that is heard was sent, and it is dealt with on the socket as it is.
  pub heard-frame :
      {A : Type 0} (on : HandshakeMessage U → Socket D → Result (SingleConnectionError U C.Error) A)
      (f : Result IoError (Option D)) (s : Socket D) {a : A}
      → heard C uids w our_uid their_uid name_hash on
          (Front.poll C (frame C uids w our_uid their_uid name_hash f) s)
        ≡ ok a
      → (m : HandshakeMessage U) × Says C f m × (on m s ≡ ok a)
  heard-frame on f s h =
      let (m, e, k) =
        heard_ok on (Front.poll C (frame C uids w our_uid their_uid name_hash f) s) h in
      let (d, q, des, same_socket) =
        poll_gives C (frame C uids w our_uid their_uid name_hash f) s m e in
      (m, (d, framed f d q, des), sym (ap (on m) same_socket) ∙ k)

  shake_ok :
      (m : HandshakeMessage U) (s : Socket D) {s' : Socket D}
      → shake C uids w our_uid their_uid name_hash m s ≡ ok s'
      → (m ≡ HandshakeMessage.connect (record { uid = their_uid; name_hash = name_hash }))
        × (s' ≡ s)
  unfolding shake
  shake_ok (HandshakeMessage.connect req) s h =
      let (u, e, q) =
        bind_ok (validate_connect_request uids their_uid name_hash req) (λ _. ok s) h in
      (ap HandshakeMessage.connect (validate_ok uids their_uid name_hash req e), cc)
  shake_ok (HandshakeMessage.bootstrap_request r) s h = cc
  shake_ok (HandshakeMessage.bootstrap_granted u) s h = cc
  shake_ok (HandshakeMessage.bootstrap_denied r) s h = cc
  shake_ok HandshakeMessage.echo_addr_req s h = cc
  shake_ok (HandshakeMessage.echo_addr_resp a) s h = cc
  shake_ok HandshakeMessage.choose_connection s h = cc

  replied_ok :
      (r : Reply D) (s : Socket D) {s' : Socket D}
      → replied C uids w our_uid their_uid name_hash r s ≡ ok s'
      → (f : Result IoError (Option D)) × (r ≡ arrives f)
        × Says C f (HandshakeMessage.connect (record { uid = their_uid; name_hash = name_hash }))
        × (s' ≡ s)
  unfolding replied
  replied_ok too_late s h = cc
  replied_ok (arrives f) s h =
      let (m, (d, q, des), k) = heard-frame (shake C uids w our_uid their_uid name_hash) f s h in
      let (of_request, same_socket) = shake_ok m s k in
      (f, refl, (d, q, des ∙ ap ok of_request), same_socket)

  kept_choice :
      {E A : Type 0} (o : Option (Result IoError (Option D))) (r : Result E A) (s : A → Socket D)
      {x : Shaken D}
      → (r >>= λ a. ok (s a, o)) ≡ ok x
      → x.1 ≡ o
  kept_choice o (ok a) s {x} h = let q : (s a, o) ≡ x = cc in ap (λ y. y.1) (sym q)
  kept_choice o (err e) s h = cc

  kept_socket :
      {E A : Type 0} (o : Option (Result IoError (Option D))) (r : Result E A) (s : A → Socket D)
      {x : Shaken D}
      → (r >>= λ a. ok (s a, o)) ≡ ok x
      → (a : A) × (r ≡ ok a) × (x.0 ≡ s a)
  kept_socket o (ok a) s {x} h = let q : (s a, o) ≡ x = cc in (a, refl, ap (λ y. y.0) (sym q))
  kept_socket o (err e) s h = cc

  -- A handshake succeeds only on a connection on which the other side's request came, and on the
  -- socket of that connection, on which our request was the last thing said.
  pub handshake_ok :
      (a : Attempt U D) {x : Shaken D}
      → handshake C uids w our_uid their_uid name_hash a ≡ ok x
      → IsVouched C their_uid name_hash a
        × (x.1 ≡ choice_of C a)
        × IsSocketOf C our_uid name_hash a x.0
  unfolding handshake our_connect_request Front.wrap_tcp
  handshake_ok (came i) h =
      let (u, e, k) = bind_ok (validate_connect_request uids their_uid name_hash i.request) _ h in
      let m = our_connect_request C uids w our_uid their_uid name_hash in
      let (v, e', q) =
        kept_socket i.choice (map_err SingleConnectionError.socket_error _) (λ _. _) k in
      let sent = map_err_ok SingleConnectionError.socket_error _ e' in
      let (j, live) = start_send-alive C 0 m i.socket sent in
      (
        validate_ok uids their_uid name_hash i.request e,
        kept_choice i.choice (map_err SingleConnectionError.socket_error _) (λ _. _) k,
        (
          j,
          live,
          q
              ∙ start_send-sent C 0 m i.socket sent
              ∙ ap
                  (λ o. record {
                    inner = o;
                    outbox = i.socket.outbox ++ send 0 (C.serialise m) ∷ [];
                  })
                  live,
        ),
      )
  handshake_ok (went (err e)) h = cc
  handshake_ok (went (ok (addr, talk))) {x} h =
      let sent : Socket D × Result (SocketError C.Error) (Unit {0}) =
        Front.start_send C 0 (our_connect_request C uids w our_uid their_uid name_hash)
          (Front.wrap_tcp addr) in
      let got = replied C uids w our_uid their_uid name_hash talk.reply sent.0 in
      let (u, e, k) =
        bind_ok (map_err SingleConnectionError.socket_error sent.1)
          (λ _. got >>= λ s. ok (s, talk.choice)) h in
      let (s, e', k') = bind_ok got (λ s. ok (s, talk.choice)) k in
      let (f, arrived, says, same_socket) = replied_ok talk.reply sent.0 e' in
      (
        (f, arrived, says),
        kept_choice talk.choice got (λ s. s) k,
        (let q : (s, talk.choice) ≡ x = cc in ap (λ y. y.0) (sym q))
            ∙ same_socket
            ∙ start_send-sent C 0 (our_connect_request C uids w our_uid their_uid name_hash)
                (Front.wrap_tcp addr) (map_err_ok SingleConnectionError.socket_error _ e),
      )
