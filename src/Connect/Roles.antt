-- ===== src/Connect/Roles.antt =====
-- crust/src/net/peer/connect/connect.rs: both sides of a rendezvous together.
use crust_futures.Base.{
  ◌≡◌, ◌≢◌, not, refl, sym, ap, ◌∙◌, List, [], ◌∷◌, Option, none, some, Bool, true, false, Result,
  ok, err, map_err, ◌>>=◌, somes, Memᴰ, Bool-cases, if◌then◌else◌, inl, inr,
}
use crust_futures.Addr.{SocketAddr, node, Uid}
use crust_futures.Net.{IoError, Codec, SocketError, Race}
use crust_futures.Handshake.{NameHash, HandshakeMessage, choose_connection}
use crust_futures.Socket.Task.{TaskMsg, send}
use crust_futures.Socket.Front
use crust_futures.Socket.Front.{Socket, Inner}
use crust_futures.Peer.{Peer}
use crust_futures.Bootstrap.Try.{arrives}
use crust_futures.Connect.{
  SingleConnectionError, ConnectError, connect_io, choose_error, all_connections_failed, Attempt,
  came, went, Shaken, World, shake, heard, frame, replied, our_connect_request, handshake,
  make_peer, choose_on, choose, on_choice, await_choice, be_chosen, chooses,
}
use crust_futures.Socket.Front.Lifecycle.{start_send-live, poll-serialise}
use crust_futures.Connect.Peers.{validated, made}

module _ {U : Type 0} (uids : Uid U) where
  -- Of two peers with different uids exactly one chooses the connection.
  pub one_chooses : (a b : U) → a ≢ b → chooses uids a b ≡ not (chooses uids b a)
  unfolding chooses
  one_chooses a b ne = elim (uids.lt_total a b) [
    | inl h ↦ rw (h, uids.lt_asymm a b h) refl
    | inr (inl h) ↦ rw (h, uids.lt_asymm b a h) refl
    | inr (inr e) ↦ absurd (ne e)
  ]

-- A race with one runner.
alone : {E A : Type 0} (R : Race E A) (a : A) → R.apply (ok a ∷ []) ≡ ok a
alone {E} {A} R a = won (R.apply (ok a ∷ [])) refl
  where
    only : {b : A} → Memᴰ {A = Result E A} (ok b) (ok a ∷ []) → b ≡ a
    only (Memᴰ.head e) = cc
    only (Memᴰ.tail m) = elim m [ ]

    won : (r : Result (List E) A) → R.apply (ok a ∷ []) ≡ r → r ≡ ok a
    won (ok b) e = ap ok (only (R.apply_ok (ok a ∷ []) b e))
    won (err es) e = absurd (R.apply_err (ok a ∷ []) es a e (Memᴰ.head refl))

abbrev pub request : {U : Type 0} → U → NameHash → HandshakeMessage U
request uid hash = HandshakeMessage.connect (record { uid = uid; name_hash = hash })

module _ {U D : Type 0} (C : Codec (HandshakeMessage U) D) where
  -- What the side that chooses says behind its request, or not.
  abbrev pub choice_frame : Bool → Option (Result IoError (Option D))
  choice_frame true = some (ok (some (C.serialise choose_connection)))
  choice_frame false = none

  abbrev pub said : Bool → HandshakeMessage U → List (TaskMsg D)
  said true m = send 0 (C.serialise m) ∷ send 0 (C.serialise choose_connection) ∷ []
  said false m = send 0 (C.serialise m) ∷ []

module _ {U D : Type 0} (C : Codec (HandshakeMessage U) D) (uids : Uid U) (w : World U D C.Error)
    (our_uid their_uid : U) (name_hash : NameHash)
    (law : (m : HandshakeMessage U) → C.deserialise (C.serialise m) ≡ ok m) where
  pub came-ok :
      (i : Inner) (o : Option (Result IoError (Option D)))
      → handshake C uids w our_uid their_uid name_hash (
          came (record {
            socket = record { inner = some i; outbox = [] };
            request = record { uid = their_uid; name_hash = name_hash };
            choice = o;
          }))
        ≡ ok (record { inner = some i; outbox = said C false (request our_uid name_hash) }, o)
  unfolding handshake our_connect_request
  came-ok i o =
      let s : Socket D = record { inner = some i; outbox = [] } in
      let onward : Socket D × Result (SocketError C.Error) (Unit {0})
          → Result (SingleConnectionError U C.Error) (Shaken D) =
        λ x. map_err SingleConnectionError.socket_error x.1 >>= λ _. ok (x.0, o) in
      ap (λ v. v >>= λ _. onward (Front.start_send C 0 (request our_uid name_hash) s))
        (validated uids their_uid name_hash)
      ∙ ap onward (start_send-live C 0 (request our_uid name_hash) s refl)

  pub went-ok :
      (addr : SocketAddr) (o : Option (Result IoError (Option D)))
      → handshake C uids w our_uid their_uid name_hash (
          went (
            ok (
              addr,
              record {
                reply = arrives (ok (some (C.serialise (request their_uid name_hash))));
                choice = o;
              },
            )))
        ≡ ok (
          record {
            inner = some (record { peer_addr = addr });
            outbox = said C false (request our_uid name_hash);
          },
          o,
        )
  unfolding handshake replied heard frame shake our_connect_request Front.wrap_tcp
  went-ok addr o =
      let told = request their_uid name_hash in
      let s : Socket D = record {
        inner = some (record { peer_addr = addr });
        outbox = said C false (request our_uid name_hash);
      } in
      let end : Result (SingleConnectionError U C.Error) (Socket D)
          → Result (SingleConnectionError U C.Error) (Shaken D) =
        λ r. r >>= λ s''. ok (s'', o) in
      ap
        (λ x. map_err SingleConnectionError.socket_error x.1 >>= λ _. end (
          replied C uids w our_uid their_uid name_hash (arrives (ok (some (C.serialise told))))
            x.0))
        (start_send-live C 0 (request our_uid name_hash) (Front.wrap_tcp addr) refl)
      ∙ ap
          (λ x. end (
            heard C uids w our_uid their_uid name_hash (shake C uids w our_uid their_uid name_hash)
              x))
          (poll-serialise C told s law refl)
      ∙ ap (λ v. end (v >>= λ _. ok s)) (validated uids their_uid name_hash)

  -- A side whose one connection gets through the handshake has a peer, and has said what it has to.
  abbrev pub Ends : Bool → Result (ConnectError U C.Error) (Peer U D) → Type 0
  Ends we_choose r =
      (p : Peer U D) × (r ≡ ok p)
      × (p.their_uid ≡ their_uid)
      × (p.kind ≡ node)
      × (p.socket.outbox ≡ said C we_choose (request our_uid name_hash))

  choose_one :
      (i : Inner) (o : Option (Result IoError (Option D)))
      → w.clock.timers ≡ ok tt
      → Ends true (
          choose C uids w our_uid their_uid name_hash (
            ok (record { inner = some i; outbox = said C false (request our_uid name_hash) }, o)
            ∷ []))
  unfolding choose choose_on
  choose_one i o t =
      let s : Socket D = record {
        inner = some i;
        outbox = said C false (request our_uid name_hash);
      } in
      let s' : Socket D = record {
        inner = some i;
        outbox = said C true (request our_uid name_hash);
      } in
      let (p, e, u, k, q) = made C uids w our_uid their_uid name_hash s' t in
      (
        p,
        ap
              (λ r.
                map_err all_connections_failed r >>= choose_on C uids w our_uid their_uid name_hash)
              (alone w.sockets (s, o))
            ∙ ap
                (λ x. map_err choose_error x.1 >>= λ _.
                  map_err connect_io (make_peer C uids w our_uid their_uid name_hash x.0))
                (start_send-live C 0 choose_connection s refl)
            ∙ ap (map_err connect_io) e,
        u,
        k,
        ap (λ s. s.outbox) q,
      )

  chosen_one :
      (i : Inner)
      → w.clock.timers ≡ ok tt
      → Ends false (
          be_chosen C uids w our_uid their_uid name_hash (
            ok (
              record { inner = some i; outbox = said C false (request our_uid name_hash) },
              choice_frame C true,
            )
            ∷ []))
  unfolding be_chosen await_choice heard frame on_choice
  chosen_one i t =
      let s : Socket D = record {
        inner = some i;
        outbox = said C false (request our_uid name_hash);
      } in
      let (p, e, u, k, q) = made C uids w our_uid their_uid name_hash s t in
      let waited : await_choice C uids w our_uid their_uid name_hash (ok (s, choice_frame C true))
          ≡ some (ok p) =
        ap
          (λ x. some (
            heard C uids w our_uid their_uid name_hash
              (on_choice C uids w our_uid their_uid name_hash) x))
          (poll-serialise C choose_connection s law refl)
        ∙ ap (λ r. some (map_err SingleConnectionError.io r)) e in
      (
        p,
        ap (λ o. map_err all_connections_failed (w.peers.apply (somes (o ∷ [])))) waited
            ∙ ap (map_err all_connections_failed) (alone w.peers p),
        u,
        k,
        ap (λ s. s.outbox) q,
      )

  pub settle_one :
      (a : Attempt U D) (i : Inner)
      → handshake C uids w our_uid their_uid name_hash a
        ≡ ok (
          record { inner = some i; outbox = said C false (request our_uid name_hash) },
          choice_frame C (chooses uids their_uid our_uid),
        )
      → our_uid ≢ their_uid
      → w.clock.timers ≡ ok tt
      → Ends (chooses uids our_uid their_uid) (
          if chooses uids our_uid their_uid
          then choose C uids w our_uid their_uid name_hash
              (handshake C uids w our_uid their_uid name_hash a ∷ [])
          else be_chosen C uids w our_uid their_uid name_hash
              (handshake C uids w our_uid their_uid name_hash a ∷ []))
  settle_one a i h ne t = elim (Bool-cases (chooses uids our_uid their_uid)) [
    | inl c ↦ rw (c, h) (choose_one i (choice_frame C (chooses uids their_uid our_uid)) t)
    | inr c ↦
        let theirs : chooses uids their_uid our_uid ≡ true =
          one_chooses uids their_uid our_uid (λ q. ne (sym q)) ∙ ap not c in
        rw (c, h, theirs) (chosen_one i t)
  ]
