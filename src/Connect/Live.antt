-- ===== src/Connect/Live.antt =====
-- crust/src/net/peer/connect/connect.rs: what a good connection comes to.
use crust_futures.Base.{
  ◌≡◌, refl, sym, ap, ◌∙◌, subst, List, [], ◌∷◌, ◌++◌, map, Option, some, false, Result, ok, err,
  map_err, ◌>>=◌, somes, Memᴰ, Memᴰ-map, Memᴰ-somes, of_Memᴰ-map, Bool-cases, inl, inr,
  if◌then◌else◌,
}
use crust_futures.Addr.{Uid}
use crust_futures.Net.{IoError, Codec, SocketError, Race}
use crust_futures.Handshake.{NameHash, HandshakeMessage, choose_connection}
use crust_futures.Socket.Task.{send}
use crust_futures.Socket.Front
use crust_futures.Socket.Front.{Socket, Inner}
use crust_futures.Socket.Front.Lifecycle.{start_send-live, poll-reads, Says}
use crust_futures.Peer.{Peer}
use crust_futures.Bootstrap.Try.{Reply, arrives}
use crust_futures.Connect.{
  SingleConnectionError, connect_io, choose_error, all_connections_failed, Attempt, came, went,
  Shaken, World, validate_connect_request, shake, heard, frame, replied, our_connect_request,
  handshake, make_peer, choose_on, choose, on_choice, await_choice, be_chosen, chooses,
}
use crust_futures.Connect.Peers.{IsVouched, IsSocketOf, choice_of, validated, made, handshake_ok}

-- A connection that came in has not ended.
abbrev pub IsLive : {U D : Type 0} → Attempt U D → Type 0
IsLive (came i) = (j : Inner) × (i.socket.inner ≡ some j)
IsLive (went r) = Unit {0}

module _ {U D : Type 0} (C : Codec (HandshakeMessage U) D) (uids : Uid U) (w : World U D C.Error)
    (our_uid their_uid : U) (name_hash : NameHash) where
  abbrev right : HandshakeMessage U
  right = HandshakeMessage.connect (record { uid = their_uid; name_hash = name_hash })

  abbrev ours : HandshakeMessage U
  ours = HandshakeMessage.connect (record { uid = our_uid; name_hash = name_hash })

  reply_read :
      (r : Reply D) (f : Result IoError (Option D)) (s : Socket D) {j : Inner}
      → r ≡ arrives f
      → Says C f right
      → s.inner ≡ some j
      → replied C uids w our_uid their_uid name_hash r s ≡ ok s
  unfolding replied heard frame shake
  reply_read r f s e (d, of_frame, reads) live =
      ap (λ r. replied C uids w our_uid their_uid name_hash r s) (e ∙ ap arrives of_frame)
      ∙ ap (heard C uids w our_uid their_uid name_hash (shake C uids w our_uid their_uid name_hash))
          (poll-reads C d right s reads live)
      ∙ ap (λ v. v >>= λ _. ok s) (validated uids their_uid name_hash)

  -- The converse of `handshake_ok`.
  pub handshake_live :
      (a : Attempt U D)
      → IsVouched C their_uid name_hash a
      → IsLive a
      → (x : Shaken D) × (handshake C uids w our_uid their_uid name_hash a ≡ ok x)
  unfolding handshake our_connect_request Front.wrap_tcp
  handshake_live (came i) e (j, live) =
      let onward : Socket D × Result (SocketError C.Error) (Unit {0})
          → Result (SingleConnectionError U C.Error) (Shaken D) =
        λ x. map_err SingleConnectionError.socket_error x.1 >>= λ _. ok (x.0, i.choice) in
      (
        _,
        ap
              (λ q. validate_connect_request uids their_uid name_hash q >>= λ _.
                onward (Front.start_send C 0 ours i.socket))
              e
            ∙ ap (λ v. v >>= λ _. onward (Front.start_send C 0 ours i.socket))
                (validated uids their_uid name_hash)
            ∙ ap onward (start_send-live C 0 ours i.socket live),
      )
  handshake_live (went (err e)) h live = absurd h
  handshake_live (went (ok (addr, talk))) (f, arrived, says) live =
      let onward : Result (SingleConnectionError U C.Error) (Socket D)
          → Result (SingleConnectionError U C.Error) (Shaken D) =
        λ r. r >>= λ s''. ok (s'', talk.choice) in
      (
        _,
        ap
              (λ x. map_err SingleConnectionError.socket_error x.1 >>= λ _.
                onward (replied C uids w our_uid their_uid name_hash talk.reply x.0))
              (start_send-live C 0 ours (Front.wrap_tcp addr) refl)
            ∙ ap onward (reply_read talk.reply f _ arrived says refl),
      )

  -- A connection that got through its handshake is live.
  shaken_live :
      (a : Attempt U D) {x : Shaken D}
      → handshake C uids w our_uid their_uid name_hash a ≡ ok x
      → (j : Inner) × (x.0.inner ≡ some j)
  shaken_live a {x} h = of_socket a x.0 (handshake_ok C uids w our_uid their_uid name_hash a h).2
    where
      of_socket :
          (a : Attempt U D) (s : Socket D)
          → IsSocketOf C our_uid name_hash a s
          → (j : Inner) × (s.inner ≡ some j)
      of_socket (came i) s (j, live, e) = (j, ap (λ s. s.inner) e)
      of_socket (went (err e)) s h = absurd h
      of_socket (went (ok (addr, talk))) s e = (_, ap (λ s. s.inner) e)

  choose_live :
      (s : Socket D) (later : Option (Result IoError (Option D))) {j : Inner}
      → s.inner ≡ some j
      → w.clock.timers ≡ ok tt
      → (p : Peer U D) × (choose_on C uids w our_uid their_uid name_hash (s, later) ≡ ok p)
  unfolding choose_on
  choose_live s later live t =
      let s' : Socket D = record s {
        outbox = s.outbox ++ send 0 (C.serialise choose_connection) ∷ [];
      } in
      let (p, e, u, k, q) = made C uids w our_uid their_uid name_hash s' t in
      (
        p,
        ap
              (λ x. map_err choose_error x.1 >>= λ _.
                map_err connect_io (make_peer C uids w our_uid their_uid name_hash x.0))
              (start_send-live C 0 choose_connection s live)
            ∙ ap (map_err connect_io) e,
      )

  await_live :
      (x : Shaken D) (f : Result IoError (Option D)) {j : Inner}
      → x.0.inner ≡ some j
      → x.1 ≡ some f
      → Says C f choose_connection
      → w.clock.timers ≡ ok tt
      → (p : Peer U D) × (await_choice C uids w our_uid their_uid name_hash (ok x) ≡ some (ok p))
  unfolding await_choice heard frame on_choice
  await_live (s, later) f live e (d, of_frame, reads) t =
      let (p, of_peer, u, k, q) = made C uids w our_uid their_uid name_hash s t in
      (
        p,
        ap (λ o. await_choice C uids w our_uid their_uid name_hash (ok (s, o)))
              (e ∙ ap some of_frame)
            ∙ ap
                (λ x. some (
                  heard C uids w our_uid their_uid name_hash
                    (on_choice C uids w our_uid their_uid name_hash) x))
                (poll-reads C d choose_connection s reads live)
            ∙ ap (λ r. some (map_err SingleConnectionError.io r)) of_peer,
      )

  raced :
      {E A : Type 0} (R : Race E A) (rs : List (Result E A)) (a : A)
      → Memᴰ (ok a) rs
      → (b : A) × (R.apply rs ≡ ok b) × Memᴰ (ok b) rs
  raced {E} {A} R rs a m = ends (R.apply rs) refl
    where
      ends :
          (r : Result (List E) A) → R.apply rs ≡ r → (b : A) × (R.apply rs ≡ ok b) × Memᴰ (ok b) rs
      ends (ok b) e = (b, e, R.apply_ok rs b e)
      ends (err es) e = absurd (R.apply_err rs es a e m)

  abbrev shake_all : List (Attempt U D) → List (Result (SingleConnectionError U C.Error) (Shaken D))
  shake_all = map (handshake C uids w our_uid their_uid name_hash)

  choose_gives :
      (tried : List (Attempt U D)) (x : Shaken D)
      → Memᴰ (ok x) (shake_all tried)
      → w.clock.timers ≡ ok tt
      → (p : Peer U D) × (choose C uids w our_uid their_uid name_hash (shake_all tried) ≡ ok p)
  unfolding choose
  choose_gives tried x m t =
      let (y, won, there) = raced w.sockets (shake_all tried) x m in
      let (a, e, tried_it) =
        of_Memᴰ-map (handshake C uids w our_uid their_uid name_hash) tried _ there in
      let (j, live) = shaken_live a (sym e) in
      let (p, chosen) = choose_live y.0 y.1 live t in
      (
        p,
        ap
              (λ r.
                map_err all_connections_failed r >>= choose_on C uids w our_uid their_uid name_hash)
              won
            ∙ chosen,
      )

  be_chosen_gives :
      (tried : List (Attempt U D)) (p : Peer U D)
      → Memᴰ
          (some (ok p))
          (map (await_choice C uids w our_uid their_uid name_hash) (shake_all tried))
      → (q : Peer U D) × (be_chosen C uids w our_uid their_uid name_hash (shake_all tried) ≡ ok q)
  unfolding be_chosen
  be_chosen_gives tried p m =
      let awaited = map (await_choice C uids w our_uid their_uid name_hash) (shake_all tried) in
      let (q, won, there) = raced w.peers (somes awaited) p (Memᴰ-somes awaited (ok p) m) in
      (q, ap (map_err all_connections_failed) won)

  -- We choose, or the other side says on this connection that it does.
  abbrev pub IsPicked : Attempt U D → Type 0
  IsPicked a =
      chooses uids our_uid their_uid ≡ false
      → (f : Result IoError (Option D)) × (choice_of C a ≡ some f) × Says C f choose_connection

  pub settle_live :
      (tried : List (Attempt U D)) (a : Attempt U D)
      → Memᴰ a tried
      → IsVouched C their_uid name_hash a
      → IsLive a
      → IsPicked a
      → w.clock.timers ≡ ok tt
      → (p : Peer U D) × ((if chooses uids our_uid their_uid
            then choose C uids w our_uid their_uid name_hash (shake_all tried)
            else be_chosen C uids w our_uid their_uid name_hash (shake_all tried))
          ≡ ok p)
  settle_live tried a m vouched live picked t =
      let shake_one = handshake C uids w our_uid their_uid name_hash in
      let (x, e) = handshake_live a vouched live in
      let there : Memᴰ (ok x) (shake_all tried) =
        subst (λ r. Memᴰ r (shake_all tried)) e (Memᴰ-map shake_one tried a m) in
      elim (Bool-cases (chooses uids our_uid their_uid)) [
        | inl c ↦ rw c (choose_gives tried x there t)
        | inr c ↦
            let (f, later, says) = picked c in
            let (j, alive) = shaken_live a e in
            let (v, of_choice, on_it) = handshake_ok C uids w our_uid their_uid name_hash a e in
            let (p, waited) = await_live x f alive (of_choice ∙ later) says t in
            let wait = await_choice C uids w our_uid their_uid name_hash in
            rw c (
              be_chosen_gives tried p (
                subst (λ o. Memᴰ o (map wait (shake_all tried))) waited
                  (Memᴰ-map wait (shake_all tried) (ok x) there)))
      ]
