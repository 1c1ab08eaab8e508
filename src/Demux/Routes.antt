-- ===== src/Demux/Routes.antt =====
-- crust/src/net/peer/connect/demux.rs: who gets an incoming connection.
use crust_futures.Base.{
  ℕ, ◌≡◌, refl, ap, ◌∙◌, List, [], ◌∷◌, ◌++◌, none, some, Bool, true, false, ok, same, eq→same,
  same→eq, arith, if◌then◌else◌,
}
use crust_futures.Addr.{Uid}
use crust_futures.Net.{Codec}
use crust_futures.Handshake.{HandshakeMessage, ConnectRequest, connect}
use crust_futures.Socket.Front
use crust_futures.Socket.Front.{Socket, Inner}
use crust_futures.Socket.Front.Lifecycle.{poll-serialise}
use crust_futures.Bootstrap.Try.{arrives}
use crust_futures.Demux.{
  DemuxInner, to_connection, insert, get, register, hand_over, route, received, handle_incoming,
}

module _ {U : Type 0} (uids : Uid U) where
  get-insert :
      (u v : U) (c : ℕ) (hs : List (U × ℕ))
      → get uids v (insert uids u c hs) ≡ (if same uids.eq u v then some c else get uids v hs)
  unfolding get insert
  get-insert u v c [] = refl
  get-insert u v c ((w, d) ∷ hs) = ground (
    arith,
    get-insert u v c hs,
    same→eq uids.eq w u,
    same→eq uids.eq w v,
    eq→same uids.eq u v,
    eq→same uids.eq w v,
    same→eq uids.eq u v,
  )

module _ {U D : Type 0} (C : Codec (HandshakeMessage U) D) (uids : Uid U) (is_open : ℕ → Bool)
    (law : (m : HandshakeMessage U) → C.deserialise (C.serialise m) ≡ ok m) where
  -- The message is read off a live socket and routed.
  handle-arrives :
      (m : HandshakeMessage U) (s : Socket D) (x : DemuxInner U D) {i : Inner}
      → s.inner ≡ some i
      → handle_incoming C uids is_open (arrives (ok (some (C.serialise m)))) s x
        ≡ route C uids is_open m s x
  unfolding handle_incoming received
  handle-arrives m s x live = ap (λ p. received C uids is_open p x) (poll-serialise C m s law live)

  -- After two calls of `connect` for any two uids, a request from the first uid on a live socket goes
  -- to the channel of its own call, or to that of the second call if it was for the same uid; it is
  -- delivered once, and nothing else changes, as long as that channel is open.
  pub connect_routed :
      (req : ConnectRequest U) (other : U) (s : Socket D) (x : DemuxInner U D) {i : Inner}
      → s.inner ≡ some i
      → ((c : ℕ) → is_open c ≡ true)
      → let (x1, c1) = register uids req.uid x in
        let (x2, c2) = register uids other x1 in
        handle_incoming C uids is_open (arrives (ok (some (C.serialise (connect req))))) s x2 ≡ (
          record x2 {
            delivered =
                x.delivered
                ++ to_connection (if same uids.eq other req.uid then c2 else c1) s req ∷ [];
          },
          s,
          ok tt,
        )
  unfolding register route hand_over
  connect_routed req other s x live opened =
      let (x1, c1) = register uids req.uid x in
      let (x2, c2) = register uids other x1 in
      let found : get uids req.uid x2.connection_handler
          ≡ some (if same uids.eq other req.uid then c2 else c1) =
        get-insert uids other req.uid c2 x1.connection_handler
        ∙ ap (λ o. if same uids.eq other req.uid then some c2 else o)
            (get-insert uids req.uid req.uid c1 x.connection_handler
              ∙ ap (λ b. if b then some c1 else get uids req.uid x.connection_handler)
                  (eq→same uids.eq req.uid req.uid refl))
        ∙ pull (same uids.eq other req.uid) c2 c1 in
      handle-arrives (connect req) s x2 live
      ∙ ap (λ o. hand_over C uids is_open o (λ c. to_connection c s req) s x2) found
      ∙ ap
          (λ b.
            if b
            then (
              record x2 {
                delivered =
                    x.delivered
                    ++ to_connection (if same uids.eq other req.uid then c2 else c1) s req ∷ [];
              },
              s,
              ok tt,
            )
            else (x2, Front.drop s, ok tt))
          (opened (if same uids.eq other req.uid then c2 else c1))
    where
      pull : (b : Bool) (m n : ℕ) → (if b then some m else some n) ≡ some (if b then m else n)
      pull true m n = refl
      pull false m n = refl

  -- A connection request from a uid that no call of `connect` waits for is not an error: the socket is
  -- dropped, and the demultiplexer stays as it is.
  pub connect_unknown :
      (req : ConnectRequest U) (s : Socket D) (x : DemuxInner U D) {i : Inner}
      → s.inner ≡ some i
      → get uids req.uid x.connection_handler ≡ none
      → handle_incoming C uids is_open (arrives (ok (some (C.serialise (connect req))))) s x
        ≡ (x, Front.drop s, ok tt)
  unfolding route hand_over
  connect_unknown req s x live absent =
      handle-arrives (connect req) s x live
      ∙ ap (λ o. hand_over C uids is_open o (λ c. to_connection c s req) s x) absent
