-- ===== src/Stun/Echo.antt =====
-- crust/src/net/peer/connect/stun.rs: what the asking side learns.
use crust_futures.Base.{◌≡◌, refl, ap, ◌∙◌, [], ◌∷◌, ◌++◌, some, ok, ready}
use crust_futures.Addr.{SocketAddr}
use crust_futures.Net.{Codec}
use crust_futures.Handshake.{HandshakeMessage, echo_addr_req, echo_addr_resp}
use crust_futures.Socket.Task.{send, shutdown}
use crust_futures.Socket.Front
use crust_futures.Socket.Front.{Socket, Inner}
use crust_futures.Socket.Front.Lifecycle.{poll-serialise, start_send-live, drop-live, wrap_tcp-live}
use crust_futures.Bootstrap.Try.{arrives}
use crust_futures.Bootstrap.Both.{first_frame}
use crust_futures.Stun.{received, stun, request_sent, await, respond, echo, stun_respond}

module _ {U D : Type 0} (C : Codec (HandshakeMessage U) D)
    (law : (m : HandshakeMessage U) → C.deserialise (C.serialise m) ≡ ok m) where
  stun-arrives :
      (peer_addr : SocketAddr) (m : HandshakeMessage U)
      → stun C peer_addr (ok tt) (ok tt) (arrives (ok (some (C.serialise m))))
        ≡ received C (ok (ready (some m)))
  unfolding stun request_sent await
  stun-arrives peer_addr m =
      let s = Front.wrap_tcp peer_addr in
      let (i, live) = wrap_tcp-live D peer_addr in
      let sent = start_send-live C 0 echo_addr_req s live in
      let s' : Socket D = record s {
        outbox = s.outbox ++ send 0 (C.serialise echo_addr_req) ∷ [];
      } in
      ap (λ x. request_sent C x.1 (arrives (ok (some (C.serialise m)))) x.0) sent
      ∙ ap (λ x. received C x.1) (poll-serialise C m s' law live)

  stun_respond-live :
      (i : Inner)
      → (stun_respond C (record { inner = some i; outbox = [] })).0.outbox
        ≡ send 0 (C.serialise (echo_addr_resp i.peer_addr)) ∷ shutdown ∷ []
  unfolding stun_respond echo Front.peer_addr
  stun_respond-live i =
      let s : Socket D = record { inner = some i; outbox = [] } in
      ap (λ x. (Front.drop x.0).outbox)
        (start_send-live C 0 (echo_addr_resp i.peer_addr) s {i = i} refl)
      ∙ drop-live (record s { outbox = send 0 (C.serialise (echo_addr_resp i.peer_addr)) ∷ [] })
          {i = i} refl

  -- Whoever asks over a connection learns the address under which the answering side sees that
  -- connection, with a codec that reads back what it writes.
  pub stun_echo :
      (peer_addr : SocketAddr) (i : Inner)
      → stun C peer_addr
          (ok tt)
          (ok tt)
          (first_frame (stun_respond C (record { inner = some i; outbox = [] })).0.outbox)
        ≡ ok i.peer_addr
  unfolding received respond
  stun_echo peer_addr i =
      ap (λ l. stun C peer_addr (ok tt) (ok tt) (first_frame l)) (stun_respond-live i)
      ∙ stun-arrives peer_addr (echo_addr_resp i.peer_addr)
