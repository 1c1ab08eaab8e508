-- ===== src/Stun.antt =====
-- crust/src/net/peer/connect/stun.rs: asking a peer for our own address, and answering it. Each
-- future is the value that it resolves to, or the time limit that comes first.
pub mod Echo
use crust_futures.Base.{
  ℕ, Option, none, some, Result, ok, err, map_err, ◌>>=◌, Async, ready, not_ready,
}
use crust_futures.Addr.{SocketAddr}
use crust_futures.Net.{IoError, Codec, SocketError}
use crust_futures.Handshake.{HandshakeMessage, echo_addr_req, echo_addr_resp}
use crust_futures.Socket.Front
use crust_futures.Socket.Front.{Socket}
use crust_futures.Bootstrap.Try.{Reply, arrives, too_late}

pub data StunError (S : Type 0) : Type 0 where
  connect_error : IoError → StunError S
  unexpected_response disconnected : StunError S
  socket_error : SocketError S → StunError S
  timed_out : StunError S
  timer_io : IoError → StunError S
  create_reusable_socket : IoError → StunError S

module _ {U D : Type 0} (C : Codec (HandshakeMessage U) D) where
  -- The `match` on the message that came.
  respond : HandshakeMessage U → Result (StunError C.Error) SocketAddr
  respond (echo_addr_resp addr) = ok addr
  respond _ = err unexpected_response

  received : Front.Polled C → Result (StunError C.Error) SocketAddr
  unfolding respond
  received (ok (ready (some m))) = respond m
  received (ok (ready none)) = err disconnected
  received (ok not_ready) = err timed_out
  received (err e) = err (socket_error e)

  await : Reply D → Socket D → Result (StunError C.Error) SocketAddr
  unfolding received
  await too_late s = err timed_out
  await (arrives (ok d)) s = received (Front.poll C (ok (ready d)) s).1
  await (arrives (err e)) s = received (Front.poll C (err e) s).1

  request_sent :
      Result (SocketError C.Error) (Unit {0})
      → Reply D
      → Socket D
      → Result (StunError C.Error) SocketAddr
  unfolding await
  request_sent (ok _) reply s = await reply s
  request_sent (err e) reply s = err (socket_error e)

  -- `stun`: whether a reusable socket could be made, what connecting resolves to, and what the peer
  -- sends within three seconds.
  pub stun :
      SocketAddr
      → Result IoError (Unit {0})
      → Result IoError (Unit {0})
      → Reply D
      → Result (StunError C.Error) SocketAddr
  unfolding request_sent
  stun peer_addr (err e) connected reply = err (create_reusable_socket e)
  stun peer_addr (ok _) (err e) reply = err (connect_error e)
  stun peer_addr (ok _) (ok _) reply =
      let (s, r) = Front.start_send C 0 echo_addr_req (Front.wrap_tcp peer_addr) in
      request_sent r reply s

  echo :
      Result (SocketError C.Error) SocketAddr
      → Socket D
      → Socket D × Result (SocketError C.Error) (Unit {0})
  echo (err e) s = (Front.drop s, err e)
  echo (ok addr) s =
      let (s', r) = Front.start_send C 0 (echo_addr_resp addr) s in (Front.drop s', r)

  pub stun_respond : Socket D → Socket D × Result (SocketError C.Error) (Unit {0})
  unfolding echo
  stun_respond s = echo (Front.peer_addr C s) s
