-- ===== src/Demux.antt =====
-- crust/src/net/peer/connect/demux.rs: the routing of incoming connections. A channel is a number;
-- what was put into the channels is one list, oldest first.
pub mod Routes
use crust_futures.Base.{
  ℕ, suc, List, [], ◌∷◌, ◌++◌, Option, none, some, Bool, true, false, Result, ok, err, map_err,
  Async, ready, not_ready, same, if◌then◌else◌,
}
use crust_futures.Addr.{Uid}
use crust_futures.Net.{IoError, Codec, SocketError}
use crust_futures.Handshake.{
  HandshakeMessage, BootstrapRequest, ConnectRequest, bootstrap_request, connect, echo_addr_req,
}
use crust_futures.Socket.Front
use crust_futures.Socket.Front.{Socket}
use crust_futures.Bootstrap.Try.{Reply, arrives, too_late}
use crust_futures.Stun.{stun_respond}

pub data Delivery (U D : Type 0) : Type 0 where
  to_acceptor : ℕ → Socket D → BootstrapRequest U → Delivery U D
  to_connection : ℕ → Socket D → ConnectRequest U → Delivery U D

pub record DemuxInner (U D : Type 0) : Type 0 where
  pub bootstrap_handler : Option ℕ
  pub connection_handler : List (U × ℕ)
  pub delivered : List (Delivery U D)
  pub next_channel : ℕ

pub data IncomingError (S : Type 0) : Type 0 where
  timed_out unexpected_message disconnected : IncomingError S
  socket_error : SocketError S → IncomingError S
  timer_io : IoError → IncomingError S

module _ {U D : Type 0} where
  pub new : DemuxInner U D
  new = record {
    bootstrap_handler = none;
    connection_handler = [];
    delivered = [];
    next_channel = 0;
  }

  -- `bootstrap_acceptor`: the new acceptor's channel takes the place of the old one.
  pub bootstrap_acceptor : DemuxInner U D → DemuxInner U D × ℕ
  bootstrap_acceptor x = (
    record x { bootstrap_handler = some x.next_channel; next_channel = suc x.next_channel },
    x.next_channel,
  )

module _ {U : Type 0} (uids : Uid U) where
  -- `HashMap::insert` and `get`.
  insert : U → ℕ → List (U × ℕ) → List (U × ℕ)
  insert u c [] = (u, c) ∷ []
  insert u c ((v, d) ∷ hs) = if same uids.eq v u then (v, c) ∷ hs else (v, d) ∷ insert u c hs

  unfoldable pub get : U → List (U × ℕ) → Option ℕ
  get u [] = none
  get u ((v, d) ∷ hs) = if same uids.eq v u then some d else get u hs

module _ {U D : Type 0} (uids : Uid U) where
  -- `connect`, up to the handshake: its channel is the handler of the peer's uid from now on.
  pub register : U → DemuxInner U D → DemuxInner U D × ℕ
  unfolding insert
  register their_uid x = (
    record x {
      connection_handler = insert uids their_uid x.next_channel x.connection_handler;
      next_channel = suc x.next_channel;
    },
    x.next_channel,
  )

module _ {U D : Type 0} (C : Codec (HandshakeMessage U) D) (uids : Uid U) (is_open : ℕ → Bool) where
  abbrev pub Handled : Type 0
  Handled = DemuxInner U D × Socket D × Result (IncomingError C.Error) (Unit {0})

  -- `unbounded_send` into the channel of a handler, if there is one. A socket that nobody takes is
  -- dropped.
  hand_over : Option ℕ → (ℕ → Delivery U D) → Socket D → DemuxInner U D → Handled
  hand_over none what s x = (x, Front.drop s, ok tt)
  hand_over (some c) what s x =
      if is_open c
      then (record x { delivered = x.delivered ++ what c ∷ [] }, s, ok tt)
      else (x, Front.drop s, ok tt)

  -- The `match` on the message that came.
  route : HandshakeMessage U → Socket D → DemuxInner U D → Handled
  unfolding hand_over get
  route (bootstrap_request req) s x = hand_over x.bootstrap_handler (λ c. to_acceptor c s req) s x
  route (connect req) s x =
      hand_over (get uids req.uid x.connection_handler) (λ c. to_connection c s req) s x
  route echo_addr_req s x = let (s', r) = stun_respond C s in (x, s', map_err socket_error r)
  route _ s x = (x, Front.drop s, err unexpected_message)

  received : Socket D × Front.Polled C → DemuxInner U D → Handled
  unfolding route
  received (s, ok (ready (some m))) x = route m s x
  received (s, ok (ready none)) x = (x, Front.drop s, err disconnected)
  received (s, ok not_ready) x = (x, Front.drop s, err timed_out)
  received (s, err e) x = (x, Front.drop s, err (socket_error e))

  -- `handle_incoming`: what the socket gives within ten seconds, and where it goes.
  pub handle_incoming : Reply D → Socket D → DemuxInner U D → Handled
  unfolding received
  handle_incoming too_late s x = (x, Front.drop s, err timed_out)
  handle_incoming (arrives (ok d)) s x = received (Front.poll C (ok (ready d)) s) x
  handle_incoming (arrives (err e)) s x = received (Front.poll C (err e) s) x
