-- ===== src/Socket/Front.antt =====
-- crust/src/net/socket.rs: `Socket`, the half of a connection that its owner holds. `outbox` is
-- all that was ever sent to the socket's task, oldest first.
pub mod Lifecycle
use crust_futures.Base.{
  List, [], ◌∷◌, ◌++◌, Option, none, some, Bool, true, false, Result, ok, err, Async, ready,
  not_ready, ℕ,
}
use crust_futures.Addr.{SocketAddr}
use crust_futures.Net.{IoError, Codec, SocketError, destroyed, io, deserialisation}
use crust_futures.Socket.Task.{TaskMsg, send, shutdown}

pub record Inner : Type 0 where
  pub peer_addr : SocketAddr

pub record Socket (D : Type 0) : Type 0 where
  pub inner : Option Inner
  pub outbox : List (TaskMsg D)

module _ {D : Type 0} where
  unfoldable pub wrap_tcp : SocketAddr → Socket D
  wrap_tcp addr = record { inner = some (record { peer_addr = addr }); outbox = [] }

  -- `Drop for Inner`, which also runs when a socket is dropped.
  drop_inner : Option Inner → Socket D → Socket D
  drop_inner none s = s
  drop_inner (some i) s = record { inner = none; outbox = s.outbox ++ shutdown ∷ [] }

  pub drop : Socket D → Socket D
  unfolding drop_inner
  drop s = drop_inner s.inner s

module _ {M D : Type 0} (C : Codec M D) where
  open C use {Error, serialise, deserialise}

  addr_of : Option Inner → Result (SocketError Error) SocketAddr
  addr_of none = err destroyed
  addr_of (some i) = ok i.peer_addr

  unfoldable pub peer_addr : Socket D → Result (SocketError Error) SocketAddr
  unfolding addr_of
  peer_addr s = addr_of s.inner

  abbrev pub Polled : Type 0
  Polled = Result (SocketError Error) (Async (Option M))

  -- A frame, by what it deserialises to; an error drops the `Inner` that `poll` has taken.
  decoded : Result Error M → Socket D → Socket D × Polled
  decoded (ok m) s = (s, ok (ready (some m)))
  decoded (err e) s = (drop s, err (deserialisation e))

  -- What `stream_rx.poll()` gave, and what `poll` makes of it.
  polled : Result IoError (Async (Option D)) → Socket D → Socket D × Polled
  unfolding decoded
  polled (ok (ready (some d))) s = decoded (deserialise d) s
  polled (ok (ready none)) s = (drop s, err destroyed)
  polled (ok not_ready) s = (s, ok not_ready)
  polled (err e) s = (drop s, err (io e))

  poll_on : Option Inner → Result IoError (Async (Option D)) → Socket D → Socket D × Polled
  unfolding polled
  poll_on none frame s = (s, err destroyed)
  poll_on (some _) frame s = polled frame s

  unfoldable pub poll : Result IoError (Async (Option D)) → Socket D → Socket D × Polled
  unfolding poll_on
  poll frame s = poll_on s.inner frame s

  start_send_on : Option Inner → ℕ → M → Socket D → Socket D × Result (SocketError Error) (Unit {0})
  start_send_on none p m s = (s, err destroyed)
  start_send_on (some _) p m s =
      (record s { outbox = s.outbox ++ send p (serialise m) ∷ [] }, ok tt)

  -- `start_send`; success is `AsyncSink::Ready`, and the sink is never `NotReady`.
  unfoldable pub start_send : ℕ → M → Socket D → Socket D × Result (SocketError Error) (Unit {0})
  unfolding start_send_on
  start_send p m s = start_send_on s.inner p m s
