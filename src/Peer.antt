-- ===== src/Peer.antt =====
-- crust/src/net/peer/peer.rs and peer_message.rs: a connection with heartbeats. Times are
-- milliseconds; each reading of the clock that the code makes is an argument.
pub mod Heartbeat
pub mod Receive
use crust_futures.Base.{
  ℕ, ◌+◌, ◌-◌, ◌≤◌, ◌≡◌, sym, ap, ◌↔◌, List, [], ◌∷◌, Option, none, some, Bool, true, Result, ok,
  err, map_err, ◌>>=◌, zero, suc, Async, ready, not_ready, leb, if◌then◌else◌,
}
use mathlib.Core.Option
use crust_futures.Addr.{SocketAddr, IpAddr, CrustUser}
use crust_futures.Net.{IoError, Codec, SocketError}
use crust_futures.Socket.Front.{Socket}
use crust_futures.Socket.Front

abbrev pub inactivity_timeout_ms : ℕ
inactivity_timeout_ms = 120_000

abbrev pub heartbeat_period_ms : ℕ
heartbeat_period_ms = 20_000

pub data PeerMessage (B : Type 0) : Type 0 where
  heartbeat : PeerMessage B
  content : B → PeerMessage B

pub data PeerError (S : Type 0) : Type 0 where
  destroyed : PeerError S
  io : IoError → PeerError S
  deserialisation : S → PeerError S
  inactivity_timeout : PeerError S

-- `From<SocketError> for PeerError`.
abbrev pub from_socket_error : {S : Type 0} → SocketError S → PeerError S
from_socket_error (SocketError.io e) = PeerError.io e
from_socket_error SocketError.destroyed = PeerError.destroyed
from_socket_error (SocketError.deserialisation e) = PeerError.deserialisation e

-- tokio_core's timer: asked at a time, it is ready once its deadline is reached.
pub record Timer : Type 0 where
  pub is_due : ℕ → ℕ → Bool
  pub is_due_iff : (deadline t : ℕ) → (is_due deadline t ≡ true) ↔ (deadline ≤ t)

pub record Peer (U D : Type 0) : Type 0 where
  pub their_uid : U
  pub kind : CrustUser
  pub socket : Socket D
  pub last_send_time : ℕ
  pub send_deadline : ℕ
  pub recv_deadline : ℕ

module _ {U D : Type 0} where
  -- `from_handshaken_socket`; the two timers can be refused by the reactor.
  unfoldable pub from_handshaken_socket :
      ℕ → Result IoError (Unit {0}) → Socket D → U → CrustUser → Result IoError (Peer U D)
  from_handshaken_socket now (err e) s uid kind = err e
  from_handshaken_socket now (ok _) s uid kind = ok (record {
    their_uid = uid;
    kind = kind;
    socket = s;
    last_send_time = now;
    send_deadline = now + heartbeat_period_ms;
    recv_deadline = now + inactivity_timeout_ms;
  })

module _ {U D : Type 0} where
  pub from_handshaken_socket_ok :
      (now : ℕ) (t : Result IoError (Unit {0})) (s : Socket D) (uid : U) (kind : CrustUser)
      {p : Peer U D}
      → from_handshaken_socket now t s uid kind ≡ ok p
      → (p.their_uid ≡ uid) × (p.kind ≡ kind) × (p.socket ≡ s)
  unfolding from_handshaken_socket
  from_handshaken_socket_ok now (err e) s uid kind h = cc
  from_handshaken_socket_ok now (ok x) s uid kind {p} h =
      let q : (record {
        their_uid = uid;
        kind = kind;
        socket = s;
        last_send_time = now;
        send_deadline = now + heartbeat_period_ms;
        recv_deadline = now + inactivity_timeout_ms;
      })
          ≡ p =
        cc in
      (ap (λ p. p.their_uid) (sym q), ap (λ p. p.kind) (sym q), ap (λ p. p.socket) (sym q))

-- A frame, or the lack of one, with the time that is read where it is handled.
abbrev pub Arrival : Type 0 → Type 0
Arrival D = ℕ × Result IoError (Async (Option D))

module _ {B D : Type 0} (C : Codec (PeerMessage B) D) where
  abbrev pub Polled : Type 0
  Polled = Result (PeerError C.Error) (Async (Option B))

  -- Either the reading loop returns from `poll`, or it breaks.
  pub data Flow : Type 0 where
    returns : Polled → Flow
    breaks : Flow

module _ {U B D : Type 0} (C : Codec (PeerMessage B) D) where
  open C use {Error}

  pub addr : Peer U D → Result (PeerError Error) SocketAddr
  addr p = map_err from_socket_error (Front.peer_addr C p.socket)

  pub ip : Peer U D → Result (PeerError Error) IpAddr
  ip p = map_err from_socket_error (Front.peer_addr C p.socket) >>= λ a. ok a.ip

  -- `start_send` of the sink, at the time `now`; success is `AsyncSink::Ready`.
  sent :
      ℕ
      → Peer U D
      → Socket D × Result (SocketError Error) (Unit {0})
      → Peer U D × Result (PeerError Error) (Unit {0})
  sent now p (s, ok _) = (record p { socket = s; last_send_time = now }, ok tt)
  sent now p (s, err e) = (record p { socket = s }, err (from_socket_error e))

  pub start_send : ℕ → ℕ → B → Peer U D → Peer U D × Result (PeerError Error) (Unit {0})
  unfolding sent
  start_send now priority data' p =
      sent now p (Front.start_send C priority (content data') p.socket)

  -- One turn of the loop over the sending timer, once the timer is due.
  pub beat : ℕ → Peer U D → Peer U D
  beat now p =
      let p' = record p { send_deadline = p.last_send_time + heartbeat_period_ms } in
      if leb heartbeat_period_ms (now - p.last_send_time)
      then record p' { last_send_time = now; socket = (Front.start_send C 0 heartbeat p.socket).0 }
      else p'

  module _ (timer : Timer) where
    open timer use {is_due}

    -- `while let Async::Ready(..) = self.send_heartbeat_timeout.poll()`: the k-th poll of the timer
    -- reads the time `clock k`. The fuel bounds the turns.
    pub send_heartbeats : ℕ → (ℕ → ℕ) → ℕ → ℕ → Peer U D → Option (Peer U D)
    unfolding beat
    send_heartbeats zero clock k now p = none
    send_heartbeats (suc fuel) clock k now p =
        let rest = send_heartbeats fuel clock (k + 1) now (beat now p) in
        if is_due p.send_deadline (clock k) then rest else some p

    -- What the socket's poll gave, and what the loop does with it; `more` is the rest of the loop.
    on_polled : ℕ → Peer U D → Front.Polled C → (Peer U D → Peer U D × Flow C) → Peer U D × Flow C
    on_polled now p (err e) more = (p, returns (err (from_socket_error e)))
    on_polled now p (ok not_ready) more = (p, breaks)
    on_polled now p (ok (ready none)) more = (p, returns (ok (ready none)))
    on_polled now p (ok (ready (some heartbeat))) more =
        more (record p { recv_deadline = now + inactivity_timeout_ms })
    on_polled now p (ok (ready (some (content b)))) more =
        (record p { recv_deadline = now + inactivity_timeout_ms }, returns (ok (ready (some b))))

    -- The reading loop, over what the framed stream gives next with the time that is read at it;
    -- behind the list the stream is not ready.
    pub read : List (Arrival D) → Peer U D → Peer U D × Flow C
    unfolding on_polled
    read [] p = (p, breaks)
    read ((now, frame) ∷ frames) p =
        let (s, r) = Front.poll C frame p.socket in
        on_polled now (record p { socket = s }) r (read frames)

    -- The end of `poll`, where the inactivity timer is asked at the time `t`.
    check_inactivity : ℕ → Peer U D × Flow C → Peer U D × Polled C
    check_inactivity t (p, returns r) = (p, r)
    check_inactivity t (p, breaks) =
        (p, if is_due p.recv_deadline t then err PeerError.inactivity_timeout else ok not_ready)

    -- `Stream::poll`; `none` is a poll whose first loop has not ended within its fuel.
    pub poll : ℕ → (ℕ → ℕ) → ℕ → List (Arrival D) → ℕ → Peer U D → Option (Peer U D × Polled C)
    unfolding send_heartbeats read check_inactivity
    poll fuel clock now frames t p =
        Option.map (λ q. check_inactivity t (read frames q)) (send_heartbeats fuel clock 0 now p)
