-- ===== src/Connect.antt =====
-- crust/src/net/peer/connect/connect.rs: the rendezvous connection of two peers. Each future is the
-- value that it resolves to, if it does in time; the network, the timers and `first_ok` are
-- parameters.
pub mod Peers
pub mod Settled
pub mod Roles
pub mod Both
pub mod Listed
pub mod Live
pub mod Offered
pub mod Unlisted
use crust_futures.Base.{
  ℕ, ◌≡◌, List, [], ◌∷◌, ◌++◌, map, keep, contains, Option, none, some, Bool, true, false, Result,
  ok, err, map_err, ◌>>=◌, somes, same, if◌then◌else◌, Async, ready, not_ready,
}
use crust_futures.Addr.{SocketAddr, IpAddr, IpAddr-discrete, node, Uid}
use crust_futures.Net.{IoError, Codec, SocketError, Race}
use crust_futures.Config.{ConfigSettings}
use crust_futures.Handshake.{
  NameHash, NameHash-discrete, ConnectRequest, HandshakeMessage, choose_connection,
}
use crust_futures.ConnectionInfo.{PrivConnectionInfo, PubConnectionInfo}
use crust_futures.HolePunch.{Attempted, Puncher, at_addr, tcp_hole_punch}
use crust_futures.Socket.Front
use crust_futures.Socket.Front.{Socket}
use crust_futures.Peer.{Peer, from_handshaken_socket}
use crust_futures.Bootstrap.Try.{Reply, arrives, too_late, Clock}

pub data SingleConnectionError (U S : Type 0) : Type 0 where
  io : IoError → SingleConnectionError U S
  socket_error : SocketError S → SingleConnectionError U S
  connection_dropped unexpected_message timed_out : SingleConnectionError U S
  invalid_uid : U → U → SingleConnectionError U S
  invalid_name_hash : NameHash → SingleConnectionError U S

pub data ConnectError (U S : Type 0) : Type 0 where
  requested_connect_to_self : ConnectError U S
  connect_io : IoError → ConnectError U S
  choose_error : SocketError S → ConnectError U S
  all_connections_failed : List (SingleConnectionError U S) → ConnectError U S

-- What the other side sends on a connection: its first frame, or none in time, and what comes behind
-- the handshake, if anything comes in time.
pub record Talk (D : Type 0) : Type 0 where
  pub reply : Reply D
  pub choice : Option (Result IoError (Option D))

-- A connection that our listeners got, with the request that came on it.
pub record Incoming (U D : Type 0) : Type 0 where
  pub socket : Socket D
  pub request : ConnectRequest U
  pub choice : Option (Result IoError (Option D))

pub data Attempt (U D : Type 0) : Type 0 where
  came : Incoming U D → Attempt U D
  went : Result IoError (SocketAddr × Talk D) → Attempt U D

-- A handshaken socket, with what comes on it next.
abbrev pub Shaken : Type 0 → Type 0
Shaken D = Socket D × Option (Result IoError (Option D))

-- What the code runs in, over the type of the codec's errors.
pub record World (U D S : Type 0) : Type 0 where
  -- What `peer_rx` gives.
  pub peer_rx : List (Incoming U D)
  pub dial : SocketAddr → Attempted (Talk D)
  pub puncher : Puncher (Talk D)
  pub timeout : Result IoError (Unit {0})
  pub clock : Clock
  pub sockets : Race (SingleConnectionError U S) (Shaken D)
  pub peers : Race (SingleConnectionError U S) (Peer U D)

module _ {U : Type 0} (uids : Uid U) where
  unfoldable pub validate_connect_request :
      {S : Type 0} → U → NameHash → ConnectRequest U → Result (SingleConnectionError U S) (Unit {0})
  validate_connect_request expected_uid our_name_hash req =
      if same uids.eq req.uid expected_uid
      then (if same NameHash-discrete our_name_hash req.name_hash
          then ok tt
          else err (invalid_name_hash req.name_hash))
      else err (invalid_uid req.uid expected_uid)

-- `retain` by the white list of nodes, of the addresses that we connect to; what comes in is not
-- filtered.
abbrev pub allowed : Option (List IpAddr) → List SocketAddr → List SocketAddr
allowed none addrs = addrs
allowed (some ips) addrs = keep (λ s. contains IpAddr-discrete ips s.ip) addrs

module _ {U D : Type 0} (C : Codec (HandshakeMessage U) D) (uids : Uid U) (w : World U D C.Error)
    (our_uid their_uid : U) (name_hash : NameHash) where
  abbrev Single : Type 0 → Type 0
  Single A = Result (SingleConnectionError U C.Error) A

  pub our_connect_request : HandshakeMessage U
  our_connect_request = HandshakeMessage.connect (record { uid = our_uid; name_hash = name_hash })

  -- The message on a connection that we made.
  pub shake : HandshakeMessage U → Socket D → Single (Socket D)
  unfolding validate_connect_request
  shake (HandshakeMessage.connect req) s =
      validate_connect_request uids their_uid name_hash req >>= λ _. ok s
  shake _ s = err unexpected_message

  -- What `into_future` of a socket gives, with the continuation of each message.
  pub heard :
      {A : Type 0}
      → (HandshakeMessage U → Socket D → Single A)
      → Socket D × Front.Polled C
      → Single A
  heard on (s, ok (ready (some m))) = on m s
  heard on (s, ok (ready none)) = err connection_dropped
  heard on (s, ok not_ready) = err timed_out
  heard on (s, err e) = err (socket_error e)

  pub frame : Result IoError (Option D) → Result IoError (Async (Option D))
  frame (ok d) = ok (ready d)
  frame (err e) = err e

  pub replied : Reply D → Socket D → Single (Socket D)
  unfolding shake heard frame
  replied too_late s = err timed_out
  replied (arrives f) s = heard shake (Front.poll C (frame f) s)

  -- The handshake on a connection, each way around.
  unfoldable pub handshake : Attempt U D → Single (Shaken D)
  unfolding replied our_connect_request validate_connect_request
  handshake (came i) = validate_connect_request uids their_uid name_hash i.request >>= λ _.
      let (s', r) = Front.start_send C 0 our_connect_request i.socket in
      map_err socket_error r >>= λ _. ok (s', i.choice)
  handshake (went (err e)) = err (io e)
  handshake (went (ok (addr, talk))) =
      let (s', r) = Front.start_send C 0 our_connect_request (Front.wrap_tcp addr) in
      map_err socket_error r >>= λ _. replied talk.reply s' >>= λ s''. ok (s'', talk.choice)

  pub make_peer : Socket D → Result IoError (Peer U D)
  make_peer s = from_handshaken_socket w.clock.now w.clock.timers s their_uid node

  -- The side with the greater uid: the first connection is chosen, and the other side told.
  pub choose_on : Shaken D → Result (ConnectError U C.Error) (Peer U D)
  unfolding make_peer
  choose_on (s, later) =
      let (s', r) = Front.start_send C 0 choose_connection s in
      map_err choose_error r >>= λ _. map_err connect_io (make_peer s')

  unfoldable pub choose : List (Single (Shaken D)) → Result (ConnectError U C.Error) (Peer U D)
  unfolding choose_on
  choose shaken = map_err all_connections_failed (w.sockets.apply shaken) >>= choose_on

  -- The other side: it waits on each connection for being chosen.
  pub on_choice : HandshakeMessage U → Socket D → Single (Peer U D)
  unfolding make_peer
  on_choice choose_connection s = map_err io (make_peer s)
  on_choice _ s = err unexpected_message

  pub await_choice : Single (Shaken D) → Option (Single (Peer U D))
  unfolding on_choice heard frame
  await_choice (err e) = some (err e)
  await_choice (ok (s, none)) = none
  await_choice (ok (s, some f)) = some (heard on_choice (Front.poll C (frame f) s))

  pub be_chosen : List (Single (Shaken D)) → Result (ConnectError U C.Error) (Peer U D)
  unfolding await_choice
  be_chosen shaken =
      map_err all_connections_failed (w.peers.apply (somes (map await_choice shaken)))

module _ {U : Type 0} (uids : Uid U) where
  -- Which side chooses.
  unfoldable pub chooses : U → U → Bool
  chooses our_uid their_uid = uids.lt their_uid our_uid

module _ {U D : Type 0} (C : Codec (HandshakeMessage U) D) (uids : Uid U) (w : World U D C.Error)
    (name_hash : NameHash) (our_info : PrivConnectionInfo U) (their_info : PubConnectionInfo U)
    (config : ConfigSettings) where
  unfoldable pub punched :
      Option SocketAddr → Result IoError (List (Attempted (SocketAddr × Talk D)))
  unfolding tcp_hole_punch
  punched none = ok []
  punched (some listen_socket) =
      tcp_hole_punch w.puncher (allowed config.whitelisted_node_ips their_info.for_hole_punch)

  -- All connections, by those of the hole punching.
  unfoldable pub attempts : List (Attempted (SocketAddr × Talk D)) → List (Attempt U D)
  attempts holes =
      map came w.peer_rx
      ++ map went (
          somes (
            map (λ addr. at_addr addr (w.dial addr))
              (allowed config.whitelisted_node_ips their_info.for_direct)
            ++ holes))

  unfoldable pub settle : List (Attempt U D) → Result (ConnectError U C.Error) (Peer U D)
  unfolding handshake choose be_chosen chooses
  settle tried =
      let shaken = map (handshake C uids w our_info.id their_info.id name_hash) tried in
      if chooses uids our_info.id their_info.id
      then choose C uids w our_info.id their_info.id name_hash shaken
      else be_chosen C uids w our_info.id their_info.id name_hash shaken

  unfoldable pub connect : Result (ConnectError U C.Error) (Peer U D)
  unfolding punched attempts settle
  connect =
      if same uids.eq our_info.id their_info.id
      then err requested_connect_to_self
      else map_err connect_io (punched our_info.hole_punch_socket) >>= λ holes.
          map_err connect_io w.timeout >>= λ _. settle (attempts holes)
