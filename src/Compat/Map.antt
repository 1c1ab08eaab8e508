-- ===== src/Compat/Map.antt =====
-- crust/src/compat/connection_map.rs: the map of connected peers together with the tasks that read
-- from them. The map's lock makes each operation one step. A connection is named by the number of
-- the `insert_peer` that made it; dropping a wrapper fires the drop notice of its connection.
pub mod Laws
pub mod Stale
pub mod Entries
pub mod Connected
pub mod Steps
pub mod Announced
use crust_futures.Base.{
  ℕ, suc, ◌≡◌, List, [], ◌∷◌, ◌++◌, Option, none, some, Bool, true, false, not, Result, ok, err,
  same, contains, if◌then◌else◌, ◌==◌, keep,
}
use crust_futures.Compat.Event.{Event, new_message, lost_peer}
use crust_futures.Addr.{IpAddr, IpAddr-discrete, SocketAddr, CrustUser, node, client, Uid}

-- `PeerWrapper`: its `drop_tx` and `peer_sink` are those of the connection `conn`.
pub record PeerWrapper : Type 0 where
  pub conn : ℕ
  pub addr : SocketAddr
  pub kind : CrustUser

-- The reading task of a connection, and whether its drop notice has fired.
pub record ReadTask (U : Type 0) : Type 0 where
  pub conn : ℕ
  pub uid : U
  pub kind : CrustUser
  pub notified : Bool

pub record State (U B : Type 0) : Type 0 where
  pub map : List (U × PeerWrapper)
  pub tasks : List (ReadTask U)
  -- What was handed to each connection's sink, newest last, and the events sent.
  pub sent : List (ℕ × ℕ × B)
  pub events : List (Event U B)
  pub next_conn : ℕ

is_some {ℓ} : {A : Type ℓ} → Option A → Bool
is_some none = false
is_some (some a) = true

pub data SendError : Type 0 where
  peer_not_found peer_error : SendError

unfoldable pub is_listed : List IpAddr → List IpAddr → PeerWrapper → Bool
is_listed client_ips node_ips w = elim w.kind [
  | node ↦ contains IpAddr-discrete node_ips w.addr.ip
  | client ↦ contains IpAddr-discrete client_ips w.addr.ip
]

addr_of : Option PeerWrapper → Result SendError SocketAddr
addr_of none = err peer_not_found
addr_of (some w) = ok w.addr

module _ {U : Type 0} where
  -- The drop notice of a connection fires.
  pub fire : ℕ → List (ReadTask U) → List (ReadTask U)
  fire c [] = []
  fire c (t ∷ ts) = if t.conn == c then record t { notified = true } ∷ fire c ts else t ∷ fire c ts

  pub fire_all : List (U × PeerWrapper) → List (ReadTask U) → List (ReadTask U)
  unfolding fire
  fire_all [] ts = ts
  fire_all ((v, w) ∷ m) ts = fire_all m (fire w.conn ts)

  pub without : ℕ → List (ReadTask U) → List (ReadTask U)
  without c [] = []
  without c (t ∷ ts) = if t.conn == c then without c ts else t ∷ without c ts

module _ {U : Type 0} (uids : Uid U) where
  unfoldable pub get : U → List (U × PeerWrapper) → Option PeerWrapper
  get u [] = none
  get u ((v, w) ∷ m) = if same uids.eq v u then some w else get u m

  -- `HashMap::remove`; a map holds a uid once.
  pub erase : U → List (U × PeerWrapper) → List (U × PeerWrapper)
  erase u [] = []
  erase u ((v, w) ∷ m) = if same uids.eq v u then erase u m else (v, w) ∷ erase u m

module _ {U B : Type 0} (uids : Uid U) where
  unfoldable pub new : State U B
  new = record { map = []; tasks = []; sent = []; events = []; next_conn = 0 }

  unfoldable pub contains_peer : U → State U B → Bool
  unfolding is_some
  contains_peer u s = is_some (get uids u s.map)

  -- `insert_peer`: a peer whose uid is in the map already is dropped.
  unfoldable pub insert_peer : U → CrustUser → SocketAddr → State U B → State U B × Bool
  unfolding contains_peer
  insert_peer uid kind addr s = if contains_peer uid s then (s, false) else (
    record s {
      map = (uid, record { conn = s.next_conn; addr = addr; kind = kind }) ∷ s.map;
      tasks = record { conn = s.next_conn; uid = uid; kind = kind; notified = false } ∷ s.tasks;
      next_conn = suc s.next_conn;
    },
    true,
  )

  -- The wrapper, if there is one, is dropped with its notice.
  removed : Option PeerWrapper → U → State U B → State U B × Bool
  unfolding erase fire
  removed none uid s = (s, false)
  removed (some w) uid s =
      (record s { map = erase uids uid s.map; tasks = fire w.conn s.tasks }, true)

  unfoldable pub remove : U → State U B → State U B × Bool
  unfolding removed
  remove uid s = removed (get uids uid s.map) uid s

  -- `send`: `accepts` tells whether the sink of a connection still takes messages.
  sent_to :
      Option PeerWrapper → (ℕ → Bool) → ℕ → B → State U B → State U B × Result SendError (Unit {0})
  sent_to none accepts priority msg s = (s, err peer_not_found)
  sent_to (some w) accepts priority msg s =
      if accepts w.conn
      then (record s { sent = s.sent ++ (w.conn, priority, msg) ∷ [] }, ok tt)
      else (s, err peer_error)

  unfoldable pub send : (ℕ → Bool) → U → B → ℕ → State U B → State U B × Result SendError (Unit {0})
  unfolding sent_to
  send accepts uid msg priority s = sent_to (get uids uid s.map) accepts priority msg s

  unfoldable pub peer_addr : U → State U B → Result SendError SocketAddr
  unfolding addr_of
  peer_addr uid s = addr_of (get uids uid s.map)

  -- `retain`, and the wrappers that it drops.
  unfoldable pub whitelist_filter : List IpAddr → List IpAddr → State U B → State U B
  unfolding is_listed fire_all
  whitelist_filter client_ips node_ips s = record s {
    map = keep (λ e. is_listed client_ips node_ips e.1) s.map;
    tasks = fire_all (keep (λ e. not (is_listed client_ips node_ips e.1)) s.map) s.tasks;
  }

  unfoldable pub clear : State U B → State U B
  unfolding fire_all
  clear s = record s { map = []; tasks = fire_all s.map s.tasks }

  -- A message arrives on a connection: `for_each` of the task. A task whose notice has fired may
  -- do so too, up to its next poll of the notice.
  pub receive : ReadTask U → B → State U B → State U B
  receive t msg s = record s { events = s.events ++ new_message t.uid t.kind msg ∷ [] }

  -- The task ends, as its stream has ended or its notice has fired: it removes its uid from the
  -- map, and reports the peer as lost.
  pub finish : ReadTask U → State U B → State U B
  unfolding remove without
  finish t s =
      let s' = (remove t.uid (record s { tasks = without t.conn s.tasks })).0 in
      record s' { events = s'.events ++ lost_peer t.uid ∷ [] }
