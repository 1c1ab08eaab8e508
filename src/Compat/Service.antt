-- ===== src/Compat/Service.antt =====
-- crust/src/compat/service.rs: the commands that the event loop runs on its state, and the tasks that
-- they spawn. What a task's future resolves to is an argument of the task's step; a task whose drop
-- notice has fired is marked, and may end without a trace.
pub mod Runs
pub mod Refines
pub mod Announced
pub mod Handles
pub mod Faults
pub mod Updated
use crust_futures.Base.{
  ℕ, suc, List, [], ◌∷◌, ◌++◌, Option, none, some, Bool, true, false, ◌&&◌, Result, ok, err, ◌>>=◌,
  if◌then◌else◌, ◌==◌, same, any,
}
use crust_futures.Addr.{IpAddr, IpAddr-discrete, SocketAddr, CrustUser, Uid}
use crust_futures.Net.{IoError}
use crust_futures.Config.{ConfigSettings}
use crust_futures.ConnectionInfo.{PrivConnectionInfo}
use crust_futures.Compat.Event.{
  Event, bootstrap_accept, bootstrap_connect, bootstrap_failed, listener_started,
  connection_info_prepared, connect_success, connect_failure,
}
use crust_futures.Compat.Map
use crust_futures.Compat.Map.{SendError}

pub data Job (U : Type 0) : Type 0 where
  -- Accepting bootstrapping peers; bootstrapping, without some addresses, over the local network or
  -- not, as a kind of user.
  accepting : Job U
  bootstrapping : List SocketAddr → Bool → CrustUser → Job U
  -- Starting a listener, and holding the one that listens on a port.
  starting : Job U
  listening : ℕ → Job U
  preparing : ℕ → Job U
  connecting : U → Job U

pub record Task (U : Type 0) : Type 0 where
  pub id : ℕ
  pub job : Job U
  pub notified : Bool

-- The state of the event loop. A `DropNotify` is the number of its task; a service discovery is the
-- port that it answers on.
pub record ServiceState (U B : Type 0) : Type 0 where
  pub cm : Map.State U B
  pub bootstrap_acceptor : Option ℕ
  pub bootstrap_connect : Option ℕ
  pub tcp_listener : Option ℕ
  pub service_discovery : Option ℕ
  pub service_discovery_enabled : Bool
  pub tasks : List (Task U)
  pub next_task : ℕ

module _ {U : Type 0} where
  -- A task is told that its `DropNotify` is gone.
  unfoldable pub notify : ℕ → List (Task U) → List (Task U)
  notify n [] = []
  notify n (t ∷ ts) = (if t.id == n then record t { notified = true } else t) ∷ notify n ts

  unfoldable pub drop_notify : Option ℕ → List (Task U) → List (Task U)
  unfolding notify
  drop_notify none ts = ts
  drop_notify (some n) ts = notify n ts

  pub end_task : ℕ → List (Task U) → List (Task U)
  end_task n [] = []
  end_task n (t ∷ ts) = if t.id == n then end_task n ts else t ∷ end_task n ts

  pub set_job : ℕ → Job U → List (Task U) → List (Task U)
  set_job n job [] = []
  set_job n job (t ∷ ts) = (if t.id == n then record t { job = job } else t) ∷ set_job n job ts

  -- `ServiceState::new`.
  unfoldable pub new : {B : Type 0} → Uid U → ServiceState U B
  new uids = record {
    cm = Map.new uids;
    bootstrap_acceptor = none;
    bootstrap_connect = none;
    tcp_listener = none;
    service_discovery = none;
    service_discovery_enabled = false;
    tasks = [];
    next_task = 0;
  }

module _ {U B : Type 0} where
  -- `event_tx.send`, on the channel that the connection map sends on too.
  pub send_event : Event U B → ServiceState U B → ServiceState U B
  send_event e s = record s { cm = record (s.cm) { events = s.cm.events ++ e ∷ [] } }

  unfoldable pub spawn : Job U → ServiceState U B → ServiceState U B
  spawn job s = record s {
    tasks = record { id = s.next_task; job = job; notified = false } ∷ s.tasks;
    next_task = suc s.next_task;
  }

  pub start_service_discovery : ServiceState U B → ServiceState U B
  start_service_discovery s = record s { service_discovery_enabled = true }

  -- `started` is what starting the server gives: the port that it has, or an error, which is logged.
  pub set_service_discovery_listen : Bool → Result IoError ℕ → ServiceState U B → ServiceState U B
  set_service_discovery_listen false started s = record s { service_discovery = none }
  set_service_discovery_listen true (ok port) s = record s { service_discovery = some port }
  set_service_discovery_listen true (err e) s = s

  pub accept_on : Option ℕ → ServiceState U B → ServiceState U B
  unfolding spawn
  accept_on (some n) s = s
  accept_on none s = record (spawn accepting s) { bootstrap_acceptor = some s.next_task }

  pub set_accept_bootstrap : Bool → ServiceState U B → ServiceState U B
  unfolding accept_on drop_notify
  set_accept_bootstrap true s = accept_on s.bootstrap_acceptor s
  set_accept_bootstrap false s = record s {
    bootstrap_acceptor = none;
    tasks = drop_notify s.bootstrap_acceptor s.tasks;
  }

  -- The new task's `DropNotify` takes the place of the old one, which is dropped.
  pub start_bootstrap : List SocketAddr → CrustUser → ServiceState U B → ServiceState U B
  unfolding spawn drop_notify
  start_bootstrap blacklist crust_user s =
      let s' = record s { tasks = drop_notify s.bootstrap_connect s.tasks } in
      record (spawn (bootstrapping blacklist s.service_discovery_enabled crust_user) s') {
        bootstrap_connect = some s.next_task;
      }

  pub stop_bootstrap : ServiceState U B → ServiceState U B
  unfolding drop_notify
  stop_bootstrap s = record s {
    bootstrap_connect = none;
    tasks = drop_notify s.bootstrap_connect s.tasks;
  }

  unfoldable pub listen_on : Option ℕ → ServiceState U B → ServiceState U B
  unfolding spawn
  listen_on (some n) s = s
  listen_on none s = record (spawn starting s) { tcp_listener = some s.next_task }

  unfoldable pub start_listening_tcp : ServiceState U B → ServiceState U B
  unfolding listen_on
  start_listening_tcp s = listen_on s.tcp_listener s

  unfoldable pub stop_tcp_listener : ServiceState U B → ServiceState U B
  unfolding drop_notify
  stop_tcp_listener s = record s { tcp_listener = none; tasks = drop_notify s.tcp_listener s.tasks }

  pub prepare_connection_info : ℕ → ServiceState U B → ServiceState U B
  unfolding spawn
  prepare_connection_info result_token s = spawn (preparing result_token) s

  unfoldable pub connect : U → ServiceState U B → ServiceState U B
  unfolding spawn
  connect their_uid s = spawn (connecting their_uid) s

  -- The futures that the tasks of a listener and of connection info resolve to.
  pub listener_started_step : ℕ → Result IoError ℕ → ServiceState U B → ServiceState U B
  unfolding send_event set_job end_task
  listener_started_step n (ok port) s =
      send_event (listener_started port) (record s { tasks = set_job n (listening port) s.tasks })
  listener_started_step n (err e) s = record s { tasks = end_task n s.tasks }

  pub prepared_step :
      ℕ → ℕ → Result IoError (PrivConnectionInfo U) → ServiceState U B → ServiceState U B
  unfolding send_event end_task
  prepared_step n result_token result s =
      send_event
        (connection_info_prepared (record { result_token = result_token; result = result }))
        (record s { tasks = end_task n s.tasks })

module _ {U B : Type 0} (uids : Uid U) where
  -- `cm.insert_peer`.
  insert : U → CrustUser → SocketAddr → ServiceState U B → ServiceState U B × Bool
  unfolding Map.insert_peer
  insert uid kind addr s =
      let (cm', done) = Map.insert_peer uids uid kind addr s.cm in (record s { cm = cm' }, done)

module _ {U B E : Type 0} (uids : Uid U) where
  -- A peer has bootstrapped to us; without an address it is dropped.
  pub accepted_step : U → CrustUser → Result E SocketAddr → ServiceState U B → ServiceState U B
  unfolding insert send_event
  accepted_step uid kind (err e) s = s
  accepted_step uid kind (ok addr) s =
      let (s', done) = insert uids uid kind addr s in
      if done then send_event (bootstrap_accept uid kind) s' else s'

  -- The end of a bootstrap: a peer, with or without an address, or an error.
  bootstrap_end :
      Result E (U × CrustUser × Result E SocketAddr) → ServiceState U B → ServiceState U B
  unfolding insert send_event
  bootstrap_end (err e) s = send_event bootstrap_failed s
  bootstrap_end (ok (uid, kind, err e)) s = send_event bootstrap_failed s
  bootstrap_end (ok (uid, kind, ok addr)) s =
      send_event (bootstrap_connect uid addr) (insert uids uid kind addr s).0

  pub bootstrapped_step :
      ℕ → Result E (U × CrustUser × Result E SocketAddr) → ServiceState U B → ServiceState U B
  unfolding bootstrap_end end_task
  bootstrapped_step n res s = bootstrap_end res (record s { tasks = end_task n s.tasks })

  -- The end of `connect` to the peer `uid`, whose uid the new peer has.
  connect_end : U → Result E (CrustUser × Result E SocketAddr) → ServiceState U B → ServiceState U B
  unfolding insert send_event
  connect_end uid (err e) s = send_event (connect_failure uid) s
  connect_end uid (ok (kind, err e)) s = send_event (connect_failure uid) s
  connect_end uid (ok (kind, ok addr)) s =
      send_event (connect_success uid) (insert uids uid kind addr s).0

  pub connected_step :
      ℕ → U → Result E (CrustUser × Result E SocketAddr) → ServiceState U B → ServiceState U B
  unfolding connect_end end_task
  connected_step n uid res s = connect_end uid res (record s { tasks = end_task n s.tasks })

abbrev or_empty : Option (List IpAddr) → List IpAddr
or_empty none = []
or_empty (some ips) = ips

hard_coded : ConfigSettings → Result SendError SocketAddr → Bool
hard_coded c (ok peer_addr) =
    any (λ addr. same IpAddr-discrete addr.ip peer_addr.ip) c.hard_coded_contacts
hard_coded c (err e) = false

module _ {U B : Type 0} (uids : Uid U) where
  -- What the task that watches the configuration does at a notice, with the white lists of clients
  -- and of nodes.
  unfoldable pub filter_peers :
      Option (List IpAddr) → Option (List IpAddr) → Map.State U B → Map.State U B
  unfolding Map.whitelist_filter
  filter_peers none none cm = cm
  filter_peers client_ips node_ips cm =
      Map.whitelist_filter uids (or_empty client_ips) (or_empty node_ips) cm

  unfoldable pub config_updated : ConfigSettings → ServiceState U B → ServiceState U B
  unfolding filter_peers
  config_updated c s = record s {
    cm = filter_peers c.whitelisted_client_ips c.whitelisted_node_ips s.cm;
  }

  pub get_peer_socket_addr : U → ServiceState U B → Result SendError SocketAddr
  unfolding Map.peer_addr
  get_peer_socket_addr peer_uid s = Map.peer_addr uids peer_uid s.cm

  pub get_peer_ip_addr : U → ServiceState U B → Result SendError IpAddr
  unfolding get_peer_socket_addr
  get_peer_ip_addr peer_uid s = get_peer_socket_addr peer_uid s >>= λ a. ok a.ip

  pub is_peer_hard_coded : ConfigSettings → U → ServiceState U B → Bool
  unfolding hard_coded
  is_peer_hard_coded c peer_uid s = hard_coded c (Map.peer_addr uids peer_uid s.cm)

  pub disconnect : U → ServiceState U B → ServiceState U B × Bool
  unfolding Map.remove
  disconnect peer_uid s =
      let (cm', there) = Map.remove uids peer_uid s.cm in (record s { cm = cm' }, there)

  pub send :
      (ℕ → Bool) → U → B → ℕ → ServiceState U B → ServiceState U B × Result SendError (Unit {0})
  unfolding Map.send
  send accepts peer_uid msg priority s =
      let (cm', r) = Map.send uids accepts peer_uid msg priority s.cm in (record s { cm = cm' }, r)

  pub is_connected : U → ServiceState U B → Bool
  is_connected peer_uid s = Map.contains_peer uids peer_uid s.cm

  -- `Drop for ServiceState`.
  pub drop : ServiceState U B → ServiceState U B
  unfolding Map.clear
  drop s = record s { cm = Map.clear uids s.cm }
