-- ===== src/Compat/Service/Runs.antt =====
-- crust/src/compat/service.rs and event_loop.rs: the runs of the event loop, as steps of the commands
-- that it receives and of the tasks on it.
use crust_futures.Base.{ℕ, ◌≡◌, List, Bool, true, Result, Memᴰ}
use crust_futures.Addr.{SocketAddr, CrustUser, Uid}
use crust_futures.Net.{IoError}
use crust_futures.Config.{ConfigSettings}
use crust_futures.ConnectionInfo.{PrivConnectionInfo}
use crust_futures.Compat.Map
use crust_futures.Compat.Map.{ReadTask}
use crust_futures.Compat.Service

-- A command, by the method of the service that sends it.
pub data Command (U B : Type 0) : Type 0 where
  start_service_discovery : Command U B
  set_service_discovery_listen : Bool → Result IoError ℕ → Command U B
  set_accept_bootstrap : Bool → Command U B
  start_bootstrap : List SocketAddr → CrustUser → Command U B
  stop_bootstrap start_listening_tcp stop_tcp_listener : Command U B
  prepare_connection_info : ℕ → Command U B
  connect disconnect : U → Command U B
  send : (ℕ → Bool) → U → B → ℕ → Command U B

module _ {U B : Type 0} (uids : Uid U) where
  -- `cb.call_box(&mut service_state)`.
  unfoldable pub call_box : Command U B → Service.ServiceState U B → Service.ServiceState U B
  call_box start_service_discovery s = Service.start_service_discovery s
  call_box (set_service_discovery_listen listen started) s =
      Service.set_service_discovery_listen listen started s
  call_box (set_accept_bootstrap accept) s = Service.set_accept_bootstrap accept s
  call_box (start_bootstrap blacklist crust_user) s = Service.start_bootstrap blacklist crust_user s
  call_box stop_bootstrap s = Service.stop_bootstrap s
  call_box start_listening_tcp s = Service.start_listening_tcp s
  call_box stop_tcp_listener s = Service.stop_tcp_listener s
  call_box (prepare_connection_info result_token) s = Service.prepare_connection_info result_token s
  call_box (connect their_uid) s = Service.connect their_uid s
  call_box (disconnect peer_uid) s = (Service.disconnect uids peer_uid s).0
  call_box (send accepts peer_uid msg priority) s =
      (Service.send uids accepts peer_uid msg priority s).0

module _ {U B : Type 0} (E : Type 0) (uids : Uid U) where
  -- A step of the event loop: a command, or the progress of a task that is there.
  pub data Step (s : Service.ServiceState U B) : Service.ServiceState U B → Type 0 where
    calls : (c : Command U B) → Step s (call_box uids c s)
    updates : (c : ConfigSettings) → Step s (Service.config_updated uids c s)
    accepts :
        (t : Service.Task U) (uid : U) (kind : CrustUser) (addr : Result E SocketAddr)
        → Memᴰ t s.tasks
        → t.job ≡ Service.accepting
        → Step s (Service.accepted_step uids uid kind addr s)
    bootstraps :
        (t : Service.Task U) (blacklist : List SocketAddr) (discover : Bool) (user : CrustUser)
        (res : Result E (U × CrustUser × Result E SocketAddr))
        → Memᴰ t s.tasks
        → t.job ≡ Service.bootstrapping blacklist discover user
        → Step s (Service.bootstrapped_step uids t.id res s)
    listens :
        (t : Service.Task U) (res : Result IoError ℕ)
        → Memᴰ t s.tasks
        → t.job ≡ Service.starting
        → Step s (Service.listener_started_step t.id res s)
    prepares :
        (t : Service.Task U) (token : ℕ) (res : Result IoError (PrivConnectionInfo U))
        → Memᴰ t s.tasks
        → t.job ≡ Service.preparing token
        → Step s (Service.prepared_step t.id token res s)
    connects :
        (t : Service.Task U) (uid : U) (res : Result E (CrustUser × Result E SocketAddr))
        → Memᴰ t s.tasks
        → t.job ≡ Service.connecting uid
        → Step s (Service.connected_step uids t.id uid res s)
    ends :
        (t : Service.Task U)
        → Memᴰ t s.tasks
        → t.notified ≡ true
        → Step s (record s { tasks = Service.end_task t.id s.tasks })
    receives :
        (t : ReadTask U) (msg : B)
        → Memᴰ t s.cm.tasks
        → Step s (record s { cm = Map.receive uids t msg s.cm })
    finishes :
        (t : ReadTask U) → Memᴰ t s.cm.tasks → Step s (record s { cm = Map.finish uids t s.cm })
    drops : Step s (Service.drop uids s)

  pub data Run (s : Service.ServiceState U B) : Service.ServiceState U B → Type 0 where
    here : Run s s
    next : {t u : Service.ServiceState U B} → Run s t → Step t u → Run s u
