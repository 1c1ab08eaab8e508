-- ===== src/Compat/Service/Refines.antt =====
-- crust/src/compat/service.rs: a run of the event loop is a run of the connection map.
use crust_futures.Base.{
  ℕ, ◌≡◌, refl, sym, subst, List, [], ◌∷◌, ◌++◌, Option, none, some, true, false, Result, ok, err,
  Bool-cases, inl, inr,
}
use crust_futures.Addr.{IpAddr, SocketAddr, CrustUser, Uid}
use crust_futures.Net.{IoError}
use crust_futures.Compat.Event.{
  Event, bootstrap_accept, bootstrap_connect, bootstrap_failed, connect_success, connect_failure,
}
use crust_futures.Compat.Map
use crust_futures.Compat.Map.{State}
use crust_futures.Compat.Map.Connected.{IsConnected}
use crust_futures.Compat.Map.Steps
use crust_futures.Compat.Map.Steps.{Reach, Reach-IsConnected, new-IsConnected}
use crust_futures.Compat.Service
use crust_futures.Compat.Service.{ServiceState}
use crust_futures.Compat.Service.Runs
use crust_futures.Compat.Service.Runs.{Command, Step, Run}

module _ {U B : Type 0} (uids : Uid U) where
  stays : {s t : State U B} → t ≡ s → Reach uids s t
  stays {s} e = subst (Reach uids s) (sym e) Steps.here

  Reach-trans : {s t u : State U B} → Reach uids s t → Reach uids t u → Reach uids s u
  Reach-trans r Steps.here = r
  Reach-trans r (Steps.next q st) = Steps.next (Reach-trans r q) st

  pub accept_on-cm : (o : Option ℕ) (s : ServiceState U B) → (Service.accept_on o s).cm ≡ s.cm
  unfolding Service.accept_on
  accept_on-cm none s = refl
  accept_on-cm (some n) s = refl

  pub listen_on-cm : (o : Option ℕ) (s : ServiceState U B) → (Service.listen_on o s).cm ≡ s.cm
  unfolding Service.listen_on
  listen_on-cm none s = refl
  listen_on-cm (some n) s = refl

  call-Reach :
      (c : Command U B) (s : ServiceState U B) → Reach uids s.cm (Runs.call_box uids c s).cm
  unfolding Runs.call_box Service.start_service_discovery Service.set_service_discovery_listen
      Service.set_accept_bootstrap Service.start_bootstrap Service.stop_bootstrap
      Service.start_listening_tcp Service.stop_tcp_listener Service.prepare_connection_info
      Service.connect Service.disconnect Service.send
  call-Reach Command.start_service_discovery s = Steps.here
  call-Reach (Command.set_service_discovery_listen false started) s = Steps.here
  call-Reach (Command.set_service_discovery_listen true (ok port)) s = Steps.here
  call-Reach (Command.set_service_discovery_listen true (err e)) s = Steps.here
  call-Reach (Command.set_accept_bootstrap true) s = stays (accept_on-cm s.bootstrap_acceptor s)
  call-Reach (Command.set_accept_bootstrap false) s = Steps.here
  call-Reach (Command.start_bootstrap blacklist user) s = Steps.here
  call-Reach Command.stop_bootstrap s = Steps.here
  call-Reach Command.start_listening_tcp s = stays (listen_on-cm s.tcp_listener s)
  call-Reach Command.stop_tcp_listener s = Steps.here
  call-Reach (Command.prepare_connection_info token) s = Steps.here
  call-Reach (Command.connect uid) s = Steps.here
  call-Reach (Command.disconnect uid) s = Steps.next Steps.here (Steps.removes uid)
  call-Reach (Command.send accepts uid msg priority) s =
      Steps.next Steps.here (Steps.sends accepts uid msg priority)

  -- A peer is inserted, and an event sent behind it.
  insert_and_tell :
      (uid : U) (kind : CrustUser) (addr : SocketAddr) (e : Event U B) (s : State U B)
      → Reach uids s (record (Map.insert_peer uids uid kind addr s).0 {
        events = (Map.insert_peer uids uid kind addr s).0.events ++ e ∷ [];
      })
  insert_and_tell uid kind addr e s =
      Steps.next (Steps.next Steps.here (Steps.inserts uid kind addr)) (Steps.tells e)

  listener-Reach :
      (n : ℕ) (res : Result IoError ℕ) (s : ServiceState U B)
      → Reach uids s.cm (Service.listener_started_step n res s).cm
  unfolding Service.listener_started_step
  listener-Reach n (ok port) s = Steps.next Steps.here (Steps.tells _)
  listener-Reach n (err e) s = Steps.here

  filter-Reach :
      (client_ips node_ips : Option (List IpAddr)) (cm : State U B)
      → Reach uids cm (Service.filter_peers uids client_ips node_ips cm)
  unfolding Service.filter_peers
  filter-Reach none none cm = Steps.here
  filter-Reach none (some ips) cm = Steps.next Steps.here (Steps.filters [] ips)
  filter-Reach (some ips) none cm = Steps.next Steps.here (Steps.filters ips [])
  filter-Reach (some cs) (some ns) cm = Steps.next Steps.here (Steps.filters cs ns)

module _ {U B E : Type 0} (uids : Uid U) where
  accepted-Reach :
      (uid : U) (kind : CrustUser) (addr : Result E SocketAddr) (s : ServiceState U B)
      → Reach uids s.cm (Service.accepted_step uids uid kind addr s).cm
  unfolding Service.accepted_step Service.insert Service.send_event
  accepted-Reach uid kind (err e) s = Steps.here
  accepted-Reach uid kind (ok addr) s =
      elim (Bool-cases (Map.insert_peer uids uid kind addr s.cm).1) [
        | inl e ↦ rw e (insert_and_tell uids uid kind addr (bootstrap_accept uid kind) s.cm)
        | inr e ↦ rw e (Steps.next Steps.here (Steps.inserts uid kind addr))
      ]

  bootstrapped-Reach :
      (n : ℕ) (res : Result E (U × CrustUser × Result E SocketAddr)) (s : ServiceState U B)
      → Reach uids s.cm (Service.bootstrapped_step uids n res s).cm
  unfolding Service.bootstrapped_step Service.insert Service.send_event
  bootstrapped-Reach n (err e) s = Steps.next Steps.here (Steps.tells bootstrap_failed)
  bootstrapped-Reach n (ok (uid, kind, err e)) s =
      Steps.next Steps.here (Steps.tells bootstrap_failed)
  bootstrapped-Reach n (ok (uid, kind, ok addr)) s =
      insert_and_tell uids uid kind addr (bootstrap_connect uid addr) s.cm

  connected-Reach :
      (n : ℕ) (uid : U) (res : Result E (CrustUser × Result E SocketAddr)) (s : ServiceState U B)
      → Reach uids s.cm (Service.connected_step uids n uid res s).cm
  unfolding Service.connected_step Service.insert Service.send_event
  connected-Reach n uid (err e) s = Steps.next Steps.here (Steps.tells (connect_failure uid))
  connected-Reach n uid (ok (kind, err e)) s =
      Steps.next Steps.here (Steps.tells (connect_failure uid))
  connected-Reach n uid (ok (kind, ok addr)) s =
      insert_and_tell uids uid kind addr (connect_success uid) s.cm

  pub Step-Reach : {s t : ServiceState U B} → Step E uids s t → Reach uids s.cm t.cm
  unfolding Service.config_updated Service.prepared_step Service.drop
  Step-Reach {s} (Step.calls c) = call-Reach uids c s
  Step-Reach {s} (Step.updates c) =
      filter-Reach uids c.whitelisted_client_ips c.whitelisted_node_ips s.cm
  Step-Reach {s} (Step.accepts t uid kind addr m j) = accepted-Reach uid kind addr s
  Step-Reach {s} (Step.bootstraps t blacklist discover user res m j) = bootstrapped-Reach t.id res s
  Step-Reach {s} (Step.listens t res m j) = listener-Reach uids t.id res s
  Step-Reach (Step.prepares t token res m j) = Steps.next Steps.here (Steps.tells _)
  Step-Reach {s} (Step.connects t uid res m j) = connected-Reach t.id uid res s
  Step-Reach (Step.ends t m n) = Steps.here
  Step-Reach (Step.receives t msg m) = Steps.next Steps.here (Steps.receives t msg m)
  Step-Reach (Step.finishes t m) = Steps.next Steps.here (Steps.finishes t m)
  Step-Reach Step.drops = Steps.next Steps.here Steps.clears

  -- Whatever commands the event loop receives and however its tasks go on, what happens to the
  -- connection map is a run of the connection map by its own operations.
  Run-Reach : {s t : ServiceState U B} → Run E uids s t → Reach uids s.cm t.cm
  Run-Reach Run.here = Steps.here
  Run-Reach (Run.next r st) = Reach-trans uids (Run-Reach r) (Step-Reach st)

  -- So the map and the reading tasks of a service agree from its start on.
  pub Run-IsConnected :
      {s : ServiceState U B} → Run E uids (Service.new uids) s → IsConnected uids s.cm
  unfolding Service.new
  Run-IsConnected r = Reach-IsConnected uids (Run-Reach r) (new-IsConnected uids)
