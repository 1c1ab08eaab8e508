-- ===== src/Compat/Service/Announced.antt =====
-- crust/src/compat/service.rs: the order in which the owner of a service hears of its peers.
use crust_futures.Base.{
  ℕ, ◌≡◌, refl, sym, subst, List, [], Option, none, some, true, false, Result, ok, err, Bool-cases,
  inl, inr,
}
use crust_futures.Addr.{IpAddr, SocketAddr, CrustUser, Uid}
use crust_futures.Net.{IoError}
use crust_futures.Compat.Event.{
  bootstrap_accept, bootstrap_connect, bootstrap_failed, connect_success, connect_failure,
}
use crust_futures.Compat.Map
use crust_futures.Compat.Map.{State}
use crust_futures.Compat.Map.Announced.{
  InOrder, Tells, tell-Tells, insert-Tells, finish-Tells, receive-Tells, remove-Tells, send-Tells,
  whitelist_filter-Tells, clear-Tells,
}
use crust_futures.Compat.Service
use crust_futures.Compat.Service.{ServiceState}
use crust_futures.Compat.Service.Refines.{accept_on-cm, listen_on-cm}
use crust_futures.Compat.Service.Runs
use crust_futures.Compat.Service.Runs.{Command, Step, Run}

module _ {U B : Type 0} (uids : Uid U) where
  call-Tells :
      (c : Command U B) (s : ServiceState U B) → Tells s.cm → Tells (Runs.call_box uids c s).cm
  unfolding Runs.call_box Service.start_service_discovery Service.set_service_discovery_listen
      Service.set_accept_bootstrap Service.start_bootstrap Service.stop_bootstrap
      Service.start_listening_tcp Service.stop_tcp_listener Service.prepare_connection_info
      Service.connect Service.disconnect Service.send
  call-Tells Command.start_service_discovery s t = t
  call-Tells (Command.set_service_discovery_listen false started) s t = t
  call-Tells (Command.set_service_discovery_listen true (ok port)) s t = t
  call-Tells (Command.set_service_discovery_listen true (err e)) s t = t
  call-Tells (Command.set_accept_bootstrap true) s t =
      subst Tells (sym (accept_on-cm uids s.bootstrap_acceptor s)) t
  call-Tells (Command.set_accept_bootstrap false) s t = t
  call-Tells (Command.start_bootstrap blacklist user) s t = t
  call-Tells Command.stop_bootstrap s t = t
  call-Tells Command.start_listening_tcp s t =
      subst Tells (sym (listen_on-cm uids s.tcp_listener s)) t
  call-Tells Command.stop_tcp_listener s t = t
  call-Tells (Command.prepare_connection_info token) s t = t
  call-Tells (Command.connect uid) s t = t
  call-Tells (Command.disconnect uid) s t = remove-Tells uids uid s.cm t
  call-Tells (Command.send accepts uid msg priority) s t =
      send-Tells uids accepts uid msg priority s.cm t

  filter-Tells :
      (client_ips node_ips : Option (List IpAddr)) (cm : State U B)
      → Tells cm
      → Tells (Service.filter_peers uids client_ips node_ips cm)
  unfolding Service.filter_peers
  filter-Tells none none cm t = t
  filter-Tells none (some ns) cm t = whitelist_filter-Tells uids [] ns cm t
  filter-Tells (some cs) none cm t = whitelist_filter-Tells uids cs [] cm t
  filter-Tells (some cs) (some ns) cm t = whitelist_filter-Tells uids cs ns cm t

  listener-Tells :
      (n : ℕ) (res : Result IoError ℕ) (s : ServiceState U B)
      → Tells s.cm
      → Tells (Service.listener_started_step n res s).cm
  unfolding Service.listener_started_step
  listener-Tells n (ok port) s t = tell-Tells s.cm _ t tt
  listener-Tells n (err e) s t = t

  -- An inserted peer is told of only if it is new; one that is not new leaves the map as it is.
  accept_inserted :
      (uid : U) (kind : CrustUser) (addr : SocketAddr) (s : State U B)
      → (Map.insert_peer uids uid kind addr s).1 ≡ false
      → (Map.insert_peer uids uid kind addr s).0 ≡ s
  unfolding Map.insert_peer
  accept_inserted uid kind addr s h = elim (Bool-cases (Map.contains_peer uids uid s)) [
    | inl e ↦ rw e refl
    | inr e ↦ let clash : true ≡ false = rw e at h in cc
  ]

module _ {U B E : Type 0} (uids : Uid U) where
  accepted-Tells :
      (uid : U) (kind : CrustUser) (addr : Result E SocketAddr) (s : ServiceState U B)
      → Tells s.cm
      → Tells (Service.accepted_step uids uid kind addr s).cm
  unfolding Service.accepted_step Service.insert Service.send_event
  accepted-Tells uid kind (err e) s t = t
  accepted-Tells uid kind (ok addr) s t =
      elim (Bool-cases (Map.insert_peer uids uid kind addr s.cm).1) [
        | inl e ↦ rw e (insert-Tells uids uid kind addr (bootstrap_accept uid kind) s.cm refl tt t)
        | inr e ↦ rw e (subst Tells (sym (accept_inserted uids uid kind addr s.cm e)) t)
      ]

  bootstrapped-Tells :
      (n : ℕ) (res : Result E (U × CrustUser × Result E SocketAddr)) (s : ServiceState U B)
      → Tells s.cm
      → Tells (Service.bootstrapped_step uids n res s).cm
  unfolding Service.bootstrapped_step Service.insert Service.send_event
  bootstrapped-Tells n (err e) s t = tell-Tells s.cm bootstrap_failed t tt
  bootstrapped-Tells n (ok (uid, kind, err e)) s t = tell-Tells s.cm bootstrap_failed t tt
  bootstrapped-Tells n (ok (uid, kind, ok addr)) s t =
      insert-Tells uids uid kind addr (bootstrap_connect uid addr) s.cm refl tt t

  connected-Tells :
      (n : ℕ) (uid : U) (res : Result E (CrustUser × Result E SocketAddr)) (s : ServiceState U B)
      → Tells s.cm
      → Tells (Service.connected_step uids n uid res s).cm
  unfolding Service.connected_step Service.insert Service.send_event
  connected-Tells n uid (err e) s t = tell-Tells s.cm (connect_failure uid) t tt
  connected-Tells n uid (ok (kind, err e)) s t = tell-Tells s.cm (connect_failure uid) t tt
  connected-Tells n uid (ok (kind, ok addr)) s t =
      insert-Tells uids uid kind addr (connect_success uid) s.cm refl tt t

  Step-Tells : {s u : ServiceState U B} → Step E uids s u → Tells s.cm → Tells u.cm
  unfolding Service.config_updated Service.prepared_step Service.drop
  Step-Tells {s} (Step.calls c) t = call-Tells uids c s t
  Step-Tells {s} (Step.updates c) t =
      filter-Tells uids c.whitelisted_client_ips c.whitelisted_node_ips s.cm t
  Step-Tells {s} (Step.accepts r uid kind addr m j) t = accepted-Tells uid kind addr s t
  Step-Tells {s} (Step.bootstraps r blacklist discover user res m j) t =
      bootstrapped-Tells r.id res s t
  Step-Tells {s} (Step.listens r res m j) t = listener-Tells uids r.id res s t
  Step-Tells {s} (Step.prepares r token res m j) t = tell-Tells s.cm _ t tt
  Step-Tells {s} (Step.connects r uid res m j) t = connected-Tells r.id uid res s t
  Step-Tells (Step.ends r m n) t = t
  Step-Tells {s} (Step.receives r msg m) t = receive-Tells uids r msg s.cm t m
  Step-Tells {s} (Step.finishes r m) t = finish-Tells uids r s.cm t m
  Step-Tells {s} Step.drops t = clear-Tells uids s.cm t

  Run-Tells : {s u : ServiceState U B} → Run E uids s u → Tells s.cm → Tells u.cm
  Run-Tells Run.here t = t
  Run-Tells (Run.next r st) t = Step-Tells st (Run-Tells r t)

  -- From the start of a service on, its owner hears of a peer's message or loss only behind an event
  -- that tells that peer to be connected: an accepted bootstrap, a bootstrap or a connection.
  pub Run-InOrder :
      {s : ServiceState U B} → Run E uids (Service.new uids) s → InOrder [] s.cm.events
  unfolding Service.new Map.new
  Run-InOrder r = (Run-Tells r (record { told = tt; known = tt })).told
