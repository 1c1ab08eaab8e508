-- ===== src/Compat/Service/Handles/Kept.antt =====
-- crust/src/compat/service.rs: what the event loop does keeps the drop notices with their tasks.
use crust_futures.Base.{
  ℕ, ◌≡◌, refl, sym, ap, ◌∙◌, subst, List, [], ◌∷◌, Option, none, some, Bool, true, false, Result,
  ok, err, Memᴰ, Bool-cases, inl, inr, arith,
}
use crust_futures.Addr.{SocketAddr, CrustUser, Uid}
use crust_futures.Net.{IoError}
use crust_futures.Compat.Map
use crust_futures.Compat.Service
use crust_futures.Compat.Service.{ServiceState, Job, Task}
use crust_futures.Compat.Service.Runs
use crust_futures.Compat.Service.Runs.{Command, Step, Run}
use crust_futures.Compat.Service.Handles.{
  IsHeld, AreHeld, HoldsHandles, rehold, end_task-AreHeld, listen-AreHeld, release, new_acceptor,
  new_connect, new_listener,
}

module _ {U B : Type 0} where
  accept_on-HoldsHandles :
      (o : Option ℕ) (s : ServiceState U B)
      → s.bootstrap_acceptor ≡ o
      → HoldsHandles s
      → HoldsHandles (Service.accept_on o s)
  unfolding HoldsHandles AreHeld IsHeld Service.accept_on Service.spawn
  accept_on-HoldsHandles (some n) s e h = h
  accept_on-HoldsHandles none s e h = (
    omega arith,
    inr refl,
    rehold s.bootstrap_acceptor s.bootstrap_connect s.tcp_listener (some s.next_task)
        s.bootstrap_connect s.tcp_listener s.next_task s.tasks
        (λ j m q.
          new_acceptor s.bootstrap_acceptor (some s.next_task) s.bootstrap_connect s.tcp_listener j
            m (λ e'. let z : none ≡ some m = sym e ∙ e' in cc) q)
        h,
  )

  listen_on-HoldsHandles :
      (o : Option ℕ) (s : ServiceState U B)
      → s.tcp_listener ≡ o
      → HoldsHandles s
      → HoldsHandles (Service.listen_on o s)
  unfolding HoldsHandles AreHeld IsHeld Service.listen_on Service.spawn
  listen_on-HoldsHandles (some n) s e h = h
  listen_on-HoldsHandles none s e h = (
    omega arith,
    inr refl,
    rehold s.bootstrap_acceptor s.bootstrap_connect s.tcp_listener s.bootstrap_acceptor
        s.bootstrap_connect (some s.next_task) s.next_task s.tasks
        (λ j m q.
          new_listener s.bootstrap_acceptor s.bootstrap_connect s.tcp_listener (some s.next_task) j
            m (λ e'. let z : none ≡ some m = sym e ∙ e' in cc) q)
        h,
  )

  ended :
      (n : ℕ) (s : ServiceState U B)
      → HoldsHandles s
      → HoldsHandles (record s { tasks = Service.end_task n s.tasks })
  unfolding HoldsHandles
  ended n s h =
      end_task-AreHeld s.bootstrap_acceptor s.bootstrap_connect s.tcp_listener n s.next_task s.tasks
        h

  listens-HoldsHandles :
      (t : Task U) (res : Result IoError ℕ) (s : ServiceState U B)
      → Memᴰ t s.tasks
      → t.job ≡ Service.starting
      → HoldsHandles s
      → HoldsHandles (Service.listener_started_step t.id res s)
  unfolding HoldsHandles Service.listener_started_step Service.send_event
  listens-HoldsHandles t (ok port) s m j h =
      listen-AreHeld s.bootstrap_acceptor s.bootstrap_connect s.tcp_listener port s.next_task
        s.tasks t m j h
  listens-HoldsHandles t (err e) s m j h = ended t.id s h

module _ {U B : Type 0} (uids : Uid U) where
  call-HoldsHandles :
      (c : Command U B) (s : ServiceState U B)
      → HoldsHandles s
      → HoldsHandles (Runs.call_box uids c s)
  unfolding HoldsHandles AreHeld IsHeld Runs.call_box Service.start_service_discovery
      Service.set_service_discovery_listen Service.set_accept_bootstrap Service.start_bootstrap
      Service.stop_bootstrap Service.start_listening_tcp Service.stop_tcp_listener
      Service.prepare_connection_info Service.connect Service.disconnect Service.send Service.spawn
  call-HoldsHandles Command.start_service_discovery s h = h
  call-HoldsHandles (Command.set_service_discovery_listen false started) s h = h
  call-HoldsHandles (Command.set_service_discovery_listen true (ok port)) s h = h
  call-HoldsHandles (Command.set_service_discovery_listen true (err e)) s h = h
  call-HoldsHandles (Command.set_accept_bootstrap true) s h =
      accept_on-HoldsHandles s.bootstrap_acceptor s refl h
  call-HoldsHandles (Command.set_accept_bootstrap false) s h =
      release s.bootstrap_acceptor s.bootstrap_acceptor s.bootstrap_connect s.tcp_listener none
        s.bootstrap_connect s.tcp_listener s.next_task s.tasks
        (new_acceptor s.bootstrap_acceptor none s.bootstrap_connect s.tcp_listener) h
  call-HoldsHandles (Command.start_bootstrap blacklist user) s h = (
    omega arith,
    inr refl,
    release s.bootstrap_connect s.bootstrap_acceptor s.bootstrap_connect s.tcp_listener
        s.bootstrap_acceptor (some s.next_task) s.tcp_listener s.next_task s.tasks
        (new_connect s.bootstrap_acceptor s.bootstrap_connect (some s.next_task) s.tcp_listener) h,
  )
  call-HoldsHandles Command.stop_bootstrap s h =
      release s.bootstrap_connect s.bootstrap_acceptor s.bootstrap_connect s.tcp_listener
        s.bootstrap_acceptor none s.tcp_listener s.next_task s.tasks
        (new_connect s.bootstrap_acceptor s.bootstrap_connect none s.tcp_listener) h
  call-HoldsHandles Command.start_listening_tcp s h = listen_on-HoldsHandles s.tcp_listener s refl h
  call-HoldsHandles Command.stop_tcp_listener s h =
      release s.tcp_listener s.bootstrap_acceptor s.bootstrap_connect s.tcp_listener
        s.bootstrap_acceptor s.bootstrap_connect none s.next_task s.tasks
        (new_listener s.bootstrap_acceptor s.bootstrap_connect s.tcp_listener none) h
  call-HoldsHandles (Command.prepare_connection_info token) s h = (omega arith, inr tt, h)
  call-HoldsHandles (Command.connect uid) s h = (omega arith, inr tt, h)
  call-HoldsHandles (Command.disconnect uid) s h = h
  call-HoldsHandles (Command.send accepts uid msg priority) s h = h

module _ {U B E : Type 0} (uids : Uid U) where
  accepted-HoldsHandles :
      (uid : U) (kind : CrustUser) (addr : Result E SocketAddr) (s : ServiceState U B)
      → HoldsHandles s
      → HoldsHandles (Service.accepted_step uids uid kind addr s)
  unfolding HoldsHandles Service.accepted_step Service.insert Service.send_event
  accepted-HoldsHandles uid kind (err e) s h = h
  accepted-HoldsHandles uid kind (ok addr) s h =
      elim (Bool-cases (Map.insert_peer uids uid kind addr s.cm).1) [
        | inl e ↦ rw e h
        | inr e ↦ rw e h
      ]

  bootstrapped-HoldsHandles :
      (n : ℕ) (res : Result E (U × CrustUser × Result E SocketAddr)) (s : ServiceState U B)
      → HoldsHandles s
      → HoldsHandles (Service.bootstrapped_step uids n res s)
  unfolding HoldsHandles Service.bootstrapped_step Service.insert Service.send_event
  bootstrapped-HoldsHandles n (err e) s h = ended n s h
  bootstrapped-HoldsHandles n (ok (uid, kind, err e)) s h = ended n s h
  bootstrapped-HoldsHandles n (ok (uid, kind, ok addr)) s h = ended n s h

  connected-HoldsHandles :
      (n : ℕ) (uid : U) (res : Result E (CrustUser × Result E SocketAddr)) (s : ServiceState U B)
      → HoldsHandles s
      → HoldsHandles (Service.connected_step uids n uid res s)
  unfolding HoldsHandles Service.connected_step Service.insert Service.send_event
  connected-HoldsHandles n uid (err e) s h = ended n s h
  connected-HoldsHandles n uid (ok (kind, err e)) s h = ended n s h
  connected-HoldsHandles n uid (ok (kind, ok addr)) s h = ended n s h

  Step-HoldsHandles : {s u : ServiceState U B} → Step E uids s u → HoldsHandles s → HoldsHandles u
  unfolding HoldsHandles Service.config_updated Service.prepared_step Service.drop
  Step-HoldsHandles {s} (Step.calls c) h = call-HoldsHandles uids c s h
  Step-HoldsHandles (Step.updates c) h = h
  Step-HoldsHandles {s} (Step.accepts r uid kind addr m j) h =
      accepted-HoldsHandles uid kind addr s h
  Step-HoldsHandles {s} (Step.bootstraps r blacklist discover user res m j) h =
      bootstrapped-HoldsHandles r.id res s h
  Step-HoldsHandles {s} (Step.listens r res m j) h = listens-HoldsHandles r res s m j h
  Step-HoldsHandles {s} (Step.prepares r token res m j) h = ended r.id s h
  Step-HoldsHandles {s} (Step.connects r uid res m j) h = connected-HoldsHandles r.id uid res s h
  Step-HoldsHandles {s} (Step.ends r m n) h = ended r.id s h
  Step-HoldsHandles (Step.receives r msg m) h = h
  Step-HoldsHandles (Step.finishes r m) h = h
  Step-HoldsHandles Step.drops h = h

  -- From the start of a service on, each task that accepts, bootstraps or listens is told to stop,
  -- or it is the one whose notice the state holds.
  pub Run-HoldsHandles : {s : ServiceState U B} → Run E uids (Service.new uids) s → HoldsHandles s
  unfolding HoldsHandles AreHeld Service.new
  Run-HoldsHandles Run.here = tt
  Run-HoldsHandles (Run.next r st) = Step-HoldsHandles st (Run-HoldsHandles r)

module _ {U : Type 0} where
  told :
      (a b l : Option ℕ) (k : ℕ) (ts : List (Task U)) (t : Task U)
      → AreHeld a b l k ts
      → Memᴰ t ts
      → (IsHeld a b l t.job t.id → t.notified ≡ true)
      → t.notified ≡ true
  unfolding AreHeld
  told a b l k [] t h m f = elim m [ ]
  told a b l k (u ∷ us) t h (Memᴰ.head e) f = elim h.1 [
    | inl q ↦ ap (λ v. v.notified) e ∙ q
    | inr q ↦ f (subst (λ v. IsHeld a b l v.job v.id) (sym e) q)
  ]
  told a b l k (u ∷ us) t h (Memᴰ.tail m) f = told a b l u.id us t h.2 m f

-- The jobs that a command means to stop.
unfoldable pub stops : {U B : Type 0} → Command U B → Job U → Bool
stops Command.stop_tcp_listener (Service.listening port) = true
stops Command.stop_tcp_listener Service.starting = true
stops Command.stop_bootstrap (Service.bootstrapping blacklist discover user) = true
stops (Command.set_accept_bootstrap false) Service.accepting = true
stops _ _ = false

module _ {U B : Type 0} (uids : Uid U) where
  -- Behind such a command no notice is held for such a job.
  unheld :
      (c : Command U B) (s : ServiceState U B) (j : Job U) (n : ℕ)
      → stops c j ≡ true
      → let s' = Runs.call_box uids c s in
        IsHeld s'.bootstrap_acceptor s'.bootstrap_connect s'.tcp_listener j n → true ≡ false
  unfolding stops IsHeld Runs.call_box Service.stop_tcp_listener Service.stop_bootstrap
      Service.set_accept_bootstrap
  unheld Command.stop_tcp_listener s (Service.listening port) n h q = cc
  unheld Command.stop_tcp_listener s Service.starting n h q = cc
  unheld Command.stop_bootstrap s (Service.bootstrapping blacklist discover user) n h q = cc
  unheld (Command.set_accept_bootstrap false) s Service.accepting n h q = cc
  unheld _ s _ n h q = sym h

module _ {U B E : Type 0} (uids : Uid U) where
  -- In a run from the start of a service, no longer listening, bootstrapping or accepting tells every
  -- task of that job to stop, the ones of listeners that are still starting among them.
  pub stop_tells :
      {s : ServiceState U B} (c : Command U B) (t : Task U)
      → Run E uids (Service.new uids) s
      → Memᴰ t (Runs.call_box uids c s).tasks
      → stops c t.job ≡ true
      → t.notified ≡ true
  unfolding HoldsHandles
  stop_tells {s} c t r m st =
      let s' = Runs.call_box uids c s in
      told s'.bootstrap_acceptor s'.bootstrap_connect s'.tcp_listener s'.next_task s'.tasks t
        (call-HoldsHandles uids c s (Run-HoldsHandles uids r)) m
        (λ q. let z = unheld uids c s t.job t.id st q in cc)
