-- ===== src/Compat/Service/Faults.antt =====
-- crust/src/compat/service.rs: what goes on after a failure.
use crust_futures.Base.{
  ℕ, ◌≡◌, ◌⊎◌, inl, inr, refl, ap, List, [], Option, none, some, true, false, err, Memᴰ,
  of_Memᴰ-keep, contains,
}
use crust_futures.Addr.{IpAddr, CrustUser, node, client, Uid}
use crust_futures.Net.{IoError}
use crust_futures.Config.{ConfigSettings, is_peer_whitelisted, on_whitelist}
use crust_futures.Compat.Map
use crust_futures.Compat.Service
use crust_futures.Compat.Service.{ServiceState}

module _ {U B : Type 0} where
  listen_anew :
      (o : Option ℕ) (e : IoError) (s : ServiceState U B)
      → o ≡ none
      → let s' : ServiceState U B =
          Service.listener_started_step s.next_task (err e) (Service.listen_on o s) in
        (s'.cm ≡ s.cm) × (Service.listen_on s'.tcp_listener s' ≡ s')
  unfolding Service.listen_on Service.listener_started_step Service.spawn
  listen_anew none e s h = (refl, refl)
  listen_anew (some n) e s h = cc

  -- A listener that fails to start sends no event, and its handle stays in the state, so that a
  -- further request to listen changes nothing.
  pub failed_listener_stays :
      (e : IoError) (s : ServiceState U B)
      → s.tcp_listener ≡ none
      → let s' : ServiceState U B =
          Service.listener_started_step s.next_task (err e) (Service.start_listening_tcp s) in
        (s'.cm ≡ s.cm) × (Service.start_listening_tcp s' ≡ s')
  unfolding Service.start_listening_tcp
  failed_listener_stays e s h = listen_anew s.tcp_listener e s h

CrustUser-cases : (k : CrustUser) → (k ≡ node) ⊎ (k ≡ client)
CrustUser-cases node = inl refl
CrustUser-cases client = inr refl

listed_client :
    (ns : List IpAddr) (w : Map.PeerWrapper) → Map.is_listed [] ns w ≡ true → w.kind ≡ node
unfolding Map.is_listed contains
listed_client ns w h = elim (CrustUser-cases w.kind) [
  | inl e ↦ e
  | inr e ↦ let z : false ≡ true = rw e at h in cc
]

module _ {U B : Type 0} (uids : Uid U) where
  filtered :
      (ns : List IpAddr) (client_ips node_ips : Option (List IpAddr)) (cm : Map.State U B)
      (e : U × Map.PeerWrapper)
      → client_ips ≡ none
      → node_ips ≡ some ns
      → Memᴰ e (Service.filter_peers uids client_ips node_ips cm).map
      → e.1.kind ≡ node
  unfolding Service.filter_peers Map.whitelist_filter
  filtered ns none none cm e a b m = cc
  filtered ns none (some l) cm e a b m =
      listed_client l e.1 (of_Memᴰ-keep (λ e. Map.is_listed [] l e.1) cm.map e m).1
  filtered ns (some l) o cm e a b m = cc

  -- With a white list of nodes and none of clients, every client is let in, whatever its address, but
  -- at a change of the settings none is left in the map.
  pub one_list_disconnects :
      (c : ConfigSettings) (ns : List IpAddr) (ip : IpAddr) (s : ServiceState U B)
      (e : U × Map.PeerWrapper)
      → c.whitelisted_client_ips ≡ none
      → c.whitelisted_node_ips ≡ some ns
      → Memᴰ e (Service.config_updated uids c s).cm.map
      → (is_peer_whitelisted c ip client ≡ true) × (e.1.kind ≡ node)
  unfolding Service.config_updated is_peer_whitelisted on_whitelist
  one_list_disconnects c ns ip s e a b m = (
    ap (λ o. on_whitelist o ip) a,
    filtered ns c.whitelisted_client_ips c.whitelisted_node_ips s.cm e a b m,
  )
