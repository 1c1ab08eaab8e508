-- ===== src/Compat/Service/Updated.antt =====
-- crust/src/compat/service.rs: which peers a change of the settings leaves connected.
use crust_futures.Base.{
  ◌≡◌, ◌⊎◌, ◌↔◌, inl, inr, refl, sym, ap, ◌∙◌, List, Option, none, some, Bool, true, Memᴰ,
  of_Memᴰ-keep, Memᴰ-keep_of, contains, contains→Memᴰ, Memᴰ→contains,
}
use crust_futures.Addr.{IpAddr, IpAddr-discrete, CrustUser, node, client, Uid}
use crust_futures.Config.{ConfigSettings}
use crust_futures.Compat.Map
use crust_futures.Compat.Map.{PeerWrapper}
use crust_futures.Compat.Service
use crust_futures.Compat.Service.{ServiceState}

-- The list for the peers of a kind.
abbrev pub list_for : CrustUser → ConfigSettings → Option (List IpAddr)
list_for node c = c.whitelisted_node_ips
list_for client c = c.whitelisted_client_ips

-- Either no white list is set, or there is one for the kind of the peer and it has its address.
pub data MayStay (c : ConfigSettings) (w : PeerWrapper) : Type 0 where
  unrestricted : c.whitelisted_client_ips ≡ none → c.whitelisted_node_ips ≡ none → MayStay c w
  listed : (ips : List IpAddr) → list_for w.kind c ≡ some ips → Memᴰ w.addr.ip ips → MayStay c w

on_list :
    (o : Option (List IpAddr)) (ip : IpAddr)
    → contains IpAddr-discrete (Service.or_empty o) ip ≡ true
    → (ips : List IpAddr) × (o ≡ some ips) × Memᴰ ip ips
unfolding contains
on_list none ip h = cc
on_list (some ips) ip h = (ips, refl, contains→Memᴰ IpAddr-discrete ips ip h)

of_list :
    (o : Option (List IpAddr)) (ip : IpAddr) (ips : List IpAddr)
    → o ≡ some ips
    → Memᴰ ip ips
    → contains IpAddr-discrete (Service.or_empty o) ip ≡ true
of_list o ip ips e m =
    ap (λ o. contains IpAddr-discrete (Service.or_empty o) ip) e
    ∙ Memᴰ→contains IpAddr-discrete ips ip m

-- The test of the map's filter looks into the list for the peer's kind.
is_listed_lem :
    (c : ConfigSettings) (k : CrustUser) (w : PeerWrapper)
    → w.kind ≡ k
    → Map.is_listed
        (Service.or_empty c.whitelisted_client_ips)
        (Service.or_empty c.whitelisted_node_ips)
        w
      ≡ contains IpAddr-discrete (Service.or_empty (list_for k c)) w.addr.ip
unfolding Map.is_listed
is_listed_lem c node w e = rw e refl
is_listed_lem c client w e = rw e refl

module _ {U B : Type 0} (uids : Uid U) where
  filter-cases :
      (cs ns : Option (List IpAddr)) (cm : Map.State U B)
      → ((cs ≡ none) × (ns ≡ none) × (Service.filter_peers uids cs ns cm ≡ cm))
        ⊎ ((cs ≡ none → ns ≡ none → ⊥)
            × (Service.filter_peers uids cs ns cm
                ≡ Map.whitelist_filter uids (Service.or_empty cs) (Service.or_empty ns) cm))
  unfolding Service.filter_peers
  filter-cases none none cm = inl (refl, refl, refl)
  filter-cases none (some ips) cm = inr (λ a b. cc, refl)
  filter-cases (some ips) none cm = inr (λ a b. cc, refl)
  filter-cases (some ips) (some ips') cm = inr (λ a b. cc, refl)

  -- A change of the settings leaves just those peers in the map that were there and may stay: all
  -- of them if there is no white list, and else each peer whose address is on the list for its
  -- kind, which is set.
  pub config_updated_iff :
      (c : ConfigSettings) (s : ServiceState U B) (e : U × PeerWrapper)
      → Memᴰ e (Service.config_updated uids c s).cm.map ↔ (Memᴰ e s.cm.map × MayStay c e.1)
  unfolding Service.config_updated Map.whitelist_filter
  config_updated_iff c s (u, w) =
      let cs = c.whitelisted_client_ips in
      let ns = c.whitelisted_node_ips in
      let p : U × PeerWrapper → Bool =
        λ e. Map.is_listed (Service.or_empty cs) (Service.or_empty ns) e.1 in
      let tests = is_listed_lem c w.kind w refl in
      elim (filter-cases cs ns s.cm) [
        | inl (a, b, q) ↦ rw q (λ m. (m, unrestricted a b), λ h. h.0)
        | inr (some_list, q) ↦ rw q (
          λ m.
              let (there, h) = of_Memᴰ-keep p s.cm.map (u, w) m in
              let (ips, e, on) = on_list (list_for w.kind c) w.addr.ip (sym tests ∙ h) in
              (there, listed ips e on),
          λ (there, stay).
              Memᴰ-keep_of p s.cm.map (u, w) there
                (elim stay [
                  | unrestricted a b ↦ absurd (some_list a b)
                  | listed ips e on ↦ tests ∙ of_list (list_for w.kind c) w.addr.ip ips e on
                ]),
        )
      ]
