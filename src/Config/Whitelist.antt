-- ===== src/Config/Whitelist.antt =====
-- crust/src/config.rs: which addresses the white lists let in.
use crust_futures.Base.{
  ◌≡◌, refl, ◌↔◌, List, true, Option, none, some, Memᴰ, contains→Memᴰ, Memᴰ→contains,
}
use crust_futures.Addr.{IpAddr, IpAddr-discrete, CrustUser, node, client}
use crust_futures.Config.{ConfigSettings, on_whitelist, is_peer_whitelisted}

-- The list that `is_peer_whitelisted` consults.
abbrev pub whitelist_of : ConfigSettings → CrustUser → Option (List IpAddr)
whitelist_of c node = c.whitelisted_node_ips
whitelist_of c client = c.whitelisted_client_ips

-- The list is disabled, or it names the address.
abbrev pub LetsIn : Option (List IpAddr) → IpAddr → Type 0
LetsIn none ip = Unit {0}
LetsIn (some xs) ip = Memᴰ ip xs

on_whitelist_iff :
    (o : Option (List IpAddr)) (ip : IpAddr) → (on_whitelist o ip ≡ true) ↔ LetsIn o ip
unfolding on_whitelist
on_whitelist_iff none ip = (λ h. tt, λ h. refl)
on_whitelist_iff (some xs) ip =
    (contains→Memᴰ IpAddr-discrete xs ip, Memᴰ→contains IpAddr-discrete xs ip)

-- A peer is let in exactly when the white list of its kind is disabled or names its address.
pub is_peer_whitelisted_iff :
    (c : ConfigSettings) (ip : IpAddr) (kind : CrustUser)
    → (is_peer_whitelisted c ip kind ≡ true) ↔ LetsIn (whitelist_of c kind) ip
unfolding is_peer_whitelisted
is_peer_whitelisted_iff c ip node = on_whitelist_iff c.whitelisted_node_ips ip
is_peer_whitelisted_iff c ip client = on_whitelist_iff c.whitelisted_client_ips ip
