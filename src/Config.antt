-- ===== src/Config.antt =====
-- crust/src/config.rs: the settings, and the shared handle to them with its observers. What the
-- file on disc holds, or the error of reading it, is a value of the model; locks are not modelled.
pub mod Reload
pub mod Whitelist
use crust_futures.Base.{
  ℕ, zero, suc, same, same_set, contains, ◌++◌, ◌+◌, ◌≡◌, List, [], ◌∷◌, Option, none, some, Bool,
  true, false, not, ◌&&◌, Result, ok, err, keep, any, map, if◌then◌else◌, ℕ_discrete, ◌==◌,
}
use crust_futures.Addr.{
  IpAddr, SocketAddr, IpAddr-discrete, SocketAddr-discrete, CrustUser, node, client,
}

-- File names and the name of the network, by their bytes.
abbrev pub Text : Type 0
Text = List ℕ

pub record DevConfigSettings : Type 0 where
  pub disable_external_reachability_requirement : Bool

pub record ConfigSettings : Type 0 where
  pub hard_coded_contacts : List SocketAddr
  pub tcp_acceptor_port : Option ℕ
  pub force_acceptor_port_in_ext_ep : Bool
  pub service_discovery_port : Option ℕ
  pub bootstrap_cache_name : Option Text
  pub whitelisted_node_ips : Option (List IpAddr)
  pub whitelisted_client_ips : Option (List IpAddr)
  pub network_name : Option Text
  pub dev : Option DevConfigSettings

-- `Default for ConfigSettings`.
abbrev pub default_settings : ConfigSettings
default_settings = record {
  hard_coded_contacts = [];
  tcp_acceptor_port = none;
  force_acceptor_port_in_ext_ep = false;
  service_discovery_port = none;
  bootstrap_cache_name = none;
  whitelisted_node_ips = none;
  whitelisted_client_ips = none;
  network_name = none;
  dev = none;
}

-- An observer: whether its receiver is still there, and how many notices were sent to it.
pub record Observer : Type 0 where
  pub is_alive : Bool
  pub notices : ℕ

pub record ConfigWrapper : Type 0 where
  pub cfg : ConfigSettings
  pub observers : List Observer

contacts-discrete : Discrete (List SocketAddr)
contacts-discrete = hlevel SocketAddr-discrete

port-discrete : Discrete (Option ℕ)
port-discrete = hlevel ℕ_discrete

text-discrete : Discrete (Option Text)
text-discrete = hlevel ℕ_discrete

flag-discrete : Discrete Bool
flag-discrete = hlevel

dev-discrete : Discrete (Option DevConfigSettings)
dev-discrete = hlevel

-- Equality of `Option<HashSet<IpAddr>>`.
same_ips : Option (List IpAddr) → Option (List IpAddr) → Bool
same_ips none none = true
same_ips (some xs) (some ys) = same_set IpAddr-discrete xs ys
same_ips _ _ = false

-- The derived `PartialEq` of the settings; the white lists are sets.
unfoldable pub same_settings : ConfigSettings → ConfigSettings → Bool
unfolding contacts-discrete port-discrete text-discrete flag-discrete dev-discrete same_ips
same_settings c d =
    same contacts-discrete c.hard_coded_contacts d.hard_coded_contacts
    && same port-discrete c.tcp_acceptor_port d.tcp_acceptor_port
    && same flag-discrete c.force_acceptor_port_in_ext_ep d.force_acceptor_port_in_ext_ep
    && same port-discrete c.service_discovery_port d.service_discovery_port
    && same text-discrete c.bootstrap_cache_name d.bootstrap_cache_name
    && same_ips c.whitelisted_node_ips d.whitelisted_node_ips
    && same_ips c.whitelisted_client_ips d.whitelisted_client_ips
    && same text-discrete c.network_name d.network_name
    && same dev-discrete c.dev d.dev

-- `observers.retain(|observer| observer.unbounded_send(()).is_ok())`.
notify : List Observer → List Observer
notify [] = []
notify (o ∷ os) = if o.is_alive then record o { notices = o.notices + 1 } ∷ notify os else notify os

-- A handle with the file behind it, over the type of the errors of reading it.
pub record ConfigFile (E : Type 0) : Type 0 where
  pub wrapper : ConfigWrapper
  pub disc : Result E ConfigSettings

module _ {E : Type 0} where
  -- `ConfigSettings::open` and `ConfigWrapper::open`, on what the file gives.
  pub open_wrapper : Result E ConfigSettings → Result E ConfigWrapper
  open_wrapper (ok cfg) = ok (record { cfg = cfg; observers = [] })
  open_wrapper (err e) = err e

  unfoldable pub reload :
      Result E ConfigSettings → ConfigWrapper → ConfigWrapper × Result E (Unit {0})
  unfolding notify
  reload (err e) w = (w, err e)
  reload (ok new_config) w = (
    if not (same_settings w.cfg new_config)
        then record { cfg = new_config; observers = notify w.observers }
        else w,
    ok tt,
  )

  -- The thread that `open_path` starts: each event of the watcher reloads the file, and the first
  -- error ends the thread. The list holds what each reload reads.
  pub monitor : List (Result E ConfigSettings) → ConfigWrapper → ConfigWrapper
  unfolding reload
  monitor [] w = w
  monitor (err e ∷ reads) w = w
  monitor (ok c ∷ reads) w = monitor reads (reload (ok c) w).0

  -- `write`, a change through the guard, and the guard's drop, which writes the file out. `opened`
  -- is the result of opening the file, `written` tells whether the write succeeds.
  pub write :
      Result E (Unit {0})
      → Bool
      → (ConfigSettings → ConfigSettings)
      → ConfigFile E
      → ConfigFile E × Result E (Unit {0})
  write (err e) written change f = (f, err e)
  write (ok _) written change f =
      let cfg = change f.wrapper.cfg in
      (
        record {
          wrapper = record { cfg = cfg; observers = f.wrapper.observers };
          disc = if written then ok cfg else f.disc;
        },
        ok tt,
      )

-- `observe` adds a live observer that has had no notice.
pub observe : ConfigWrapper → ConfigWrapper
observe w = record w { observers = w.observers ++ record { is_alive = true; notices = 0 } ∷ [] }

-- `sha3_256` is a parameter; a network without a name has 32 zero bytes.
abbrev hash_size : ℕ
hash_size = 32

replicate : ℕ → ℕ → List ℕ
replicate zero x = []
replicate (suc n) x = x ∷ replicate n x

unfoldable pub network_name_hash : (Text → List ℕ) → ConfigSettings → List ℕ
unfolding replicate
network_name_hash sha3_256 c = elim c.network_name [
  | some name ↦ sha3_256 name
  | none ↦ replicate hash_size 0
]

-- `None` disables a white list.
unfoldable pub on_whitelist : Option (List IpAddr) → IpAddr → Bool
on_whitelist none ip = true
on_whitelist (some whitelist) ip = contains IpAddr-discrete whitelist ip

unfoldable pub is_peer_whitelisted : ConfigSettings → IpAddr → CrustUser → Bool
unfolding on_whitelist
is_peer_whitelisted c ip node = on_whitelist c.whitelisted_node_ips ip
is_peer_whitelisted c ip client = on_whitelist c.whitelisted_client_ips ip
