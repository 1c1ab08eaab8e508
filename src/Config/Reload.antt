-- ===== src/Config/Reload.antt =====
-- crust/src/config.rs: who is told of a change of the settings, and who is not.
use crust_futures.Base.{
  ◌+◌, ◌≡◌, refl, Bool-cases, inl, inr, if◌then◌else◌, List, [], ◌∷◌, ◌++◌, true, Result, ok, err,
  keep, map, arith, Option, none, some, same, eq→same, same_set_refl,
}
use crust_futures.Addr.{IpAddr, IpAddr-discrete}
use crust_futures.Config.{
  ConfigSettings, Observer, ConfigWrapper, ConfigFile, same_ips, same_settings, contacts-discrete,
  port-discrete, text-discrete, flag-discrete, dev-discrete, notify, reload, monitor, write,
}

-- An observer that has had one more notice.
abbrev pub notified : Observer → Observer
notified o = record o { notices = o.notices + 1 }

notify_lem : (os : List Observer) → notify os ≡ map notified (keep (λ o. o.is_alive) os)
unfolding notify
notify_lem [] = refl
notify_lem (o ∷ os) = ground (arith, notify_lem os)

same_refl {ℓ} : {A : Type ℓ} (d : Discrete A) (x : A) → same d x x ≡ true
same_refl d x = eq→same d x x refl

same_ips_refl : (o : Option (List IpAddr)) → same_ips o o ≡ true
unfolding same_ips
same_ips_refl none = refl
same_ips_refl (some xs) = rw (same_set_refl IpAddr-discrete xs) refl

same_settings_refl : (c : ConfigSettings) → same_settings c c ≡ true
unfolding same_settings
same_settings_refl c = simp (
  same_refl contacts-discrete c.hard_coded_contacts,
  same_refl port-discrete c.tcp_acceptor_port,
  same_refl flag-discrete c.force_acceptor_port_in_ext_ep,
  same_refl port-discrete c.service_discovery_port,
  same_refl text-discrete c.bootstrap_cache_name,
  same_ips_refl c.whitelisted_node_ips,
  same_ips_refl c.whitelisted_client_ips,
  same_refl text-discrete c.network_name,
  same_refl dev-discrete c.dev,
)

-- After a reload of a readable file the settings equal those of the file. If they had differed,
-- each live observer has one more notice and the dead ones are forgotten; else the observers are
-- as they were. A second reload of the same file changes nothing, and notifies nobody.
pub reload_settles :
    (E : Type 0) (c : ConfigSettings) (w : ConfigWrapper)
    → let w' = (reload {E = E} (ok c) w).0 in
      (same_settings w'.cfg c ≡ true)
      × (w'.observers ≡ (
          if same_settings w.cfg c
          then w.observers
          else map notified (keep (λ o. o.is_alive) w.observers)))
      × ((reload {E = E} (ok c) w').0 ≡ w')
unfolding reload
reload_settles E c w = elim (Bool-cases (same_settings w.cfg c)) [
  | inl e ↦ rw (e, e) (refl, refl, refl)
  | inr e ↦ rw e (same_settings_refl c, notify_lem w.observers, rw (same_settings_refl c) refl)
]

module _ {E : Type 0} where
  -- Once a reload fails the watching thread is gone: later changes of the file are not seen.
  pub monitor_stops :
      (before after : List (Result E ConfigSettings)) (e : E) (w : ConfigWrapper)
      → monitor (before ++ err e ∷ after) w ≡ monitor before w
  unfolding monitor
  monitor_stops [] after e w = refl
  monitor_stops (err x ∷ before) after e w = refl
  monitor_stops (ok c ∷ before) after e w = monitor_stops before after e (reload {E = E} (ok c) w).0

  -- A change through a write guard that reaches the file notifies no observer, neither then nor
  -- when the watching thread reloads the file: the settings in memory already are the new ones.
  pub write_unnoticed :
      (change : ConfigSettings → ConfigSettings) (f : ConfigFile E) (x : Unit {0})
      → let g = (write (ok x) true change f).0 in
        (g.disc ≡ ok (change f.wrapper.cfg))
        × (g.wrapper.cfg ≡ change f.wrapper.cfg)
        × (monitor (g.disc ∷ []) g.wrapper ≡ g.wrapper)
        × (g.wrapper.observers ≡ f.wrapper.observers)
  unfolding write monitor reload
  write_unnoticed change f x =
      (refl, refl, rw (same_settings_refl (change f.wrapper.cfg)) refl, refl)
