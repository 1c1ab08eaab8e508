-- ===== src/Tests/Sets.antt =====
-- Addresses, settings, listeners and the map of peers at small inputs.
use crust_futures.Base.{
  ℕ, ◌≡◌, refl, [], ◌∷◌, none, some, true, false, not, ◌&&◌, ok, arith, if◌then◌else◌, same,
  ℕ_discrete, Memᴰ,
}
use crust_futures.Addr.{node, client, ipv4_addr_is_global}
use crust_futures.Addr.Global.{ipv4_addr_is_global_iff}
use crust_futures.Config.{
  ConfigSettings, ConfigWrapper, ConfigFile, default_settings, same_settings, reload, monitor,
  write,
}
use crust_futures.Config.Reload.{reload_settles, write_unnoticed}
use crust_futures.Listener.{Addresses, Incoming, SocketIncoming, Walk, poll}
use crust_futures.Listener.Advertised.{first_gone, shared_lost, Ends, poll-Ends}
use crust_futures.Compat.Map.{State, ReadTask, contains_peer, insert_peer, remove, finish, get}
use crust_futures.Compat.Map.Laws.{Distinct, insert_peer_lem}
use crust_futures.Compat.Map.Stale.{reconnect_lost}
use crust_futures.Tests.Fixtures.{numbers, ip_of, addr_of}

ipv4_addr_is_global_example : ipv4_addr_is_global (record { a = 172; b = 20; c = 0; d = 1 }) ≡ false
ipv4_addr_is_global_example =
    ipv4_addr_is_global_iff (record { a = 172; b = 20; c = 0; d = 1 })
      (record { a_lt = omega arith; b_lt = omega arith; c_lt = omega arith; d_lt = omega arith })

abbrev restricted : ConfigSettings
restricted = record default_settings { whitelisted_node_ips = some (ip_of 1 ∷ []) }

abbrev wrapper : ConfigWrapper
wrapper = record {
  cfg = default_settings;
  observers =
      record { is_alive = true; notices = 0 } ∷ record { is_alive = false; notices = 4 } ∷ [];
}

reload_settles_example :
    let w' = (reload {E = ℕ} (ok restricted) wrapper).0 in
    (same_settings w'.cfg restricted ≡ true)
    × (w'.observers ≡ record { is_alive = true; notices = 1 } ∷ [])
    × ((reload {E = ℕ} (ok restricted) w').0 ≡ w')
unfolding same_settings same
reload_settles_example = reload_settles ℕ restricted wrapper

abbrev file : ConfigFile ℕ
file = record { wrapper = wrapper; disc = ok default_settings }

abbrev without_port : ConfigSettings → ConfigSettings
without_port c = record c { tcp_acceptor_port = some 5000 }

write_unnoticed_example :
    let g = (write (ok tt) true without_port file).0 in
    (g.disc ≡ ok (without_port default_settings))
    × (g.wrapper.cfg ≡ without_port default_settings)
    × (monitor (g.disc ∷ []) g.wrapper ≡ g.wrapper)
    × (g.wrapper.observers ≡ wrapper.observers)
write_unnoticed_example = write_unnoticed without_port file tt

abbrev addresses : Addresses
addresses = record { current = addr_of 1 ∷ addr_of 2 ∷ []; observers = [] }

abbrev both : SocketIncoming
both = first_gone (addr_of 3 ∷ []) (addr_of 4 ∷ addr_of 3 ∷ []) Incoming.idle addresses

shared_lost_example :
    Memᴰ (addr_of 3) both.addresses.current
    × ((w : Walk) × (poll 2 both ≡ some w)
        × (w.listeners
            ≡ record {
              is_held = true;
              incoming = Incoming.idle;
              addrs = addr_of 4 ∷ addr_of 3 ∷ [];
            }
              ∷ [])
        × (Memᴰ (addr_of 3) w.addresses.current → ⊥))
shared_lost_example =
    shared_lost (addr_of 3 ∷ []) (addr_of 4 ∷ addr_of 3 ∷ []) Incoming.idle addresses (addr_of 3)
      (Memᴰ.head refl) (Memᴰ.tail (Memᴰ.head refl))

-- A listener whose handle is gone, and a new one that has a connection.
abbrev incoming : SocketIncoming
incoming = record {
  rx =
      record {
        is_held = true;
        incoming = Incoming.connection (addr_of 9) Incoming.idle;
        addrs = addr_of 1 ∷ [];
      }
      ∷ [];
  rx_closed = false;
  listeners = record { is_held = false; incoming = Incoming.idle; addrs = addr_of 2 ∷ [] } ∷ [];
  addresses = addresses;
}

poll-Ends_example : Ends (poll 2 incoming)
poll-Ends_example = poll-Ends incoming refl

-- One peer, of the uid 4.
abbrev state : State ℕ ℕ
state = record {
  map = (4, record { conn = 0; addr = addr_of 4; kind = node }) ∷ [];
  tasks = record { conn = 0; uid = 4; kind = node; notified = false } ∷ [];
  sent = [];
  events = [];
  next_conn = 1;
}

insert_peer_lem_example :
    let (s', done) = insert_peer numbers 5 client (addr_of 5) state in
    (done ≡ not (contains_peer numbers 5 state))
    × (get numbers 5 s'.map ≡ (
        if done && true then some (record { conn = 1; addr = addr_of 5; kind = client }) else none))
    × Distinct numbers s'.map
unfolding get same ℕ_discrete
insert_peer_lem_example = insert_peer_lem numbers 5 5 client (addr_of 5) state (refl, tt)

reconnect_lost_example :
    let s1 = (insert_peer numbers 5 node (addr_of 5) state).0 in
    let s2 = (remove numbers 5 s1).0 in
    let s3 = (insert_peer numbers 5 node (addr_of 6) s2).0 in
    let old : ReadTask ℕ = record { conn = 1; uid = 5; kind = node; notified = true } in
    (contains_peer numbers 5 s3 ≡ true)
    × Memᴰ old s3.tasks
    × (contains_peer numbers 5 (finish numbers old s3) ≡ false)
unfolding contains_peer get same ℕ_discrete
reconnect_lost_example = reconnect_lost numbers 5 node node (addr_of 5) (addr_of 6) state refl
