-- ===== src/Tests/Services.antt =====
-- The event loop of the compatibility service, and the services below it.
use crust_futures.Base.{
  ℕ, ◌≡◌, refl, List, [], ◌∷◌, none, some, true, false, Result, ok, err, Memᴰ, arith, Async, ready,
  not_ready,
}
use crust_futures.Addr.{SocketAddr, CrustUser, node}
use crust_futures.Net.{IoError}
use crust_futures.Config.{default_settings}
use crust_futures.Compat.Map.Connected.{IsConnected}
use crust_futures.Compat.Map.Announced.{InOrder}
use crust_futures.Compat.Service
use crust_futures.Compat.Service.{ServiceState, Task}
use crust_futures.Compat.Service.Runs
use crust_futures.Compat.Service.Runs.{Command, Step, Run}
use crust_futures.Compat.Service.Refines.{Run-IsConnected}
use crust_futures.Compat.Service.Announced.{Run-InOrder}
use crust_futures.Compat.Service.Handles.Kept.{stop_tells, stops}
use crust_futures.Compat.Service.Updated.{MayStay, config_updated_iff}
use crust_futures.Base.{◌↔◌}
use crust_futures.Compat.Service.Faults.{failed_listener_stays, one_list_disconnects}
use crust_futures.Compat.Map.{PeerWrapper, whitelist_filter, is_listed}
use crust_futures.Addr.{client, IpAddr-discrete, Ipv4Addr-discrete}
use crust_futures.Base.{contains, same, ℕ_discrete}
use crust_futures.Config.{is_peer_whitelisted, ConfigSettings, default_settings}
use crust_futures.Tests.Fixtures.{ip_of}
use crust_futures.Listener
use crust_futures.Listener.{Addresses}
use crust_futures.ServiceDiscovery.Server
use crust_futures.Advertise
use crust_futures.Advertise.{ServiceDiscovery}
use crust_futures.Advertise.Current.{brings, retires, change_all}
use crust_futures.WithTimeout.{run, run_late}
use crust_futures.Tests.Fixtures.{numbers, addr_of}

abbrev State : Type 0
State = ServiceState ℕ (List ℕ)

abbrev begun : State
begun = Service.new numbers

abbrev connecting : State
connecting = Runs.call_box numbers (Command.connect 7) begun

abbrev result : Result (Unit {0}) (CrustUser × Result (Unit {0}) SocketAddr)
result = ok (node, ok (addr_of 7))

abbrev connected : State
connected = Service.connected_step numbers 0 7 result connecting

-- A connection is asked for, and its task ends with a peer.
connection_made : Run (Unit {0}) numbers begun connected
unfolding Runs.call_box Service.connect Service.spawn Service.new
connection_made = Run.next (Run.next Run.here (Step.calls (Command.connect 7))) (
    Step.connects (record { id = 0; job = Service.connecting 7; notified = false }) 7 result
      (Memᴰ.head refl) refl)

Run-IsConnected_example : IsConnected numbers connected.cm
Run-IsConnected_example = Run-IsConnected numbers connection_made

Run-InOrder_example : InOrder [] connected.cm.events
Run-InOrder_example = Run-InOrder numbers connection_made

abbrev listening : State
listening = Runs.call_box numbers Command.start_listening_tcp begun

listener_asked_for : Run (Unit {0}) numbers begun listening
listener_asked_for = Run.next Run.here (Step.calls Command.start_listening_tcp)

abbrev stopping : Task ℕ
stopping = record { id = 0; job = Service.starting; notified = true }

stopped_listener : Memᴰ stopping (Runs.call_box numbers Command.stop_tcp_listener listening).tasks
unfolding Runs.call_box Service.start_listening_tcp Service.listen_on Service.spawn Service.new
    Service.stop_tcp_listener Service.drop_notify Service.notify
stopped_listener = Memᴰ.head refl

means_to_stop : stops {U = ℕ} {B = List ℕ} Command.stop_tcp_listener stopping.job ≡ true
unfolding stops
means_to_stop = refl

stop_tells_example : stopping.notified ≡ true
stop_tells_example =
    stop_tells numbers Command.stop_tcp_listener stopping listener_asked_for stopped_listener
      means_to_stop

no_listener : begun.tcp_listener ≡ none
unfolding Service.new
no_listener = refl

failed_listener_stays_example :
    let s' : State =
      Service.listener_started_step begun.next_task
        (err (IoError.os 98))
        (Service.start_listening_tcp begun) in
    (s'.cm ≡ begun.cm) × (Service.start_listening_tcp s' ≡ s')
failed_listener_stays_example = failed_listener_stays (IoError.os 98) begun no_listener

abbrev advertised : Addresses
advertised = record { current = addr_of 1 ∷ []; observers = [] }

abbrev discovery : ServiceDiscovery
discovery = record { port = 6000; server = Server.new 6000 (addr_of 1 ∷ []) }

abbrev later : Addresses
later =
    change_all (brings (addr_of 2 ∷ []) Listener.idle ∷ retires (addr_of 1 ∷ []) ∷ [])
      (Listener.addresses advertised).1

abbrev ends_late : ℕ × Result (Unit {0}) (Async ℕ)
ends_late = (12, ok (ready 3))

run_late_example :
    run 10 tt ((4, ok not_ready) ∷ (8, ok not_ready) ∷ ends_late ∷ []) ≡ some (err tt)
run_late_example =
    run_late 10 tt ((4, ok not_ready) ∷ (8, ok not_ready) ∷ []) ends_late []
      ((omega arith, tt), ((omega arith, tt), tt)) (omega arith)

abbrev seventh : ℕ × PeerWrapper
seventh = (7, record { kind = node; addr = addr_of 7; conn = 0 })

abbrev one_peer : State
one_peer = record begun { cm = record (begun.cm) { map = seventh ∷ []; next_conn = 1 } }

abbrev nodes_listed : ConfigSettings
nodes_listed = record default_settings { whitelisted_node_ips = some (ip_of 7 ∷ []) }

stays : Memᴰ seventh (Service.config_updated numbers nodes_listed one_peer).cm.map
unfolding Service.config_updated Service.filter_peers whitelist_filter is_listed contains same
    IpAddr-discrete Ipv4Addr-discrete ℕ_discrete
stays = Memᴰ.head refl

one_list_disconnects_example :
    (is_peer_whitelisted nodes_listed (ip_of 9) client ≡ true) × (seventh.1.kind ≡ node)
one_list_disconnects_example =
    one_list_disconnects numbers nodes_listed (ip_of 7 ∷ []) (ip_of 9) one_peer seventh refl refl
      stays

config_updated_iff_example :
    Memᴰ seventh (Service.config_updated numbers nodes_listed one_peer).cm.map
    ↔ (Memᴰ seventh one_peer.cm.map × MayStay nodes_listed seventh.1)
config_updated_iff_example = config_updated_iff numbers nodes_listed one_peer seventh
