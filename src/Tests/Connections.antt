-- ===== src/Tests/Connections.antt =====
-- Rendezvous connections, the search for a peer to bootstrap to, and the addresses of sockets.
use crust_futures.Base.{
  ℕ, ◌≡◌, ◌⊎◌, ◌↔◌, refl, List, [], ◌∷◌, none, some, true, Result, ok, err, Memᴰ, arith, contains,
  if◌then◌else◌, same, ℕ_discrete, ◌∙◌, sym,
}
use crust_futures.Addr.{IpAddr-discrete, Ipv4Addr-discrete, v4, SocketAddr}
use crust_futures.Net.{IoError}
use crust_futures.Config.{ConfigSettings, default_settings}
use crust_futures.Handshake.{HandshakeMessage, bootstrap_granted}
use crust_futures.ConnectionInfo.{PrivConnectionInfo, PubConnectionInfo}
use crust_futures.HolePunch.{Attempted}
use crust_futures.Socket.Front.{Inner}
use crust_futures.Peer.{Peer}
use crust_futures.Bootstrap.Try.{arrives}
use crust_futures.Connect.{World, Talk, connect, chooses}
use crust_futures.Connect.Roles.{request, choice_frame, Ends}
use crust_futures.Connect.Both.{rendezvous}
use crust_futures.Connect.Settled.{IsRendezvous, connect_ok}
use crust_futures.Connect.Live.{IsPicked}
use crust_futures.Connect.Unlisted.{unlisted_connects}
use crust_futures.Base.{Memᴰ→contains, false}
use crust_futures.Connect.{Incoming, came}
use crust_futures.Connect.Listed.{elsewhere, AgreeOn, connect-listed}
use crust_futures.Bootstrap.Try.{TryPeerError}
use crust_futures.Bootstrap.Search.{FileHandlers, Around}
use crust_futures.Nat.{MappingContext, Outside, mapped_addrs, mapped_tcp_socket}
use crust_futures.Nat.Mapped.{Origin, mapped_iff}
use crust_futures.Listener
use crust_futures.Listener.{Addresses, Entry}
use crust_futures.Demux
use crust_futures.Acceptor
use crust_futures.Service.{Service, unspecified_at, start_listener}
use crust_futures.Service.Addresses.{start_listener_iff}
use crust_futures.Tests.Fixtures.{plain, numbers, addr_of, ip_of, clock, first_race}

abbrev Message : Type 0
Message = HandshakeMessage ℕ

law : (m : Message) → plain.deserialise (plain.serialise m) ≡ ok m
law m = refl

abbrev inner : Inner
inner = record { peer_addr = addr_of 1 }

abbrev world : World ℕ Message (Unit {0})
world = record {
  peer_rx = [];
  dial = λ addr. some (err (IoError.os 111));
  puncher = record {
    local_addr = ok (addr_of 1);
    new_reusably_bound = λ addr. ok tt;
    listen = ok tt;
    connect_stream = λ addr. none;
    incoming = [];
  };
  timeout = ok tt;
  clock = clock;
  sockets = first_race;
  peers = first_race;
}

abbrev one : PrivConnectionInfo ℕ
one = record { id = 1; for_direct = []; for_hole_punch = []; hole_punch_socket = none }

abbrev pub_one : PubConnectionInfo ℕ
pub_one = record { id = 1; for_direct = []; for_hole_punch = [] }

abbrev two : PrivConnectionInfo ℕ
two = record { id = 2; for_direct = addr_of 2 ∷ []; for_hole_punch = []; hole_punch_socket = none }

abbrev pub_two : PubConnectionInfo ℕ
pub_two = record { id = 2; for_direct = addr_of 2 ∷ []; for_hole_punch = [] }

abbrev calling : World ℕ Message (Unit {0})
calling = record world {
  dial = λ addr. some (
      ok (record {
        reply = arrives (ok (some (request 2 [])));
        choice = choice_frame {U = ℕ} plain (chooses numbers 2 1);
      }));
}

abbrev called : World ℕ Message (Unit {0})
called = record world {
  peer_rx =
      record {
        socket = record { inner = some inner; outbox = [] };
        request = record { uid = 1; name_hash = [] };
        choice = choice_frame {U = ℕ} plain (chooses numbers 1 2);
      }
      ∷ [];
}

one_is_not_two : ¬ Path ℕ 1 2
one_is_not_two e = omega (arith, e)

abbrev Met : Type 0
Met =
    Ends plain numbers calling 1 2 [] law (chooses numbers 1 2)
      (connect plain numbers calling [] one pub_two default_settings)
    × Ends plain numbers called 2 1 [] law (chooses numbers 2 1)
        (connect plain numbers called [] two pub_one default_settings)

met : Met
met =
    rendezvous plain numbers law world world [] 1 2 (addr_of 2) inner [] [] [] default_settings
      default_settings one_is_not_two refl (refl, refl) (refl, refl)

rendezvous_example : Met
rendezvous_example =
    rendezvous plain numbers law world world [] 1 2 (addr_of 2) inner [] [] [] default_settings
      default_settings one_is_not_two refl (refl, refl) (refl, refl)

connect_ok_example : IsRendezvous plain numbers calling [] one pub_two default_settings met.0.0
connect_ok_example = connect_ok plain numbers calling [] one pub_two default_settings met.0.1

abbrev listed : ConfigSettings
listed = record default_settings { whitelisted_node_ips = some (ip_of 2 ∷ []) }

abbrev dial_listed : SocketAddr → Attempted (Talk Message)
dial_listed addr =
    if contains IpAddr-discrete (ip_of 2 ∷ []) addr.ip then calling.dial addr else none

listed_agree :
    AgreeOn plain numbers calling [] one pub_two listed
      (ip_of 2 ∷ [])
      dial_listed
      calling.puncher.new_reusably_bound
      calling.puncher.connect_stream
listed_agree addr h = (rw h refl, refl, refl)

connect-listed_example :
    connect plain numbers calling [] one pub_two listed
    ≡ connect plain numbers
        (elsewhere plain numbers calling [] one pub_two listed
          (ip_of 2 ∷ [])
          dial_listed
          calling.puncher.new_reusably_bound
          calling.puncher.connect_stream)
        []
        one
        pub_two
        listed
connect-listed_example =
    connect-listed plain numbers calling [] one pub_two listed (ip_of 2 ∷ []) dial_listed
      calling.puncher.new_reusably_bound calling.puncher.connect_stream refl listed_agree

abbrev files : FileHandlers (Unit {0}) (Unit {0})
files = record {
  exe_file_stem = ok [];
  new = λ name. ok tt;
  read_file = λ file. ok (addr_of 9 ∷ addr_of 3 ∷ []);
}

abbrev around : Around ℕ Message (Unit {0})
around = record {
  discover = λ port. ok [];
  timeout = ok tt;
  clock = clock;
  contact = λ addr. some (ok tt, arrives (ok (some (bootstrap_granted 3))));
  race = first_race;
}

abbrev mark : TryPeerError (Unit {0}) → SocketAddr × TryPeerError (Unit {0})
mark e = (addr_of 3, e)

abbrev bound : SocketAddr
bound = record { ip = v4 (record { a = 0; b = 0; c = 0; d = 0 }); port = 4000 }

abbrev outside : Outside (Unit {0})
outside = record {
  new_reusably_bound = λ addr. ok bound;
  get_any_address = λ g addr. some (addr_of 5);
  stun = λ addr peer. some (addr_of 6);
  timeout = ok tt;
}

abbrev context : MappingContext (Unit {0})
context = record {
  our_ifv4s =
      record {
        ip = record { a = 192; b = 168; c = 0; d = 2 };
        gateway = some tt;
        force_include_port = true;
      }
      ∷ [];
  our_ifv6s = [];
  peer_stuns = addr_of 1 ∷ [];
}

mapped :
    mapped_tcp_socket outside context (unspecified_at 0)
    ≡ ok (bound, mapped_addrs outside context bound)
unfolding mapped_tcp_socket
mapped = refl

abbrev forced : SocketAddr
forced = record { ip = ip_of 5; port = 4000 }

mapped_iff_example :
    Memᴰ forced (mapped_addrs outside context bound) ↔ Origin outside context bound forced
mapped_iff_example = mapped_iff outside context (unspecified_at 0) forced mapped

abbrev service : Service ℕ Message (Unit {0})
service = record {
  config = default_settings;
  our_uid = 1;
  mc = context;
  acceptor = record {
    listeners = record { current = []; observers = [] };
    listeners_tx = [];
    demux = Demux.new;
    our_uid = 1;
  };
}

abbrev started : Addresses × Entry
started =
    Listener.listener (mapped_addrs outside context bound) Listener.idle service.acceptor.listeners

abbrev with_listener : Service ℕ Message (Unit {0})
with_listener = record service {
  acceptor = record (service.acceptor) { listeners = started.0; listeners_tx = started.1 ∷ [] };
}

starts : start_listener outside (λ addr. ok addr) Listener.idle service ≡ ok (bound, with_listener)
unfolding start_listener Acceptor.listener mapped_tcp_socket
starts = refl

start_listener_iff_example :
    (b : SocketAddr) × Path (Result IoError SocketAddr) (ok b) (ok bound)
    × (Memᴰ forced started.0.current ↔ (Memᴰ forced [] ⊎ Origin outside context b forced))
start_listener_iff_example =
    start_listener_iff outside service (λ addr. ok addr) Listener.idle forced starts

-- A connection on which the peer of the uid 1 asks for us, and one that has ended.
abbrev caller : Incoming ℕ Message
caller = record {
  socket = record { inner = some inner; outbox = [] };
  request = record { uid = 1; name_hash = [] };
  choice = none;
}

abbrev gone : Incoming ℕ Message
gone = record caller { socket = record { inner = none; outbox = [] } }

abbrev visited : List (Incoming ℕ Message) → World ℕ Message (Unit {0})
visited l = record world { peer_rx = l }

two_is_not_one : ¬ Path ℕ 2 1
two_is_not_one e = omega (arith, e)

two_chooses : chooses numbers 2 1 ≡ true
unfolding chooses
two_chooses = refl

picked : (w : World ℕ Message (Unit {0})) → IsPicked plain numbers w 2 1 [] (came caller)
picked w e = let clash : true ≡ false = sym two_chooses ∙ e in cc

not_listed : ¬ Memᴰ (ip_of 1) (ip_of 2 ∷ [])
unfolding contains same IpAddr-discrete Ipv4Addr-discrete ℕ_discrete
not_listed m =
    let clash : false ≡ true = Memᴰ→contains IpAddr-discrete (ip_of 2 ∷ []) (ip_of 1) m in cc

unlisted_connects_example :
    (p : Peer ℕ Message) × (connect plain numbers (visited (caller ∷ [])) [] two pub_one listed
      ≡ ok p)
    × (p.socket.inner ≡ some inner)
unlisted_connects_example =
    unlisted_connects plain numbers (visited (caller ∷ [])) [] two pub_one listed caller inner
      (ip_of 2 ∷ []) two_is_not_one refl refl refl refl not_listed refl refl refl refl
      (picked (visited (caller ∷ [])))
