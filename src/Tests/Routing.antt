-- ===== src/Tests/Routing.antt =====
-- The demultiplexer, the stream of accepted peers, the exchange of addresses and service discovery.
use crust_futures.Base.{
  ℕ, ◌+◌, ◌≡◌, refl, List, [], ◌∷◌, ◌++◌, none, some, true, false, ok, err, ready, length, same,
  ℕ_discrete, arith,
}
use crust_futures.Handshake.{HandshakeMessage, ConnectRequest, connect}
use crust_futures.Socket.Front.{Socket, Inner}
use crust_futures.Bootstrap.Try.{arrives}
use crust_futures.Bootstrap.Both.{first_frame}
use crust_futures.Bootstrap.Acceptor.{
  Ended, nothing_ended, accepted, failed, Unordered, BootstrapAcceptor,
}
use crust_futures.Bootstrap.Acceptor
use crust_futures.Bootstrap.Acceptor.Ends.{poll_last_lost}
use crust_futures.Stun.{stun, stun_respond}
use crust_futures.Stun.Echo.{stun_echo}
use crust_futures.Demux.{DemuxInner, to_connection, register, handle_incoming}
use crust_futures.Demux.Routes.{connect_routed}
use crust_futures.ServiceDiscovery.{request, response, Datagram}
use crust_futures.ServiceDiscovery.Server.{ServerTask, reading, writing, newest}
use crust_futures.ServiceDiscovery.Server
use crust_futures.ServiceDiscovery.Server.Answers.{due, unwritten, poll_answers}
use crust_futures.ServiceDiscovery.Discover
use crust_futures.Base.{map}
use crust_futures.ServiceDiscovery.{DiscoveryMsg}
use crust_futures.ServiceDiscovery.Exchange.{Host, current, inbox, search_finds}
use crust_futures.Tests.Fixtures.{plain, numbers, addr_of}

law : (m : HandshakeMessage ℕ) → plain.deserialise (plain.serialise m) ≡ ok m
law m = refl

abbrev inner : Inner
inner = record { peer_addr = addr_of 2 }

abbrev fresh : Socket (HandshakeMessage ℕ)
fresh = record { inner = some inner; outbox = [] }

stun_echo_example :
    stun plain (addr_of 1) (ok tt) (ok tt) (first_frame (stun_respond plain fresh).0.outbox)
    ≡ ok (addr_of 2)
stun_echo_example = stun_echo plain law (addr_of 1) inner

abbrev routes : DemuxInner ℕ (HandshakeMessage ℕ)
routes = record {
  bootstrap_handler = none;
  connection_handler = [];
  delivered = [];
  next_channel = 3;
}

abbrev from_seven : ConnectRequest ℕ
from_seven = record { uid = 7; name_hash = [] }

always : (c : ℕ) → true ≡ true
always c = refl

connect_routed_example :
    let x2 = (register numbers 8 (register numbers 7 routes).0).0 in
    handle_incoming plain numbers (λ c. true) (arrives (ok (some (connect from_seven)))) fresh x2
    ≡ (
      record x2 { delivered = to_connection (register numbers 7 routes).1 fresh from_seven ∷ [] },
      fresh,
      ok tt,
    )
unfolding same ℕ_discrete
connect_routed_example =
    connect_routed plain numbers (λ c. true) law from_seven 8 fresh routes {i = inner} refl always

-- The oldest handshake ends at each poll, with the number of its request.
abbrev oldest : List ℕ → Ended ℕ (Unit {0}) ℕ
oldest [] = nothing_ended
oldest (r ∷ rs) = accepted r rs

oldest_accepted :
    (rs : List ℕ) (p : ℕ) (left : List ℕ)
    → oldest rs ≡ accepted p left
    → length rs ≡ length left + 1
oldest_accepted [] p left e = cc
oldest_accepted (r ∷ rs) p left e = let q : rs ≡ left = cc in rw q (omega arith)

oldest_failed :
    (rs : List ℕ) (x : Unit {0}) (left : List ℕ)
    → oldest rs ≡ failed x left
    → length rs ≡ length left + 1
oldest_failed [] x left e = cc
oldest_failed (r ∷ rs) x left e = cc

abbrev handshakes : Unordered ℕ (Unit {0}) ℕ
handshakes = record {
  poll = oldest;
  poll_nil = refl;
  accepted_one = oldest_accepted;
  failed_one = oldest_failed;
}

abbrev acceptor : BootstrapAcceptor ℕ
acceptor = record { peer_rx = 5 ∷ 6 ∷ []; rx_closed = false; handshaking = 4 ∷ [] }

abbrev closing : BootstrapAcceptor ℕ
closing = record { peer_rx = []; rx_closed = true; handshaking = 4 ∷ [] }

poll_last_lost_example :
    ((Acceptor.poll handshakes closing).1 ≡ ok (ready none))
    × (length (Acceptor.poll handshakes closing).0.handshaking ≡ 0)
    × (length closing.handshaking + length closing.peer_rx ≡ 1)
poll_last_lost_example = poll_last_lost handshakes closing 4 refl refl

abbrev datagrams : List (Datagram (Unit {0}) ℕ)
datagrams =
    (addr_of 1, ok request)
    ∷ (addr_of 2, err tt)
    ∷ (addr_of 3, ok (response 9))
    ∷ (addr_of 4, ok request)
    ∷ []

abbrev server : ServerTask ℕ
server = record {
  data_rx = 21 ∷ 22 ∷ [];
  data_closed = false;
  data' = 20;
  state = writing (addr_of 9) 20;
}

poll_answers_example :
    let (t', s, _) = Server.poll 2 datagrams server in
    s.sent ++ unwritten t'.state ++ due t'.data' s.inbox
    ≡ (addr_of 9, 20) ∷ due (newest (21 ∷ 22 ∷ []) 20) datagrams
poll_answers_example = poll_answers 2 datagrams server refl

abbrev host : ℕ → List ℕ → Host ℕ
host n updates = record {
  ip = record { a = 10; b = 0; c = 0; d = n };
  port = 5484;
  task = record { data_rx = updates; data_closed = false; data' = 1; state = reading };
}

abbrev hosts : List (Host ℕ)
hosts = host 1 [] ∷ host 2 (5 ∷ 6 ∷ []) ∷ []

abbrev discovery_law : (m : DiscoveryMsg ℕ) → plain.deserialise (plain.serialise m) ≡ ok m
discovery_law m = refl

search_finds_example :
    Discover.collect 3 Discover.writing (inbox plain (addr_of 1) (addr_of 255) hosts)
    ≡ map (λ h. (h.ip, current h)) hosts
search_finds_example =
    search_finds plain (addr_of 1) (addr_of 255) discovery_law hosts
      ((refl, refl), ((refl, refl), tt))
