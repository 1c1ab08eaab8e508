-- ===== src/ServiceDiscovery/Discover/Finds.antt =====
-- service_discovery/src/discover.rs: which peers are found.
use crust_futures.Base.{
  ℕ, zero, suc, ◌<◌, ◌≡◌, ◌≢◌, refl, ap, List, [], ◌∷◌, Bool, true, false, ok, err, length, arith,
  All,
}
use crust_futures.Addr.{Ipv4Addr, IpAddr, v4, v6}
use crust_futures.ServiceDiscovery.{request, response, Datagram}
use crust_futures.ServiceDiscovery.Discover.{
  DiscoverState, reading, writing, panics, of_response, read, poll, next, collect,
}

abbrev pub IsV4 : IpAddr → Type 0
IsV4 (v4 ip) = Unit {0}
IsV4 (v6 n) = ⊥

abbrev of_ip : {T : Type 0} → IpAddr → T → List (Ipv4Addr × T) → List (Ipv4Addr × T)
of_ip (v4 ip) r rest = (ip, r) ∷ rest
of_ip (v6 n) r rest = rest

of_response_v4 : {T : Type 0} (ip : IpAddr) (r : T) → IsV4 ip → of_response ip r ≢ panics
unfolding of_response
of_response_v4 (v4 ip) r h e = cc
of_response_v4 (v6 n) r h e = h

module _ {E T : Type 0} where
  -- A socket bound to an IPv4 address hears only from those.
  abbrev pub AllV4 : List (Datagram E T) → Type 0
  AllV4 = All (λ m. IsV4 m.0.ip)

  -- The responses among the datagrams, each with its sender, in the order of their arrival.
  abbrev pub responses : List (Datagram E T) → List (Ipv4Addr × T)
  responses [] = []
  responses ((a, ok request) ∷ ms) = responses ms
  responses ((a, ok (response r)) ∷ ms) = of_ip a.ip r (responses ms)
  responses ((a, err e) ∷ ms) = responses ms

  read_v4 : (ms : List (Datagram E T)) → AllV4 ms → (read ms).1 ≢ panics
  unfolding read
  read_v4 [] h e = cc
  read_v4 ((a, ok request) ∷ ms) h e = read_v4 ms h.1 e
  read_v4 ((a, ok (response r)) ∷ ms) h e = of_response_v4 a.ip r h.0 e
  read_v4 ((a, err x) ∷ ms) h e = read_v4 ms h.1 e

  -- On datagrams from IPv4 addresses a poll never panics.
  pub poll_v4 :
      (sends : Bool) (ms : List (Datagram E T)) (state : DiscoverState)
      → AllV4 ms
      → (poll sends ms state).2 ≢ panics
  unfolding poll
  poll_v4 sends ms reading h e = read_v4 ms h e
  poll_v4 true ms writing h e = read_v4 ms h e
  poll_v4 false ms writing h e = cc

  found_next :
      (n : ℕ) (ip : IpAddr) (r : T) (ms : List (Datagram E T))
      → IsV4 ip
      → collect n reading ms ≡ responses ms
      → next (collect n) (reading, ms, of_response ip r) ≡ of_ip ip r (responses ms)
  unfolding next of_response
  found_next n (v4 ip) r ms h e = ap (λ l. (ip, r) ∷ l) e
  found_next n (v6 x) r ms h e = absurd h

  collect_reading :
      (n : ℕ) (ms : List (Datagram E T))
      → AllV4 ms
      → length ms < n
      → collect n reading ms ≡ responses ms
  unfolding collect poll read next
  collect_reading zero ms h k = absurd (omega arith)
  collect_reading (suc n) [] h k = refl
  collect_reading (suc n) ((a, ok request) ∷ ms) h k =
      collect_reading (suc n) ms h.1 (omega (arith, k))
  collect_reading (suc n) ((a, ok (response r)) ∷ ms) h k =
      found_next n a.ip r ms h.0 (collect_reading n ms h.1 (omega (arith, k)))
  collect_reading (suc n) ((a, err e) ∷ ms) h k = collect_reading (suc n) ms h.1 (omega (arith, k))

  -- With a socket that takes the request, and on datagrams from IPv4 addresses, polls up to one more
  -- than there are datagrams give every response with its sender, in the order of their arrival, and
  -- nothing else, whether the request was sent before or is sent by the first poll.
  pub collect_lem :
      (n : ℕ) (state : DiscoverState) (ms : List (Datagram E T))
      → AllV4 ms
      → length ms < n
      → collect n state ms ≡ responses ms
  unfolding collect poll
  collect_lem n reading ms h k = collect_reading n ms h k
  collect_lem zero writing ms h k = absurd (omega arith)
  collect_lem (suc n) writing ms h k = collect_reading (suc n) ms h k
