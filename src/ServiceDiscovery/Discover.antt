-- ===== src/ServiceDiscovery/Discover.antt =====
-- service_discovery/src/discover.rs: the searching side. `inbox` holds the datagrams that have
-- arrived; `sends` tells whether the socket takes the request.
pub mod Finds
use crust_futures.Base.{
  ℕ, zero, suc, List, [], ◌∷◌, Bool, true, false, Option, none, some, ok, err, if◌then◌else◌,
}
use crust_futures.Addr.{Ipv4Addr, IpAddr, v4, v6, SocketAddr}
use crust_futures.ServiceDiscovery.{DiscoveryMsg, request, response, Datagram}

pub data DiscoverState : Type 0 where
  reading writing : DiscoverState

-- What a poll gives: `panics` is the `unreachable!()` on an address that is not IPv4.
pub data Polled (T : Type 0) : Type 0 where
  not_ready panics : Polled T
  found : Ipv4Addr → T → Polled T

of_response : {T : Type 0} → IpAddr → T → Polled T
of_response (v4 ip) r = found ip r
of_response (v6 n) r = panics

module _ {E T : Type 0} where
  -- The loop from the state `Reading` on, which it keeps, with the datagrams that it leaves.
  pub read : List (Datagram E T) → List (Datagram E T) × Polled T
  unfolding of_response
  read [] = ([], not_ready)
  read ((a, ok request) ∷ ms) = read ms
  read ((a, ok (response r)) ∷ ms) = (ms, of_response a.ip r)
  read ((a, err e) ∷ ms) = read ms

  pub poll :
      Bool → List (Datagram E T) → DiscoverState → DiscoverState × List (Datagram E T) × Polled T
  unfolding read
  poll sends inbox reading = let (rest, p) = read inbox in (reading, rest, p)
  poll true inbox writing = let (rest, p) = read inbox in (reading, rest, p)
  poll false inbox writing = (writing, inbox, not_ready)

  -- What a caller that polls up to a number of times collects, until a poll is not ready.
  next :
      (DiscoverState → List (Datagram E T) → List (Ipv4Addr × T))
      → DiscoverState × List (Datagram E T) × Polled T
      → List (Ipv4Addr × T)
  next more (state, inbox, not_ready) = []
  next more (state, inbox, panics) = []
  next more (state, inbox, found ip r) = (ip, r) ∷ more state inbox

  pub collect : ℕ → DiscoverState → List (Datagram E T) → List (Ipv4Addr × T)
  unfolding poll next
  collect zero state inbox = []
  collect (suc n) state inbox = next (collect n) (poll true inbox state)
