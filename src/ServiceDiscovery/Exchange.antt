-- ===== src/ServiceDiscovery/Exchange.antt =====
-- service_discovery/src: a search and the servers that hear it, over the codec of the datagrams.
use crust_futures.Base.{
  ℕ, suc, ◌≡◌, refl, ap, ◌∙◌, List, [], ◌∷◌, ◌++◌, map, false, ok, length, length-map, All, arith,
}
use crust_futures.Addr.{Ipv4Addr, v4, SocketAddr}
use crust_futures.Net.{Codec}
use crust_futures.SerdeUdpCodec.{decode, encode}
use crust_futures.ServiceDiscovery.{DiscoveryMsg, request, response, Datagram}
use crust_futures.ServiceDiscovery.Server
use crust_futures.ServiceDiscovery.Server.{ServerTask, newest}
use crust_futures.ServiceDiscovery.Server.Answers.{poll_answers_all}
use crust_futures.ServiceDiscovery.Discover.{writing, collect}
use crust_futures.ServiceDiscovery.Discover.Finds.{AllV4, responses, collect_lem}

-- A machine with a server on it.
pub record Host (T : Type 0) : Type 0 where
  pub ip : Ipv4Addr
  pub port : ℕ
  pub task : ServerTask T

module _ {T : Type 0} where
  abbrev pub home : Host T → SocketAddr
  home h = record { ip = v4 h.ip; port = h.port }

  abbrev pub IsListening : Host T → Type 0
  IsListening h = (h.task.data_closed ≡ false) × (h.task.state ≡ Server.reading)

  abbrev pub current : Host T → T
  current h = newest h.task.data_rx h.task.data'

module _ {T D : Type 0} (C : Codec (DiscoveryMsg T) D) (me broadcast : SocketAddr) where
  -- The request, as it comes to a server.
  abbrev pub heard : Datagram C.Error T
  heard = decode C me (encode C (broadcast, request)).0

  -- What a host's server sends in a poll on the request, as it comes to the searching side.
  abbrev pub answers : Host T → List (Datagram C.Error T)
  answers h =
      map (λ (a, d). decode C (home h) (encode C (a, response d)).0)
        (Server.poll 1 (heard ∷ []) h.task).1.sent

  abbrev pub inbox : List (Host T) → List (Datagram C.Error T)
  inbox [] = []
  inbox (h ∷ hs) = answers h ++ inbox hs

  module _ (law : (m : DiscoveryMsg T) → C.deserialise (C.serialise m) ≡ ok m) where
    answer : Host T → Datagram C.Error T
    answer h = (home h, ok (response (current h)))

    answers-one : (h : Host T) → IsListening h → answers h ≡ answer h ∷ []
    unfolding answer decode encode
    answers-one h (open_, idle) =
        let asked : Datagram C.Error T = (me, ok request) in
        let is_asked : heard ≡ asked = ap (λ r. (me, r)) (law request) in
        let reply : SocketAddr × T → Datagram C.Error T =
          λ (a, d). decode C (home h) (encode C (a, response d)).0 in
        let answered : Datagram C.Error T → List (Datagram C.Error T) =
          λ m. map reply (Server.poll 1 (m ∷ []) h.task).1.sent in
        ap answered is_asked
        ∙ ap (map reply) (poll_answers_all 1 (asked ∷ []) h.task open_ idle (omega arith))
        ∙ ap (λ r. (home h, r) ∷ []) (law (response (current h)))

    inbox-all : (hs : List (Host T)) → All IsListening hs → inbox hs ≡ map answer hs
    inbox-all [] l = refl
    inbox-all (h ∷ hs) l =
        ap (λ x. x ++ inbox hs) (answers-one h l.0) ∙ ap (λ x. answer h ∷ x) (inbox-all hs l.1)

    all_v4 : (hs : List (Host T)) → AllV4 (map answer hs)
    unfolding answer
    all_v4 [] = tt
    all_v4 (h ∷ hs) = (tt, all_v4 hs)

    all_responses :
        (hs : List (Host T)) → responses (map answer hs) ≡ map (λ h. (h.ip, current h)) hs
    unfolding answer
    all_responses [] = refl
    all_responses (h ∷ hs) = ap (λ l. (h.ip, current h) ∷ l) (all_responses hs)

    -- With a codec that reads back what it writes, a search that polls once more than there are
    -- hosts finds all hosts whose servers listen when the request comes, each with its newest data, in
    -- the order of their answers.
    pub search_finds :
        (hs : List (Host T))
        → All IsListening hs
        → collect (suc (length hs)) writing (inbox hs) ≡ map (λ h. (h.ip, current h)) hs
    search_finds hs l =
        ap (collect (suc (length hs)) writing) (inbox-all hs l)
        ∙ collect_lem (suc (length hs)) writing (map answer hs) (all_v4 hs)
            (let e = length-map answer hs in omega (arith, e))
        ∙ all_responses hs
