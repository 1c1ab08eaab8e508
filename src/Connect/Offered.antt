-- ===== src/Connect/Offered.antt =====
-- crust/src/net/peer/connect/connect.rs: one good connection is enough for a rendezvous.
use crust_futures.Base.{
  ◌≡◌, ◌≢◌, refl, ap, ◌∙◌, subst, List, ◌++◌, map, Option, none, some, Result, ok, map_err, ◌>>=◌,
  somes, Memᴰ, Memᴰ-map, Memᴰ-somes, Memᴰ-keep_of, Memᴰ-append_left, Memᴰ-append_right,
  Memᴰ→contains, contains, ne→same,
}
use crust_futures.Addr.{IpAddr, IpAddr-discrete, SocketAddr, Uid}
use crust_futures.Net.{Codec}
use crust_futures.Config.{ConfigSettings}
use crust_futures.Handshake.{NameHash, HandshakeMessage}
use crust_futures.ConnectionInfo.{PrivConnectionInfo, PubConnectionInfo}
use crust_futures.HolePunch.{Attempted, at_addr}
use crust_futures.Peer.{Peer}
use crust_futures.Connect.{
  ConnectError, connect_io, Talk, Incoming, Attempt, came, went, World, punched, attempts, settle,
  connect, allowed,
}
use crust_futures.Connect.Peers.{IsVouched}
use crust_futures.Connect.Settled.{IsRendezvous, connect_ok}
use crust_futures.Connect.Live.{IsLive, IsPicked, settle_live}

module _ {U D : Type 0} (C : Codec (HandshakeMessage U) D) (uids : Uid U) (w : World U D C.Error)
    (name_hash : NameHash) (our_info : PrivConnectionInfo U) (their_info : PubConnectionInfo U)
    (config : ConfigSettings) where
  abbrev pub IsAllowed : SocketAddr → Type 0
  IsAllowed addr = (ips : List IpAddr) → config.whitelisted_node_ips ≡ some ips → Memᴰ addr.ip ips

  -- A connection that comes in, from wherever, or one that is made to an address of the other peer
  -- that the white list allows.
  pub data IsOffered : Attempt U D → Type 0 where
    comes : (i : Incoming U D) → Memᴰ i w.peer_rx → IsOffered (came i)
    dialled :
        (addr : SocketAddr) (talk : Talk D)
        → Memᴰ addr their_info.for_direct
        → IsAllowed addr
        → w.dial addr ≡ some (ok talk)
        → IsOffered (went (ok (addr, talk)))

  allowed-Memᴰ :
      (o : Option (List IpAddr)) (addrs : List SocketAddr) (addr : SocketAddr)
      → Memᴰ addr addrs
      → ((ips : List IpAddr) → o ≡ some ips → Memᴰ addr.ip ips)
      → Memᴰ addr (allowed o addrs)
  allowed-Memᴰ none addrs addr m h = m
  allowed-Memᴰ (some ips) addrs addr m h =
      Memᴰ-keep_of (λ s. contains IpAddr-discrete ips s.ip) addrs addr m
        (Memᴰ→contains IpAddr-discrete ips addr.ip (h ips refl))

  -- What is offered is tried.
  IsOffered-Memᴰ :
      (holes : List (Attempted (SocketAddr × Talk D))) (a : Attempt U D)
      → IsOffered a
      → Memᴰ a (attempts C uids w name_hash our_info their_info config holes)
  unfolding attempts
  IsOffered-Memᴰ holes a (comes i m) =
      Memᴰ-append_left (map came w.peer_rx) _ (came i) (Memᴰ-map came w.peer_rx i m)
  IsOffered-Memᴰ holes a (dialled addr talk m h e) =
      let addrs = allowed config.whitelisted_node_ips their_info.for_direct in
      let call : SocketAddr → Attempted (SocketAddr × Talk D) =
        λ addr. at_addr addr (w.dial addr) in
      let there =
        Memᴰ-map call addrs addr
          (allowed-Memᴰ config.whitelisted_node_ips their_info.for_direct addr m h) in
      Memᴰ-append_right (map came w.peer_rx) _ a (
        Memᴰ-map went (somes (map call addrs ++ holes)) (ok (addr, talk)) (
          Memᴰ-somes (map call addrs ++ holes) (ok (addr, talk)) (
            Memᴰ-append_left (map call addrs) holes (some (ok (addr, talk)))
              (subst (λ o. Memᴰ o (map call addrs)) (ap (at_addr addr) e) there))))

  begins :
      {holes : List (Attempted (SocketAddr × Talk D))}
      → our_info.id ≢ their_info.id
      → punched C uids w name_hash our_info their_info config our_info.hole_punch_socket ≡ ok holes
      → w.timeout ≡ ok tt
      → connect C uids w name_hash our_info their_info config
        ≡ settle C uids w name_hash our_info their_info config
            (attempts C uids w name_hash our_info their_info config holes)
  unfolding connect
  begins {holes} ne begun timer =
      let rest : List (Attempted (SocketAddr × Talk D))
          → Result (ConnectError U C.Error) (Peer U D) =
        λ holes.
          settle C uids w name_hash our_info their_info config
            (attempts C uids w name_hash our_info their_info config holes) in
      rw (ne→same uids.eq our_info.id their_info.id ne) (
        ap (λ r. map_err connect_io r >>= λ holes. map_err connect_io w.timeout >>= λ _. rest holes)
          begun
        ∙ ap (λ r. map_err connect_io r >>= λ _. rest holes) timer)

  pub vouched_connects :
      {holes : List (Attempted (SocketAddr × Talk D))} (a : Attempt U D)
      → our_info.id ≢ their_info.id
      → punched C uids w name_hash our_info their_info config our_info.hole_punch_socket ≡ ok holes
      → w.timeout ≡ ok tt
      → w.clock.timers ≡ ok tt
      → IsOffered a
      → IsVouched C their_info.id name_hash a
      → IsLive a
      → IsPicked C uids w our_info.id their_info.id name_hash a
      → (p : Peer U D) × (connect C uids w name_hash our_info their_info config ≡ ok p)
        × IsRendezvous C uids w name_hash our_info their_info config p
  unfolding settle
  vouched_connects {holes} a ne begun timer timers offered vouched live picked =
      let (p, e) =
        settle_live C uids w our_info.id their_info.id name_hash
          (attempts C uids w name_hash our_info their_info config holes) a
          (IsOffered-Memᴰ holes a offered) vouched live picked timers in
      let given : connect C uids w name_hash our_info their_info config ≡ ok p =
        begins ne begun timer ∙ e in
      (p, given, connect_ok C uids w name_hash our_info their_info config given)
