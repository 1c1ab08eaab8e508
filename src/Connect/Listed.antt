-- ===== src/Connect/Listed.antt =====
-- crust/src/net/peer/connect/connect.rs: the white list of nodes, for the connections that we make.
use crust_futures.Base.{
  ◌≡◌, refl, ap, ◌∙◌, List, ◌++◌, map, Option, none, some, true, Result, ok, err, map_err, ◌>>=◌,
  somes, Memᴰ, subst, same, if◌then◌else◌,
}
use crust_futures.Addr.{SocketAddr, Uid}
use crust_futures.Net.{IoError, Codec}
use crust_futures.Config.{ConfigSettings}
use crust_futures.Handshake.{NameHash, HandshakeMessage}
use crust_futures.ConnectionInfo.{PrivConnectionInfo, PubConnectionInfo}
use crust_futures.HolePunch.{Attempted}
use crust_futures.Connect.{
  ConnectError, requested_connect_to_self, connect_io, Talk, came, went, World, shake, heard, frame,
  replied, our_connect_request, handshake, make_peer, choose_on, choose, on_choice, await_choice,
  be_chosen, punched, attempts, settle, connect,
}
use crust_futures.Base.{contains, of_Memᴰ-keep, map-agree}
use crust_futures.Addr.{IpAddr, IpAddr-discrete}
use crust_futures.HolePunch.{at_addr}
use crust_futures.HolePunch.Agree.{other, tcp_hole_punch-agree}
use crust_futures.Connect.{allowed}

then_agree :
    {U S A B : Type 0} (r : Result IoError A) (f g : A → Result (ConnectError U S) B)
    → ((a : A) → f a ≡ g a)
    → (map_err connect_io r >>= f) ≡ (map_err connect_io r >>= g)
then_agree (ok a) f g h = h a
then_agree (err e) f g h = refl

module _ {U D : Type 0} (C : Codec (HandshakeMessage U) D) (uids : Uid U) (w : World U D C.Error)
    (name_hash : NameHash) (our_info : PrivConnectionInfo U) (their_info : PubConnectionInfo U)
    (config : ConfigSettings) (ips : List IpAddr) (dial' : SocketAddr → Attempted (Talk D))
    (bind' : SocketAddr → Result IoError (Unit {0}))
    (stream' : SocketAddr → Attempted (Talk D)) where
  abbrev pub elsewhere : World U D C.Error
  elsewhere = record w { dial = dial'; puncher = other w.puncher bind' stream' }

  -- The networks agree on the addresses that the white list has.
  abbrev pub AgreeOn : Type 0
  AgreeOn =
      (addr : SocketAddr)
      → contains IpAddr-discrete ips addr.ip ≡ true
      → (w.dial addr ≡ dial' addr)
        × (w.puncher.new_reusably_bound addr ≡ bind' addr)
        × (w.puncher.connect_stream addr ≡ stream' addr)

  listed :
      (addrs : List SocketAddr) (addr : SocketAddr)
      → Memᴰ addr (allowed (some ips) addrs)
      → contains IpAddr-discrete ips addr.ip ≡ true
  listed addrs addr m =
      let (there, h) = of_Memᴰ-keep (λ s. contains IpAddr-discrete ips s.ip) addrs addr m in h

  punched-agree :
      (o : Option SocketAddr) (l : Option (List IpAddr))
      → config.whitelisted_node_ips ≡ l
      → l ≡ some ips
      → AgreeOn
      → punched C uids w name_hash our_info their_info config o
        ≡ punched C uids elsewhere name_hash our_info their_info config o
  unfolding punched
  punched-agree none l e q h = refl
  punched-agree (some s) l e q h =
      tcp_hole_punch-agree w.puncher bind' stream'
        (allowed config.whitelisted_node_ips their_info.for_hole_punch)
        (λ addr m.
          let (d, b, c) = h addr (
            listed their_info.for_hole_punch addr
              (subst (λ o. Memᴰ addr (allowed o their_info.for_hole_punch)) (e ∙ q) m)) in
          (b, c))

  attempts-agree :
      (holes : List (Attempted (SocketAddr × Talk D)))
      → config.whitelisted_node_ips ≡ some ips
      → AgreeOn
      → attempts C uids w name_hash our_info their_info config holes
        ≡ attempts C uids elsewhere name_hash our_info their_info config holes
  unfolding attempts
  attempts-agree holes e h =
      let direct : map (λ addr. at_addr addr (w.dial addr))
            (allowed config.whitelisted_node_ips their_info.for_direct)
          ≡ map (λ addr. at_addr addr (dial' addr))
              (allowed config.whitelisted_node_ips their_info.for_direct) =
        map-agree _ _ (allowed config.whitelisted_node_ips their_info.for_direct) (λ addr m.
          ap (at_addr addr)
            (h addr (
              listed their_info.for_direct addr
                (subst (λ o. Memᴰ addr (allowed o their_info.for_direct)) e m))).0) in
      ap (λ l. map came w.peer_rx ++ map went (somes (l ++ holes))) direct

  -- With a white list of nodes, it makes no difference what the network would do for an address that
  -- is not on it: no connection is made and no hole punched to one. The connections that come in,
  -- which the list does not filter, are the same on both sides.
  pub connect-listed :
      config.whitelisted_node_ips ≡ some ips
      → AgreeOn
      → connect C uids w name_hash our_info their_info config
        ≡ connect C uids elsewhere name_hash our_info their_info config
  unfolding connect settle handshake choose be_chosen await_choice choose_on make_peer on_choice
      replied heard frame shake our_connect_request
  connect-listed e h =
      ap
        (λ p.
          if same uids.eq our_info.id their_info.id
          then err requested_connect_to_self
          else map_err connect_io p >>= λ holes. map_err connect_io w.timeout >>= λ _.
              settle C uids w name_hash our_info their_info config
                (attempts C uids w name_hash our_info their_info config holes))
        (punched-agree our_info.hole_punch_socket config.whitelisted_node_ips refl e h)
      ∙ ap
          (λ r. if same uids.eq our_info.id their_info.id then err requested_connect_to_self else r)
          (then_agree
            (punched C uids elsewhere name_hash our_info their_info config
              our_info.hole_punch_socket)
            _ _
            (λ holes.
              ap
                (λ l. map_err connect_io w.timeout >>= λ _.
                  settle C uids w name_hash our_info their_info config l)
                (attempts-agree holes e h)))
