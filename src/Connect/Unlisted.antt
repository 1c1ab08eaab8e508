-- ===== src/Connect/Unlisted.antt =====
-- crust/src/net/peer/connect/connect.rs: connections that come in from addresses that are not on the
-- white list of nodes.
use crust_futures.Base.{
  ◌≡◌, ◌≢◌, refl, sym, ap, ◌∙◌, subst, List, [], ◌∷◌, ◌++◌, map, none, some, Result, ok, somes,
  Memᴰ, Memᴰ-cons, inl, inr,
}
use crust_futures.Addr.{IpAddr, SocketAddr, Uid}
use crust_futures.Net.{IoError, Codec}
use crust_futures.Config.{ConfigSettings}
use crust_futures.Handshake.{NameHash, HandshakeMessage}
use crust_futures.ConnectionInfo.{PrivConnectionInfo, PubConnectionInfo}
use crust_futures.HolePunch.{Attempted, at_addr}
use crust_futures.Socket.Front.{Socket, Inner}
use crust_futures.Peer.{Peer}
use crust_futures.Connect.{
  Talk, Incoming, Attempt, came, went, World, allowed, punched, attempts, connect,
}
use crust_futures.Connect.Peers.{IsSocketOf}
use crust_futures.Connect.Settled.{IsChosen, by_us, by_them}
use crust_futures.Connect.Live.{IsPicked}
use crust_futures.Connect.Offered.{comes, vouched_connects}
use crust_futures.Connect.Both.{allowed_nil}

module _ {U D : Type 0} (C : Codec (HandshakeMessage U) D) (uids : Uid U) (our_uid their_uid : U)
    (name_hash : NameHash) where
  socket_inner :
      (i : Incoming U D) (s : Socket D)
      → IsSocketOf C our_uid name_hash (came i) s
      → s.inner ≡ i.socket.inner
  socket_inner i s (j, live, e) = ap (λ s. s.inner) e ∙ sym live

  -- The peer of a chosen connection that came in has the other end of that connection.
  chosen_inner :
      (i : Incoming U D) (p : Peer U D)
      → IsChosen C uids our_uid their_uid name_hash (came i) p
      → p.socket.inner ≡ i.socket.inner
  chosen_inner i p (by_us s c on_it told) = ap (λ s. s.inner) told ∙ socket_inner i s on_it
  chosen_inner i p (by_them f c later says on_it) = socket_inner i p.socket on_it

module _ {U D : Type 0} (C : Codec (HandshakeMessage U) D) (uids : Uid U) (w : World U D C.Error)
    (name_hash : NameHash) (our_info : PrivConnectionInfo U) (their_info : PubConnectionInfo U)
    (config : ConfigSettings) where
  -- Without a hole punching and without an address to connect to, what comes in is all there is.
  only_incoming :
      (i : Incoming U D) {holes : List (Attempted (SocketAddr × Talk D))} (a : Attempt U D)
      → our_info.hole_punch_socket ≡ none
      → punched C uids w name_hash our_info their_info config our_info.hole_punch_socket ≡ ok holes
      → w.peer_rx ≡ i ∷ []
      → their_info.for_direct ≡ []
      → Memᴰ a (attempts C uids w name_hash our_info their_info config holes)
      → a ≡ came i
  unfolding punched attempts
  only_incoming i {holes} a no_hole begun rx direct m =
      let none_left : [] ≡ holes =
        let q : Path (Result IoError (List (Attempted (SocketAddr × Talk D)))) (ok []) (ok holes) =
          ap (λ o. punched C uids w name_hash our_info their_info config o) (sym no_hole) ∙ begun in
        cc in
      let call : SocketAddr → Attempted (SocketAddr × Talk D) =
        λ addr. at_addr addr (w.dial addr) in
      let all : attempts C uids w name_hash our_info their_info config holes ≡ came i ∷ [] =
        ap
          (λ l.
            map came l
            ++ map went (
                somes
                  (map call (allowed config.whitelisted_node_ips their_info.for_direct) ++ holes)))
          rx
        ∙ ap
            (λ l.
              came i ∷ map went (somes (map call (allowed config.whitelisted_node_ips l) ++ holes)))
            direct
        ∙ ap (λ l. came i ∷ map went (somes (map call l ++ holes)))
            (allowed_nil config.whitelisted_node_ips)
        ∙ ap (λ l. came i ∷ map went (somes l)) (sym none_left) in
      elim (Memᴰ-cons (subst (Memᴰ a) all m)) [ inl e ↦ e | inr none_more ↦ elim none_more [ ] ]

  -- Of two peers with different uids, with timers and a white list of nodes, and with no hole punching
  -- and no address to connect to: if the only connection that comes in is live and from an address
  -- that is not on the list, and the other side's request for our network came on it, and its choice
  -- too unless we are to choose, then `connect` gives a peer at that address.
  pub unlisted_connects :
      (i : Incoming U D) (j : Inner) (ips : List IpAddr)
      → our_info.id ≢ their_info.id
      → our_info.hole_punch_socket ≡ none
      → w.timeout ≡ ok tt
      → w.clock.timers ≡ ok tt
      → config.whitelisted_node_ips ≡ some ips
      → (Memᴰ j.peer_addr.ip ips → ⊥)
      → w.peer_rx ≡ i ∷ []
      → their_info.for_direct ≡ []
      → i.socket.inner ≡ some j
      → i.request ≡ (record { uid = their_info.id; name_hash = name_hash })
      → IsPicked C uids w our_info.id their_info.id name_hash (came i)
      → (p : Peer U D) × (connect C uids w name_hash our_info their_info config ≡ ok p)
        × (p.socket.inner ≡ some j)
  unfolding punched
  unlisted_connects i j ips ne no_hole timer timers set unlisted rx direct live asked picked =
      let (p, e, r) =
        vouched_connects C uids w name_hash our_info their_info config (came i) ne
          (ap (λ o. punched C uids w name_hash our_info their_info config o) no_hole) timer timers
          (comes i (subst (Memᴰ i) (sym rx) (Memᴰ.head refl))) asked (j, live) picked in
      let it = only_incoming i r.attempt no_hole r.punches rx direct r.is_tried in
      let chosen =
        subst (λ a. IsChosen C uids our_info.id their_info.id name_hash a p) it r.is_chosen in
      (p, e, chosen_inner C uids our_info.id their_info.id name_hash i p chosen ∙ live)
