-- ===== src/Connect/Both.antt =====
-- crust/src/net/peer/connect/connect.rs: two peers that connect to each other.
use crust_futures.Base.{
  ◌≡◌, ◌≢◌, refl, sym, ap, List, [], ◌∷◌, ◌++◌, map, Option, none, some, false, Result, ok, somes,
  ne→same,
}
use crust_futures.Addr.{SocketAddr, Uid}
use crust_futures.Net.{IoError, Codec}
use crust_futures.Config.{ConfigSettings}
use crust_futures.Handshake.{NameHash, HandshakeMessage}
use crust_futures.ConnectionInfo.{PrivConnectionInfo, PubConnectionInfo}
use crust_futures.Socket.Front.{Inner}
use crust_futures.Bootstrap.Try.{arrives}
use crust_futures.Connect.{
  Talk, Incoming, Attempt, came, went, World, handshake, chooses, punched, attempts, settle,
  connect,
}
use crust_futures.Addr.{IpAddr}
use crust_futures.HolePunch.{at_addr}
use crust_futures.Connect.{allowed}
use crust_futures.Connect.Roles.{request, choice_frame, said, Ends, came-ok, went-ok, settle_one}

pub allowed_nil : (o : Option (List IpAddr)) → allowed o [] ≡ []
allowed_nil none = refl
allowed_nil (some ips) = refl

module _ {U D : Type 0} (C : Codec (HandshakeMessage U) D) (uids : Uid U)
    (law : (m : HandshakeMessage U) → C.deserialise (C.serialise m) ≡ ok m) where
  one_attempt :
      (w : World U D C.Error) (hash : NameHash) (our_info : PrivConnectionInfo U)
      (their_info : PubConnectionInfo U) (config : ConfigSettings) (a : Attempt U D) (i : Inner)
      → our_info.hole_punch_socket ≡ none
      → w.timeout ≡ ok tt
      → w.clock.timers ≡ ok tt
      → our_info.id ≢ their_info.id
      → attempts C uids w hash our_info their_info config [] ≡ a ∷ []
      → handshake C uids w our_info.id their_info.id hash a
        ≡ ok (
          record { inner = some i; outbox = said C false (request our_info.id hash) },
          choice_frame C (chooses uids their_info.id our_info.id),
        )
      → Ends C uids w our_info.id their_info.id hash law
          (chooses uids our_info.id their_info.id)
          (connect C uids w hash our_info their_info config)
  unfolding connect punched settle
  one_attempt w hash our_info their_info config a i no_hole timer timers ne one shaken =
      rw (ne→same uids.eq our_info.id their_info.id ne, no_hole, timer, one)
        (settle_one C uids w our_info.id their_info.id hash law a i shaken ne timers)

  -- A peer that a connection comes to and a peer that made it, which is all that either tries.
  abbrev from_them : Inner → U → NameHash → Option (Result IoError (Option D)) → Incoming U D
  from_them i uid hash choice = record {
    socket = record { inner = some i; outbox = [] };
    request = record { uid = uid; name_hash = hash };
    choice = choice;
  }

  abbrev listening :
      World U D C.Error
      → Inner
      → U
      → NameHash
      → Option (Result IoError (Option D))
      → World U D C.Error
  listening w i uid hash choice = record w { peer_rx = from_them i uid hash choice ∷ [] }

  abbrev dialling : World U D C.Error → Talk D → World U D C.Error
  dialling w talk = record w { peer_rx = []; dial = λ addr. some (ok talk) }

  -- Two peers with different uids on the same network, one of which connects to an address of the
  -- other that its white list allows, and both of which have timers: if each hears what the other
  -- says, then each has the other as a peer, and each has said just what the other was to hear: its
  -- request and, if its uid is the greater one, the choice of the connection.
  pub rendezvous :
      (v w : World U D C.Error) (hash : NameHash) (a b : U) (addr : SocketAddr) (i : Inner)
      (direct punch punch' : List SocketAddr) (config config' : ConfigSettings)
      → a ≢ b
      → allowed config.whitelisted_node_ips (addr ∷ []) ≡ addr ∷ []
      → (v.timeout ≡ ok tt) × (v.clock.timers ≡ ok tt)
      → (w.timeout ≡ ok tt) × (w.clock.timers ≡ ok tt)
      → Ends C uids v a b hash law (chooses uids a b) (
          connect C uids
            (dialling v (record {
              reply = arrives (ok (some (C.serialise (request b hash))));
              choice = choice_frame C (chooses uids b a);
            }))
            hash
            (record {
              id = a;
              for_direct = direct;
              for_hole_punch = punch;
              hole_punch_socket = none;
            })
            (record { id = b; for_direct = addr ∷ []; for_hole_punch = punch' })
            config)
        × Ends C uids w b a hash law (chooses uids b a) (
            connect C uids
              (listening w i a hash (choice_frame C (chooses uids a b)))
              hash
              (record {
                id = b;
                for_direct = addr ∷ [];
                for_hole_punch = punch';
                hole_punch_socket = none;
              })
              (record { id = a; for_direct = []; for_hole_punch = punch })
              config')
  unfolding attempts
  rendezvous v w hash a b addr i direct punch punch' config config' ne allows (tv, cv) (tw, cw) =
      let talk : Talk D = record {
        reply = arrives (ok (some (C.serialise (request b hash))));
        choice = choice_frame C (chooses uids b a);
      } in
      (
        one_attempt (dialling v talk) hash _ _ config (went (ok (addr, talk)))
            (record { peer_addr = addr }) refl tv cv ne
            (ap (λ l. map went (somes (map (λ x. at_addr x (some (ok talk))) l ++ []))) allows)
            (went-ok C uids (dialling v talk) a b hash law addr
              (choice_frame C (chooses uids b a))),
        one_attempt (listening w i a hash (choice_frame C (chooses uids a b))) hash _ _ config'
            (came (from_them i a hash (choice_frame C (chooses uids a b)))) i refl tw cw
            (λ e. ne (sym e))
            (ap
              (λ l.
                came (from_them i a hash (choice_frame C (chooses uids a b)))
                ∷ map went (somes (map (λ x. at_addr x (w.dial x)) l ++ [])))
              (allowed_nil config'.whitelisted_node_ips))
            (came-ok C uids (listening w i a hash (choice_frame C (chooses uids a b))) b a hash law
              i (choice_frame C (chooses uids a b))),
      )
