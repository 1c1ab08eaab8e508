-- ===== src/Tests/Handshakes.antt =====
-- The two sides of the bootstrap handshake at small inputs.
use crust_futures.Base.{same, ℕ_discrete, ℕ, ◌≡◌, refl, List, [], ◌∷◌, none, some, ok, err}
use crust_futures.Addr.{node, ip_addr_is_global}
use crust_futures.Config.{network_name_hash, reload, same_settings, is_peer_whitelisted}
use crust_futures.Handshake.{
  BootstrapRequest, NameHash-discrete, HandshakeMessage, bootstrap_denied, bootstrap_granted,
  required, invalid_name_hash,
}
use crust_futures.Socket.Front
use crust_futures.Socket.Front.{Socket, Inner}
use crust_futures.Socket.Task.{send, shutdown}
use crust_futures.Peer.{Peer, from_handshaken_socket}
use crust_futures.Bootstrap.Accept.{bootstrap_accept, BootstrapAcceptError}
use crust_futures.Bootstrap.Accept.Decision.{Admits, bootstrap_accept_ok}
use crust_futures.Bootstrap.Accept.Refusal.{bootstrap_accept_refused}
use crust_futures.Bootstrap.Try.{try_peer, handshake_error, denied}
use crust_futures.Bootstrap.Both.{first_frame, granted_both, denied_both}
use crust_futures.Tests.Fixtures.{plain, acceptor, clock, addr_of}

-- The hash of a network without a name.
abbrev no_name : List ℕ
no_name =
    0 ∷ 0 ∷ 0 ∷ 0 ∷ 0 ∷ 0 ∷ 0 ∷ 0 ∷ 0 ∷ 0 ∷ 0 ∷ 0 ∷ 0 ∷ 0 ∷ 0 ∷ 0 ∷ 0 ∷ 0 ∷ 0 ∷ 0 ∷ 0 ∷ 0 ∷ 0 ∷ 0
    ∷ 0 ∷ 0 ∷ 0 ∷ 0 ∷ 0 ∷ 0 ∷ 0 ∷ 0 ∷ []

abbrev inner : Inner
inner = record { peer_addr = addr_of 2 }

abbrev fresh : Socket (HandshakeMessage ℕ)
fresh = record { inner = some inner; outbox = [] }

abbrev request : BootstrapRequest ℕ
request = record { uid = 2; name_hash = no_name; ext_reachability = required (addr_of 2 ∷ []) }

-- The same from another network.
abbrev stranger : BootstrapRequest ℕ
stranger = record request { name_hash = [] }

abbrev joined : Peer ℕ (HandshakeMessage ℕ)
joined = record {
  their_uid = 2;
  kind = node;
  socket = record { inner = some inner; outbox = send 0 (bootstrap_granted 1) ∷ [] };
  last_send_time = 1000;
  send_deadline = 21_000;
  recv_deadline = 121_000;
}

accepts_request : (bootstrap_accept plain acceptor request fresh).1.1 ≡ ok joined
unfolding bootstrap_accept same ℕ_discrete NameHash-discrete network_name_hash reload same_settings
    is_peer_whitelisted Front.peer_addr Front.start_send ip_addr_is_global from_handshaken_socket
accepts_request = refl

bootstrap_accept_ok_example : Admits plain acceptor request fresh joined
bootstrap_accept_ok_example =
    bootstrap_accept_ok plain acceptor request fresh {p = joined} accepts_request

refuses_stranger :
    (bootstrap_accept plain acceptor stranger fresh).1.1
    ≡ err (BootstrapAcceptError.invalid_name_hash [])
unfolding bootstrap_accept same ℕ_discrete NameHash-discrete network_name_hash reload same_settings
    is_peer_whitelisted Front.peer_addr Front.start_send ip_addr_is_global from_handshaken_socket
refuses_stranger = refl

bootstrap_accept_refused_example :
    ((bootstrap_accept plain acceptor stranger fresh).1.0.inner ≡ none)
    × ((bootstrap_accept plain acceptor stranger fresh).1.0.outbox
        ≡ send 0 (bootstrap_denied invalid_name_hash) ∷ shutdown ∷ [])
bootstrap_accept_refused_example =
    bootstrap_accept_refused plain acceptor stranger fresh
      {e = BootstrapAcceptError.invalid_name_hash []} refuses_stranger

law : (m : HandshakeMessage ℕ) → plain.deserialise (plain.serialise m) ≡ ok m
law m = refl

granted_both_example :
    (joined.their_uid ≡ request.uid)
    × (joined.kind ≡ node)
    × ((q : Peer ℕ (HandshakeMessage ℕ)) × (try_peer plain clock
            (addr_of 1)
            2
            no_name
            (required (addr_of 2 ∷ []))
            (ok tt)
            (first_frame joined.socket.outbox)
          ≡ ok q)
        × (q.their_uid ≡ 1)
        × (q.kind ≡ node))
granted_both_example =
    granted_both plain acceptor clock law (addr_of 1) inner request {p = joined} refl
      accepts_request

denied_both_example :
    try_peer plain clock
      (addr_of 1)
      2
      []
      (required (addr_of 2 ∷ []))
      (ok tt)
      (first_frame (bootstrap_accept plain acceptor stranger fresh).1.0.outbox)
    ≡ err (handshake_error (denied invalid_name_hash))
denied_both_example =
    denied_both plain acceptor clock law (addr_of 1) inner stranger
      {e = BootstrapAcceptError.invalid_name_hash []} {r = invalid_name_hash} refuses_stranger refl
