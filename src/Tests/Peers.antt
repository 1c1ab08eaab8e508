-- ===== src/Tests/Peers.antt =====
-- A peer's polls at small inputs.
use crust_futures.Base.{ℕ, ◌≤◌, ◌≡◌, refl, ◌++◌, inl, [], ◌∷◌, none, some, ok, ready, arith}
use crust_futures.Addr.{node}
use crust_futures.Peer.{PeerMessage, content, Peer, send_heartbeats, poll}
use crust_futures.Peer.Heartbeat.{
  IsTimed, IsQuick, EndsIn, refreshed, send_heartbeats_ends, send_heartbeats_stuck,
}
use crust_futures.Peer.Receive.{arrives, heartbeats, poll-content}
use crust_futures.Tests.Fixtures.{plain, timer, addr_of}

-- A peer whose last message was sent at the time 1000.
abbrev peer : Peer ℕ (PeerMessage ℕ)
peer = record {
  their_uid = 7;
  kind = node;
  socket = record { inner = some (record { peer_addr = addr_of 1 }); outbox = [] };
  last_send_time = 1000;
  send_deadline = 21_000;
  recv_deadline = 121_000;
}

-- The clock stands still at the time 30000: a heartbeat is due.
abbrev clock : ℕ → ℕ
clock k = 30_000

peer-IsTimed : IsTimed 30_000 peer
peer-IsTimed = record { sent_before = omega arith; due_in_time = omega arith }

peer-IsQuick : IsQuick clock 30_000 peer
peer-IsQuick = record {
  later = λ k. omega arith;
  prompt = λ k. omega arith;
  outside = inl (omega arith);
}

send_heartbeats_ends_example :
    EndsIn plain timer 3 clock 30_000 peer (refreshed plain timer 30_000 peer)
send_heartbeats_ends_example =
    send_heartbeats_ends plain timer 0 clock 30_000 peer peer-IsTimed peer-IsQuick

-- The clock has passed the deadline 21000, and the loop's own time has not.
late : ℕ → 21_000 ≤ 21_000
late j = omega arith

send_heartbeats_stuck_example : send_heartbeats plain timer 1000 (λ k. 21_000) 0 20_999 peer ≡ none
send_heartbeats_stuck_example =
    send_heartbeats_stuck plain timer 1000 (λ k. 21_000) 0 20_999 peer (omega arith) (omega arith)
      late (omega arith)

law : (m : PeerMessage ℕ) → plain.deserialise (plain.serialise m) ≡ ok m
law m = refl

poll-content_example :
    (q : Peer ℕ (PeerMessage ℕ)) × (poll plain timer 3 clock 30_000
        (heartbeats plain (30_001 ∷ []) ++ arrives plain 30_002 (content 5) ∷ [])
        30_003
        peer
      ≡ some (q, ok (ready (some 5))))
    × (q.recv_deadline ≡ 150_002)
poll-content_example =
    poll-content plain timer law 0 clock 30_000 30_002 30_003 (30_001 ∷ []) 5 [] peer
      {i = record { peer_addr = addr_of 1 }} refl peer-IsTimed peer-IsQuick
