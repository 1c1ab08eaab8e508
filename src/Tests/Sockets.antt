-- ===== src/Tests/Sockets.antt =====
-- The write queue, the socket's task and its owner's half, at small inputs.
use crust_futures.Base.{
  ℕ, ◌≡◌, ◌⊎◌, ◌≤◌, refl, ◌++◌, List, [], ◌∷◌, some, true, false, ok, err, not_ready, arith, All,
  length,
}
use crust_futures.Net.{timed_out}
use crust_futures.Socket.Queue.{
  WriteQueue, push_back, remove, get, expire, payloads, Ascends, dropped_msgs, expired_keys,
  msg_drop_priority,
}
use crust_futures.Socket.Queue.Expiry.{IsCurrent, IsDroppable, expire-split}
use crust_futures.Socket.Task.{send, shutdown, SocketTask, pending, poll}
use crust_futures.Socket.Task.Poll.{sent_to, get-pending_high, poll_in_order, poll_ready}
use crust_futures.Socket.Front.{Socket}
use crust_futures.Socket.Front.Lifecycle.{
  Use, polls, sends, drops, IsSound, apply_all, apply_all-IsSound,
}
use crust_futures.Tests.Fixtures.{plain, buffer, addr_of}

-- A fresh message of priority 0, and old ones of priorities 1 and 3.
abbrev queue : WriteQueue ℕ
queue = (0, (90_000, 10) ∷ []) ∷ (1, (100, 11) ∷ (95_000, 12) ∷ []) ∷ (3, (100, 13) ∷ []) ∷ []

ordered : Ascends 0 queue
ordered = (omega arith, (omega arith, (omega arith, tt)))

abbrev task : SocketTask buffer
task = record {
  stream_rx = false;
  write_queue = queue;
  write_rx = send 1 14 ∷ send 0 15 ∷ shutdown ∷ [];
  sink = 10;
  accepted_frames = 9 ∷ [];
}

abbrev crowded : SocketTask buffer
crowded = record task { sink = 2 }

abbrev socket : Socket ℕ
socket = record { inner = some (record { peer_addr = addr_of 1 }); outbox = send 2 7 ∷ [] }

poll_in_order_example :
    ((poll buffer 100_000 100_001 crowded).0.accepted_frames
        ++ payloads (poll buffer 100_000 100_001 crowded).0.write_queue
      ≡ 9 ∷ payloads (pending buffer 100_000 100_001 crowded).2)
    × Ascends 0 (pending buffer 100_000 100_001 crowded).2
    × Ascends 0 (poll buffer 100_000 100_001 crowded).0.write_queue
    × ((get 1 (pending buffer 100_000 100_001 crowded).2
          ≡ get 1 queue ++ sent_to 1 100_000 (send 1 14 ∷ send 0 15 ∷ shutdown ∷ []))
        ⊎ ((msg_drop_priority ≤ 1) × (get 1 (pending buffer 100_000 100_001 crowded).2 ≡ [])))
unfolding poll expire push_back remove
poll_in_order_example = poll_in_order buffer 1 100_000 100_001 crowded {r = not_ready} ordered refl

poll_ready_example :
    ((pending buffer 100_000 100_001 task).0 ≡ true)
    × (payloads (poll buffer 100_000 100_001 task).0.write_queue ≡ [])
    × ((poll buffer 100_000 100_001 task).0.accepted_frames
        ≡ 9 ∷ payloads (pending buffer 100_000 100_001 task).2)
unfolding poll expire push_back remove
poll_ready_example = poll_ready buffer 100_000 100_001 task refl

get-pending_high_example :
    get 0 (pending buffer 100_000 100_001 task).2
    ≡ get 0 queue ++ sent_to 0 100_000 (send 1 14 ∷ send 0 15 ∷ shutdown ∷ [])
get-pending_high_example = get-pending_high buffer 0 100_000 100_001 task ordered (omega arith)

expire-split_example :
    All (IsCurrent 100_000) (expire 100_000 queue)
    × ((dropped : WriteQueue ℕ) × (queue ≡ expire 100_000 queue ++ dropped)
        × IsDroppable 100_000 dropped
        × (dropped_msgs (expired_keys 100_000 queue) queue ≡ length (payloads dropped)))
expire-split_example = expire-split 100_000 queue ordered

abbrev uses : List (Use ℕ ℕ)
uses = sends 1 8 ∷ polls (err timed_out) ∷ sends 1 9 ∷ drops ∷ []

apply_all-IsSound_example : IsSound (apply_all plain uses socket)
apply_all-IsSound_example = apply_all-IsSound plain uses socket (tt, tt)

law : (m : ℕ) → plain.deserialise (plain.serialise m) ≡ ok m
law m = refl
