-- ===== src/Socket/Task/Poll.antt =====
-- crust/src/net/socket.rs: what one poll of `SocketTask` does, over any transport.
use crust_futures.Base.{
  All, Option, none, some, ℕ, ◌⊎◌, ◌≤◌, ◌<◌, ◌≡◌, refl, sym, ap, ◌∙◌, List, [], ◌∷◌, ◌++◌,
  append_assoc, append-nil, Bool, true, false, arith, Bool-cases, inl, inr, ◌==◌, if◌then◌else◌, ok,
  ready, Async,
}
use crust_futures.Socket.Queue.{
  Stamped, WriteQueue, push_back, get, payloads, Ascends, msg_drop_priority,
}
use crust_futures.Socket.Queue.Order.{push_back_lem, push_back-Ascends}
use crust_futures.Socket.Queue.Expiry.{get-expire, get-expire_high, expire-Ascends}
use crust_futures.Socket.Task.{
  Transport, TaskMsg, send, shutdown, Answer, accepted, refused, broken, SocketTask, Stop, finished,
  blocked, failed, receive, finish, flushed, conclude, pending, sending, poll,
}
use crust_futures.Socket.Front.{Inner, Socket}
use crust_futures.Socket.Front.Lifecycle.{IsSend, Sends, IsSound}
use crust_futures.Socket.Task.Drain.{Splits, drain-SplitsAll, drain-Ascends}

module _ {D : Type 0} where
  -- The messages of priority `p` in front of the first shutdown, stamped with the time `now`.
  abbrev pub sent_to : ℕ → ℕ → List (TaskMsg D) → List (Stamped D)
  sent_to p now [] = []
  sent_to p now (send r d ∷ ms) = if p == r then (now, d) ∷ sent_to p now ms else sent_to p now ms
  sent_to p now (shutdown ∷ ms) = []

module _ {E D : Type 0} (T : Transport E D) where
  receive-Ascends :
      (now : ℕ) (ms : List (TaskMsg D)) (rx : Bool) (q : WriteQueue D)
      → Ascends 0 q
      → Ascends 0 (receive T now ms rx q).2
  unfolding receive
  receive-Ascends now [] rx q a = a
  receive-Ascends now (send p d ∷ ms) rx q a =
      receive-Ascends now ms rx (push_back p (now, d) q)
        (push_back-Ascends 0 p (now, d) q (omega arith) a)
  receive-Ascends now (shutdown ∷ ms) rx q a = a

  after_push :
      (p r now : ℕ) (d : D) (ms : List (TaskMsg D)) (old got : List (Stamped D))
      → got ≡ (if p == r then old ++ (now, d) ∷ [] else old)
      → got ++ sent_to p now ms ≡ old ++ sent_to p now (send r d ∷ ms)
  after_push p r now d ms old got e = elim (Bool-cases (p == r)) [
    | inl h ↦ rw (h, e) (rw h (append_assoc old ((now, d) ∷ []) (sent_to p now ms)))
    | inr h ↦ rw (h, e) (rw h refl)
  ]

  get-receive :
      (p now : ℕ) (ms : List (TaskMsg D)) (rx : Bool) (q : WriteQueue D)
      → Ascends 0 q
      → get p (receive T now ms rx q).2 ≡ get p q ++ sent_to p now ms
  unfolding receive
  get-receive p now [] rx q a = sym (append-nil (get p q))
  get-receive p now (send r d ∷ ms) rx q a =
      let pushed = push_back_lem p r (now, d) q a in
      get-receive p now ms rx (push_back r (now, d) q) pushed.1
      ∙ after_push p r now d ms (get p q) _ pushed.0
  get-receive p now (shutdown ∷ ms) rx q a = sym (append-nil (get p q))

  -- With ascending keys, what the sending loop finds for a priority below `msg_drop_priority` is
  -- what was queued for it and then what the channel holds for it before a shutdown: none is lost.
  pub get-pending_high :
      (p now at : ℕ) (task : SocketTask T)
      → Ascends 0 task.write_queue
      → p < msg_drop_priority
      → get p (pending T now at task).2 ≡ get p task.write_queue ++ sent_to p now task.write_rx
  unfolding pending
  get-pending_high p now at task a h =
      let (rx, ms, q) = receive T now task.write_rx task.stream_rx task.write_queue in
      get-expire_high at p q (receive-Ascends now task.write_rx task.stream_rx task.write_queue a) h
      ∙ get-receive p now task.write_rx task.stream_rx task.write_queue a

  finish_keeps :
      (b : Bool) (task : SocketTask T)
      → ((finish T b task).0.write_queue ≡ task.write_queue)
        × ((finish T b task).0.accepted_frames ≡ task.accepted_frames)
  unfolding finish
  finish_keeps true task = (refl, refl)
  finish_keeps false task = (refl, refl)

  flushed_keeps :
      (a : Answer E) (sent : Bool) (task : SocketTask T)
      → ((flushed T a sent task).0.write_queue ≡ task.write_queue)
        × ((flushed T a sent task).0.accepted_frames ≡ task.accepted_frames)
  unfolding flushed
  flushed_keeps accepted true task = finish_keeps task.stream_rx task
  flushed_keeps accepted false task = (refl, refl)
  flushed_keeps refused sent task = (refl, refl)
  flushed_keeps (broken e) sent task = (refl, refl)

  conclude_keeps :
      (stop : Stop T) (task : SocketTask T)
      → ((conclude T stop task).0.write_queue ≡ task.write_queue)
        × ((conclude T stop task).0.accepted_frames ≡ task.accepted_frames)
  unfolding conclude
  conclude_keeps finished task =
      let (s', a) = T.poll_complete task.sink in flushed_keeps a true (record task { sink = s' })
  conclude_keeps blocked task =
      let (s', a) = T.poll_complete task.sink in flushed_keeps a false (record task { sink = s' })
  conclude_keeps (failed x) task = (refl, refl)

  conclude_ok :
      (stop : Stop T) (task : SocketTask T) {r : Async (Unit {0})} (frames left all : List D)
      → (conclude T stop task).1 ≡ ok r
      → Splits T stop frames left all
      → frames ++ left ≡ all
  unfolding conclude
  conclude_ok finished task frames left all e (p, n) = rw n (append-nil frames ∙ p)
  conclude_ok blocked task frames left all e (p, n) = p
  conclude_ok (failed x) task frames left all e h = cc

  finish_ready : (b : Bool) (task : SocketTask T) → (finish T b task).1 ≡ ok (ready tt) → b ≡ true
  unfolding finish
  finish_ready true task e = refl
  finish_ready false task e = cc

  flushed_ready :
      (a : Answer E) (sent : Bool) (task : SocketTask T)
      → (flushed T a sent task).1 ≡ ok (ready tt)
      → (sent ≡ true) × (task.stream_rx ≡ true)
  unfolding flushed
  flushed_ready accepted true task e = (refl, finish_ready task.stream_rx task e)
  flushed_ready accepted false task e = cc
  flushed_ready refused sent task e = cc
  flushed_ready (broken x) sent task e = cc

  conclude_ready :
      (stop : Stop T) (task : SocketTask T) (frames left all : List D)
      → (conclude T stop task).1 ≡ ok (ready tt)
      → Splits T stop frames left all
      → (task.stream_rx ≡ true) × (left ≡ []) × (frames ≡ all)
  unfolding conclude
  conclude_ready finished task frames left all e (p, n) =
      let (s', a) = T.poll_complete task.sink in
      ((flushed_ready a true (record task { sink = s' }) e).1, n, p)
  conclude_ready blocked task frames left all e h =
      let (s', a) = T.poll_complete task.sink in
      let no_end : false ≡ true = (flushed_ready a false (record task { sink = s' }) e).0 in cc
  conclude_ready (failed x) task frames left all e h = cc

  -- A poll keeps the keys of the write queue in ascending order.
  pub poll-Ascends :
      (now at : ℕ) (task : SocketTask T)
      → Ascends 0 task.write_queue
      → Ascends 0 (poll T now at task).0.write_queue
  unfolding poll sending pending
  poll-Ascends now at task a =
      let (d, task') = sending T now at task in
      rw ((conclude_keeps d.stop task').0) (
        drain-Ascends T 0 task.sink _ (
          expire-Ascends at _
            (receive-Ascends now task.write_rx task.stream_rx task.write_queue a)))

  delivered :
      (now at : ℕ) (task : SocketTask T) {r : Async (Unit {0})}
      → (poll T now at task).1 ≡ ok r
      → (poll T now at task).0.accepted_frames ++ payloads (poll T now at task).0.write_queue
        ≡ task.accepted_frames ++ payloads (pending T now at task).2
  unfolding poll sending
  delivered now at task e =
      let (d, task') = sending T now at task in
      let q = (pending T now at task).2 in
      let kept = conclude_keeps d.stop task' in
      rw (kept.0, kept.1)
        (append_assoc task.accepted_frames d.frames (payloads d.left)
          ∙ ap (λ l. task.accepted_frames ++ l)
              (conclude_ok d.stop task' d.frames (payloads d.left) (payloads q) e
                (drain-SplitsAll T task.sink q)))

  pending-Ascends :
      (now at : ℕ) (task : SocketTask T)
      → Ascends 0 task.write_queue
      → Ascends 0 (pending T now at task).2
  unfolding pending
  pending-Ascends now at task a =
      expire-Ascends at _ (receive-Ascends now task.write_rx task.stream_rx task.write_queue a)

  get-pending :
      (p now at : ℕ) (task : SocketTask T)
      → Ascends 0 task.write_queue
      → (get p (pending T now at task).2 ≡ get p task.write_queue ++ sent_to p now task.write_rx)
        ⊎ ((msg_drop_priority ≤ p) × (get p (pending T now at task).2 ≡ []))
  unfolding pending
  get-pending p now at task a =
      let (rx, ms, q) = receive T now task.write_rx task.stream_rx task.write_queue in
      let got = get-receive p now task.write_rx task.stream_rx task.write_queue a in
      elim (get-expire at p q
        (receive-Ascends now task.write_rx task.stream_rx task.write_queue a)) [
          | inl h ↦ inl (h ∙ got)
          | inr h ↦ inr h
        ]

  -- With ascending keys in the write queue, a poll that does not fail hands to the transport a
  -- leading part of the pending messages, in ascending order of the priorities, and keeps the rest
  -- in that order. Those of a priority `p` are what was queued for `p`, in its order, and then what
  -- the channel holds for `p` before a shutdown, in the order in which it was sent; or `p` is a
  -- priority that may be dropped, and there are none.
  pub poll_in_order :
      (p now at : ℕ) (task : SocketTask T) {r : Async (Unit {0})}
      → Ascends 0 task.write_queue
      → (poll T now at task).1 ≡ ok r
      → ((poll T now at task).0.accepted_frames ++ payloads (poll T now at task).0.write_queue
          ≡ task.accepted_frames ++ payloads (pending T now at task).2)
        × Ascends 0 (pending T now at task).2
        × Ascends 0 (poll T now at task).0.write_queue
        × ((get p (pending T now at task).2 ≡ get p task.write_queue ++ sent_to p now task.write_rx)
            ⊎ ((msg_drop_priority ≤ p) × (get p (pending T now at task).2 ≡ [])))
  poll_in_order p now at task a e = (
    delivered now at task e,
    pending-Ascends now at task a,
    poll-Ascends now at task a,
    get-pending p now at task a,
  )

  -- The task ends with success only when a shutdown was asked for, with nothing left in its queue
  -- and every pending message accepted by the transport.
  pub poll_ready :
      (now at : ℕ) (task : SocketTask T)
      → (poll T now at task).1 ≡ ok (ready tt)
      → ((pending T now at task).0 ≡ true)
        × (payloads (poll T now at task).0.write_queue ≡ [])
        × ((poll T now at task).0.accepted_frames
            ≡ task.accepted_frames ++ payloads (pending T now at task).2)
  unfolding poll sending
  poll_ready now at task e =
      let (d, task') = sending T now at task in
      let q = (pending T now at task).2 in
      let kept = conclude_keeps d.stop task' in
      let (rx, n, p) =
        conclude_ready d.stop task' d.frames (payloads d.left) (payloads q) e
          (drain-SplitsAll T task.sink q) in
      rw (kept.0, kept.1) (rx, n, ap (λ l. task.accepted_frames ++ l) p)

  receive-sends :
      (now : ℕ) (ms : List (TaskMsg D)) (q : WriteQueue D)
      → All IsSend ms
      → ((receive T now ms false q).1 ≡ []) × ((receive T now ms false q).0 ≡ false)
  unfolding receive
  receive-sends now [] q a = (refl, refl)
  receive-sends now (send p d ∷ ms) q a = receive-sends now ms (push_back p (now, d) q) a.1
  receive-sends now (shutdown ∷ ms) q a = absurd a.0

  receive-shutdown :
      (now : ℕ) (ms : List (TaskMsg D)) (q : WriteQueue D)
      → All IsSend ms
      → ((receive T now (ms ++ shutdown ∷ []) false q).1 ≡ [])
        × ((receive T now (ms ++ shutdown ∷ []) false q).0 ≡ true)
  unfolding receive
  receive-shutdown now [] q a = (refl, refl)
  receive-shutdown now (send p d ∷ ms) q a = receive-shutdown now ms (push_back p (now, d) q) a.1
  receive-shutdown now (shutdown ∷ ms) q a = absurd a.0

  abbrev pub is_none : Option Inner → Bool
  is_none none = true
  is_none (some i) = false

  receive-Sends :
      (now : ℕ) (q : WriteQueue D) (i : Option Inner) (ms : List (TaskMsg D))
      → Sends i ms
      → ((receive T now ms false q).1 ≡ []) × ((receive T now ms false q).0 ≡ is_none i)
  receive-Sends now q none ms (sends, e, a) = rw e (receive-shutdown now sends q a)
  receive-Sends now q (some i) ms a = receive-sends now ms q a

  -- The task reads the whole channel of a sound socket in one poll: a shutdown stands last, so that
  -- nothing is left behind it, and it is seen exactly when the socket is dead.
  pub receive-IsSound :
      (now : ℕ) (q : WriteQueue D) (s : Socket D)
      → IsSound s
      → ((receive T now s.outbox false q).1 ≡ [])
        × ((receive T now s.outbox false q).0 ≡ is_none s.inner)
  receive-IsSound now q s h = receive-Sends now q s.inner s.outbox h
