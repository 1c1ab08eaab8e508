-- ===== src/Peer/Receive.antt =====
-- crust/src/net/peer/peer.rs: what a poll makes of heartbeats, of content and of silence.
use crust_futures.Base.{
  ℕ, suc, ◌+◌, ◌≡◌, refl, ap, sym, ◌∙◌, inl, inr, List, [], ◌∷◌, ◌++◌, map, append-nil, some, leb,
  arith, ok, err, ready, not_ready, if◌then◌else◌, Bool-cases,
}
use mathlib.Core.Option
use crust_futures.Net.{Codec}
use crust_futures.Socket.Front.{Inner}
use crust_futures.Socket.Front.Lifecycle.{poll-serialise, start_send-inner}
use crust_futures.Peer.{
  PeerMessage, heartbeat, content, Peer, Timer, PeerError, Arrival, inactivity_timeout_ms,
  heartbeat_period_ms, send_heartbeats, on_polled, read, check_inactivity, poll,
}
use crust_futures.Peer.Heartbeat.{IsTimed, IsQuick, refreshed, send_heartbeats_ends}

module _ {B D : Type 0} (C : Codec (PeerMessage B) D) where
  -- A message that arrives as the frame that its sender made of it, handled at the time `t`.
  abbrev pub arrives : ℕ → PeerMessage B → Arrival D
  arrives t m = (t, ok (ready (some (C.serialise m))))

  abbrev pub heartbeats : List ℕ → List (Arrival D)
  heartbeats = map (λ t. arrives t heartbeat)

  abbrev pub ReadsBack : Type 0
  ReadsBack = (m : PeerMessage B) → C.deserialise (C.serialise m) ≡ ok m

-- The inactivity deadline after heartbeats at the given times.
abbrev pub deadline_after : List ℕ → ℕ → ℕ
deadline_after [] d = d
deadline_after (t ∷ ts) d = deadline_after ts (t + inactivity_timeout_ms)

is_due-eq-leb : (timer : Timer) (d t : ℕ) → timer.is_due d t ≡ leb d t
is_due-eq-leb timer d t = elim (Bool-cases (timer.is_due d t)) [
  | inl e ↦ rw e (ground (arith, (timer.is_due_iff d t).0 e))
  | inr e ↦ ground (arith, (timer.is_due_iff d t).1)
]

module _ {U B D : Type 0} (C : Codec (PeerMessage B) D) (timer : Timer) (law : ReadsBack C) where
  read_one :
      (t : ℕ) (m : PeerMessage B) (frames : List (Arrival D)) (p : Peer U D) {i : Inner}
      → p.socket.inner ≡ some i
      → read C timer (arrives C t m ∷ frames) p
        ≡ on_polled C timer t p (ok (ready (some m))) (read C timer frames)
  unfolding read
  read_one t m frames p e =
      ap (λ r. on_polled C timer t (record p { socket = r.0 }) r.1 (read C timer frames))
        (poll-serialise C m p.socket law e)

  -- Heartbeats only move the deadline, and the loop goes on behind them.
  read-heartbeats :
      (ts : List ℕ) (frames : List (Arrival D)) (p : Peer U D) {i : Inner}
      → p.socket.inner ≡ some i
      → read C timer (heartbeats C ts ++ frames) p
        ≡ read C timer frames (record p { recv_deadline = deadline_after ts p.recv_deadline })
  unfolding on_polled
  read-heartbeats [] frames p e = refl
  read-heartbeats (t ∷ ts) frames p e =
      read_one t heartbeat (heartbeats C ts ++ frames) p e
      ∙ read-heartbeats ts frames (record p { recv_deadline = t + inactivity_timeout_ms }) e

  refreshed-inner :
      (now : ℕ) (p : Peer U D) → (refreshed C timer now p).socket.inner ≡ p.socket.inner
  refreshed-inner now p = elim (Bool-cases (leb (p.last_send_time + heartbeat_period_ms) now)) [
    | inl e ↦ rw e (start_send-inner C 0 heartbeat p.socket)
    | inr e ↦ rw e refl
  ]

  refreshed-deadline :
      (now : ℕ) (p : Peer U D) → (refreshed C timer now p).recv_deadline ≡ p.recv_deadline
  refreshed-deadline now p = elim (Bool-cases (leb (p.last_send_time + heartbeat_period_ms) now)) [
    | inl e ↦ rw e refl
    | inr e ↦ rw e refl
  ]

  -- `poll` once its first loop has ended in `r`.
  poll_after :
      (fuel : ℕ) (clock : ℕ → ℕ) (now t : ℕ) (frames : List (Arrival D)) (p r : Peer U D)
      → send_heartbeats C timer fuel clock 0 now p ≡ some r
      → poll C timer fuel clock now frames t p
        ≡ some (check_inactivity C timer t (read C timer frames r))
  unfolding poll
  poll_after fuel clock now t frames p r e =
      ap (Option.map (λ q. check_inactivity C timer t (read C timer frames q))) e

  -- A poll that finds heartbeats only, or nothing, times out exactly when the inactivity timer has
  -- reached its deadline, which the last heartbeat has moved; otherwise the peer is not ready.
  pub poll-heartbeats :
      (fuel : ℕ) (clock : ℕ → ℕ) (now t : ℕ) (ts : List ℕ) (p : Peer U D) {i : Inner}
      → p.socket.inner ≡ some i
      → IsTimed now p
      → IsQuick clock now p
      → (q : Peer U D) × (poll C timer (suc (suc (suc fuel))) clock now (heartbeats C ts) t p
          ≡ some (
            q,
            if leb (deadline_after ts p.recv_deadline) t
                then err PeerError.inactivity_timeout
                else ok not_ready,
          ))
  unfolding read check_inactivity
  poll-heartbeats fuel clock now t ts p e timed quick =
      let (d, run, _, _) = send_heartbeats_ends C timer fuel clock now p timed quick in
      let r : Peer U D = record (refreshed C timer now p) { send_deadline = d } in
      let live = refreshed-inner now p ∙ e in
      let seen =
        ap (λ frames. read C timer frames r) (sym (append-nil (heartbeats C ts)))
        ∙ read-heartbeats ts [] r live in
      let due =
        is_due-eq-leb timer (deadline_after ts r.recv_deadline) t
        ∙ ap (λ x. leb (deadline_after ts x) t) (refreshed-deadline now p) in
      (
        record r { recv_deadline = deadline_after ts r.recv_deadline },
        poll_after (suc (suc (suc fuel))) clock now t (heartbeats C ts) p r run
            ∙ ap (λ x. some (check_inactivity C timer t x)) seen
            ∙ ap
                (λ x. some (
                  record r { recv_deadline = deadline_after ts r.recv_deadline },
                  if x then err PeerError.inactivity_timeout else ok not_ready,
                ))
                due,
      )

  -- A poll that finds content behind any number of heartbeats returns it, and gives the peer a
  -- whole period of inactivity from the time at which it was read.
  pub poll-content :
      (fuel : ℕ) (clock : ℕ → ℕ) (now u t : ℕ) (ts : List ℕ) (b : B) (frames : List (Arrival D))
      (p : Peer U D) {i : Inner}
      → p.socket.inner ≡ some i
      → IsTimed now p
      → IsQuick clock now p
      → (q : Peer U D) × (poll C timer
            (suc (suc (suc fuel)))
            clock
            now
            (heartbeats C ts ++ arrives C u (content b) ∷ frames)
            t
            p
          ≡ some (q, ok (ready (some b))))
        × (q.recv_deadline ≡ u + inactivity_timeout_ms)
  unfolding check_inactivity on_polled
  poll-content fuel clock now u t ts b frames p e timed quick =
      let (d, run, _, _) = send_heartbeats_ends C timer fuel clock now p timed quick in
      let r : Peer U D = record (refreshed C timer now p) { send_deadline = d } in
      let live = refreshed-inner now p ∙ e in
      let r' : Peer U D = record r { recv_deadline = deadline_after ts r.recv_deadline } in
      let rest = arrives C u (content b) ∷ frames in
      (
        record r { recv_deadline = u + inactivity_timeout_ms },
        poll_after (suc (suc (suc fuel))) clock now t (heartbeats C ts ++ rest) p r run
            ∙ ap (λ x. some (check_inactivity C timer t x))
                (read-heartbeats ts rest r live ∙ read_one u (content b) frames r' live),
        refl,
      )
