-- ===== src/Peer/Heartbeat.antt =====
-- crust/src/net/peer/peer.rs: the loop that sends heartbeats.
use crust_futures.Base.{
  ℕ, zero, suc, ◌+◌, ◌≤◌, ◌<◌, ◌≡◌, refl, ap, ◌∙◌, ◌⊎◌, inl, inr, none, some, true, false, leb,
  arith, if◌then◌else◌, Bool-cases, dec_le,
}
use crust_futures.Net.{Codec}
use crust_futures.Socket.Front
use crust_futures.Peer.{
  PeerMessage, heartbeat, Peer, Timer, heartbeat_period_ms, beat, send_heartbeats,
}

-- What holds of the sending timer between two polls, at the time `now`.
pub record IsTimed {U D : Type 0} (now : ℕ) (p : Peer U D) : Type 0 where
  pub sent_before : p.last_send_time ≤ now
  pub due_in_time : p.send_deadline ≤ p.last_send_time + heartbeat_period_ms

module _ (timer : Timer) where
  not_due : (d t : ℕ) → t < d → timer.is_due d t ≡ false
  not_due d t h = elim (Bool-cases (timer.is_due d t)) [
    | inl e ↦ absurd (omega (arith, (timer.is_due_iff d t).0 e))
    | inr e ↦ e
  ]

  is_due : (d t : ℕ) → d ≤ t → timer.is_due d t ≡ true
  is_due d t h = (timer.is_due_iff d t).1 h

-- The readings of the clock in one run of the loop: they start at `now`, stay within one period
-- of it, and none passes the next deadline if `now` has not.
pub record IsQuick {U D : Type 0} (clock : ℕ → ℕ) (now : ℕ) (p : Peer U D) : Type 0 where
  pub later : (k : ℕ) → now ≤ clock k
  pub prompt : (k : ℕ) → clock k < now + heartbeat_period_ms
  pub outside :
      (p.last_send_time + heartbeat_period_ms ≤ now)
      ⊎ ((k : ℕ) → clock k < p.last_send_time + heartbeat_period_ms)

module _ {U B D : Type 0} (C : Codec (PeerMessage B) D) (timer : Timer) where
  stops :
      (fuel : ℕ) (clock : ℕ → ℕ) (k now : ℕ) (p : Peer U D)
      → clock k < p.send_deadline
      → send_heartbeats C timer (suc fuel) clock k now p ≡ some p
  unfolding send_heartbeats
  stops fuel clock k now p h = rw (not_due timer p.send_deadline (clock k) h)

  turns :
      (fuel : ℕ) (clock : ℕ → ℕ) (k now : ℕ) (p : Peer U D)
      → p.send_deadline ≤ clock k
      → send_heartbeats C timer (suc fuel) clock k now p
        ≡ send_heartbeats C timer fuel clock (k + 1) now (beat C now p)
  unfolding send_heartbeats
  turns fuel clock k now p h = rw (is_due timer p.send_deadline (clock k) h)

  -- The timer set to a period after the last message.
  abbrev pushed : Peer U D → Peer U D
  pushed p = record p { send_deadline = p.last_send_time + heartbeat_period_ms }

  -- A heartbeat sent at the time `now`.
  abbrev pub beaten : ℕ → Peer U D → Peer U D
  beaten now p = record p {
    last_send_time = now;
    socket = (Front.start_send C 0 heartbeat p.socket).0;
  }

  beat_early :
      (now : ℕ) (p : Peer U D)
      → now < p.last_send_time + heartbeat_period_ms
      → beat C now p ≡ pushed p
  unfolding beat
  beat_early now p h = ground arith

  beat_late :
      (now : ℕ) (p : Peer U D)
      → p.last_send_time + heartbeat_period_ms ≤ now
      → beat C now p ≡ beaten now (pushed p)
  unfolding beat
  beat_late now p h = ground arith

  -- While the clock has passed the next deadline and `now`, which the loop reads once, has not, a
  -- due timer keeps the loop turning: no amount of fuel ends it.
  pub send_heartbeats_stuck :
      (fuel : ℕ) (clock : ℕ → ℕ) (k now : ℕ) (p : Peer U D)
      → p.last_send_time ≤ now
      → now < p.last_send_time + heartbeat_period_ms
      → ((j : ℕ) → p.last_send_time + heartbeat_period_ms ≤ clock j)
      → p.send_deadline ≤ p.last_send_time + heartbeat_period_ms
      → send_heartbeats C timer fuel clock k now p ≡ none
  send_heartbeats_stuck zero clock k now p a b c d = unfold send_heartbeats in refl
  send_heartbeats_stuck (suc fuel) clock k now p a b c d =
      let early : send_heartbeats C timer fuel clock (k + 1) now (pushed p) ≡ none =
        send_heartbeats_stuck fuel clock (k + 1) now (pushed p) a b c (omega arith) in
      turns fuel clock k now p (omega (arith, c k))
      ∙ ap (send_heartbeats C timer fuel clock (k + 1) now) (beat_early now p b)
      ∙ early

  -- The peer after the loop, but for the deadline of its sending timer.
  abbrev pub refreshed : ℕ → Peer U D → Peer U D
  refreshed now p = if leb (p.last_send_time + heartbeat_period_ms) now then beaten now p else p

  -- The loop ends in `r`, but for the deadline, which is in time again.
  abbrev pub EndsIn : ℕ → (ℕ → ℕ) → ℕ → Peer U D → Peer U D → Type 0
  EndsIn fuel clock now p r =
      (d : ℕ) × (send_heartbeats C timer fuel clock 0 now p ≡ some (record r { send_deadline = d }))
      × IsTimed now (record r { send_deadline = d })
      × (now < r.last_send_time + heartbeat_period_ms)

  refreshed_early :
      (now : ℕ) (p : Peer U D) → now < p.last_send_time + heartbeat_period_ms → refreshed now p ≡ p
  refreshed_early now p h = ground arith

  refreshed_late :
      (now : ℕ) (p : Peer U D)
      → p.last_send_time + heartbeat_period_ms ≤ now
      → refreshed now p ≡ beaten now p
  refreshed_late now p h = ground arith

  ends_late :
      (fuel : ℕ) (clock : ℕ → ℕ) (now : ℕ) (p : Peer U D)
      → IsTimed now p
      → IsQuick clock now p
      → p.last_send_time + heartbeat_period_ms ≤ now
      → EndsIn (suc (suc (suc fuel))) clock now p (beaten now p)
  ends_late fuel clock now p t q late =
      let p1 = beaten now (pushed p) in
      let p2 = pushed p1 in
      (
        now + heartbeat_period_ms,
        turns (suc (suc fuel)) clock 0 now p (omega (arith, q.later 0, t.due_in_time))
            ∙ ap (send_heartbeats C timer (suc (suc fuel)) clock 1 now) (beat_late now p late)
            ∙ turns (suc fuel) clock 1 now p1 (omega (arith, q.later 1))
            ∙ ap (send_heartbeats C timer (suc fuel) clock 2 now) (beat_early now p1 (omega arith))
            ∙ stops fuel clock 2 now p2 (q.prompt 2),
        record { sent_before = omega arith; due_in_time = omega arith },
        omega arith,
      )

  ends_early :
      (fuel : ℕ) (clock : ℕ → ℕ) (now : ℕ) (p : Peer U D)
      → IsTimed now p
      → p.send_deadline ≤ clock 0
      → ((k : ℕ) → clock k < p.last_send_time + heartbeat_period_ms)
      → now ≤ clock 0
      → EndsIn (suc (suc (suc fuel))) clock now p p
  ends_early fuel clock now p t due out h = (
    p.last_send_time + heartbeat_period_ms,
    turns (suc (suc fuel)) clock 0 now p due
        ∙ ap (send_heartbeats C timer (suc (suc fuel)) clock 1 now)
            (beat_early now p (omega (arith, out 0)))
        ∙ stops (suc fuel) clock 1 now (pushed p) (out 1),
    record { sent_before = t.sent_before; due_in_time = omega arith },
    omega (arith, out 0),
  )

  -- With quick readings of the clock three turns are enough. A heartbeat is sent exactly when
  -- nothing was sent for a whole period, and nothing else changes but the timer; afterwards less
  -- than a period has passed since the last message, and the timer is not late.
  pub send_heartbeats_ends :
      (fuel : ℕ) (clock : ℕ → ℕ) (now : ℕ) (p : Peer U D)
      → IsTimed now p
      → IsQuick clock now p
      → EndsIn (suc (suc (suc fuel))) clock now p (refreshed now p)
  send_heartbeats_ends fuel clock now p t q = by_case q.outside (dec_le p.send_deadline (clock 0))
    where
      ends : Type 0
      ends = EndsIn (suc (suc (suc fuel))) clock now p (refreshed now p)

      early :
          now < p.last_send_time + heartbeat_period_ms
          → EndsIn (suc (suc (suc fuel))) clock now p p
          → ends
      early h e = rw (refreshed_early now p h) e

      by_case :
          (p.last_send_time + heartbeat_period_ms ≤ now)
            ⊎ ((k : ℕ) → clock k < p.last_send_time + heartbeat_period_ms)
          → Dec (p.send_deadline ≤ clock 0)
          → ends
      by_case (inl late) d = rw (refreshed_late now p late) (ends_late fuel clock now p t q late)
      by_case (inr out) (yes due) =
          early (omega (arith, out 0, q.later 0))
            (ends_early fuel clock now p t due out (q.later 0))
      by_case (inr out) (no not_due) = early (omega (arith, out 0, q.later 0)) (
        p.send_deadline,
        stops (suc (suc fuel)) clock 0 now p (omega arith),
        record { sent_before = t.sent_before; due_in_time = t.due_in_time },
        omega (arith, out 0, q.later 0),
      )
