-- ===== src/Bootstrap/Acceptor/Ends.antt =====
-- crust/src/net/peer/connect/bootstrap_acceptor.rs: which handshakes reach the caller.
use crust_futures.Base.{
  ℕ, ◌+◌, ◌≡◌, ◌≢◌, refl, List, [], ◌++◌, none, some, true, false, ok, err, ready, not_ready,
  length, length-append, arith,
}
use crust_futures.Bootstrap.Acceptor.{
  Ended, nothing_ended, accepted, failed, Unordered, BootstrapAcceptor, is_empty, Polled, of_ended,
  poll,
}

module _ {R E P : Type 0} (handshakes : Unordered R E P) where
  -- How many handshakes a result of a poll tells of.
  abbrev pub told : Polled handshakes → ℕ
  told (ok (ready (some p))) = 1
  told (ok (ready none)) = 0
  told (ok not_ready) = 0
  told (err e) = 1

  abbrev pub IsNone : Polled handshakes → Type 0
  IsNone r = r ≡ ok (ready none)

  of_ended_told :
      (rs : List R) (x : Ended R E P)
      → handshakes.poll rs ≡ x
      → let (left, ret) = of_ended handshakes rs x in
        (length left + told ret ≡ length rs) × (IsNone ret → ⊥)
  unfolding of_ended
  of_ended_told rs nothing_ended e = (omega arith, λ q. cc)
  of_ended_told rs (accepted p left) e =
      (omega (arith, handshakes.accepted_one rs p left e), λ q. cc)
  of_ended_told rs (failed x left) e = (omega (arith, handshakes.failed_one rs x left e), λ q. cc)

  -- While new requests can come, the stream does not end, and no handshake is lost: those in flight
  -- after a poll and the one that the poll tells of are as many as were in flight or waiting before.
  pub poll_open :
      (a : BootstrapAcceptor R)
      → a.rx_closed ≡ false
      → let (a', r) = poll handshakes a in
        (length a'.handshaking + told r ≡ length a.handshaking + length a.peer_rx)
        × (r ≢ ok (ready none))
  unfolding poll
  poll_open a h =
      let rs = a.handshaking ++ a.peer_rx in
      let (count, more) = of_ended_told rs (handshakes.poll rs) refl in
      rw h (omega (arith, count, length-append a.handshaking a.peer_rx), more)

  -- Once no new requests can come, the last handshake is lost if it ends in an accepted peer: the
  -- poll in which it ends tells the end of the stream in its place.
  pub poll_last_lost :
      (a : BootstrapAcceptor R) (p : P)
      → a.rx_closed ≡ true
      → handshakes.poll (a.handshaking ++ a.peer_rx) ≡ accepted p []
      → ((poll handshakes a).1 ≡ ok (ready none))
        × (length (poll handshakes a).0.handshaking ≡ 0)
        × (length a.handshaking + length a.peer_rx ≡ 1)
  unfolding poll is_empty of_ended
  poll_last_lost a p h e =
      let rs = a.handshaking ++ a.peer_rx in
      (
        rw (h, e) refl,
        rw e refl,
        omega (arith, handshakes.accepted_one rs p [] e, length-append a.handshaking a.peer_rx),
      )
