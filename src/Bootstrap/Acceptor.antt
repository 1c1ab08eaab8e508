-- ===== src/Bootstrap/Acceptor.antt =====
-- crust/src/net/peer/connect/bootstrap_acceptor.rs: the stream of accepted peers. The handshakes in
-- flight are a list of requests; which of them ends at a poll, and how, is a parameter.
pub mod Ends
use crust_futures.Base.{
  ℕ, ◌≡◌, ◌+◌, List, [], ◌∷◌, ◌++◌, Option, none, some, Bool, true, false, ◌&&◌, Result, ok, err,
  Async, ready, not_ready, if◌then◌else◌, length,
}

-- What the poll of the handshakes in flight can give, and what it leaves of them.
pub data Ended (R E P : Type 0) : Type 0 where
  nothing_ended : Ended R E P
  accepted : P → List R → Ended R E P
  failed : E → List R → Ended R E P

-- `FuturesUnordered`: a handshake that ends leaves the others.
pub record Unordered (R E P : Type 0) : Type 0 where
  pub poll : List R → Ended R E P
  pub poll_nil : poll [] ≡ nothing_ended
  pub accepted_one :
      (rs : List R) (p : P) (left : List R)
      → poll rs ≡ accepted p left
      → length rs ≡ length left + 1
  pub failed_one :
      (rs : List R) (e : E) (left : List R) → poll rs ≡ failed e left → length rs ≡ length left + 1

pub record BootstrapAcceptor (R : Type 0) : Type 0 where
  pub peer_rx : List R
  pub rx_closed : Bool
  pub handshaking : List R

module _ {R : Type 0} where
  pub new : BootstrapAcceptor R
  new = record { peer_rx = []; rx_closed = false; handshaking = [] }

  is_empty : List R → Bool
  is_empty [] = true
  is_empty (r ∷ rs) = false

module _ {R E P : Type 0} (handshakes : Unordered R E P) where
  abbrev pub Polled : Type 0
  Polled = Result E (Async (Option P))

  -- `handshaking.poll()`, whose `Ready(None)` becomes `NotReady`: what is left, and `ret`.
  of_ended : List R → Ended R E P → List R × Polled
  of_ended rs nothing_ended = (rs, ok not_ready)
  of_ended rs (accepted p left) = (left, ok (ready (some p)))
  of_ended rs (failed e left) = (left, err e)

  pub poll : BootstrapAcceptor R → BootstrapAcceptor R × Polled
  unfolding is_empty of_ended
  poll a =
      let rs = a.handshaking ++ a.peer_rx in
      let (left, ret) = of_ended rs (handshakes.poll rs) in
      (
        record { peer_rx = []; rx_closed = a.rx_closed; handshaking = left },
        if a.rx_closed && is_empty left then ok (ready none) else ret,
      )
