-- ===== src/Listener.antt =====
-- crust/src/net/listener.rs: the set of listeners, the addresses that it advertises, and the
-- stream of incoming connections. Channels are lists; a listening socket is what its `incoming`
-- gives next.
pub mod Advertised
use crust_futures.Base.{
  ℕ, zero, suc, ◌≡◌, List, [], ◌∷◌, ◌++◌, Option, none, some, Bool, true, false, not, Result, ok,
  err, Async, ready, not_ready, if◌then◌else◌, contains, keep, length, ltb,
}
use crust_futures.Addr.{SocketAddr, SocketAddr-discrete}
use crust_futures.Net.{IoError}

-- An observer: whether its receiver is still there, and the address sets sent to it.
pub record Observer : Type 0 where
  pub is_alive : Bool
  pub received : List (List SocketAddr)

pub record Addresses : Type 0 where
  pub current : List SocketAddr
  pub observers : List Observer

-- What is waiting on a listening socket: connections with their peers' addresses, then an error,
-- the end, or nothing yet.
pub data Incoming : Type 0 where
  connection : SocketAddr → Incoming → Incoming
  broken : IoError → Incoming → Incoming
  idle ended : Incoming

-- An entry of `SocketIncoming::listeners`: whether its `Listener` still lives, the socket, and the
-- addresses that it brought.
pub record Entry : Type 0 where
  pub is_held : Bool
  pub incoming : Incoming
  pub addrs : List SocketAddr

-- `HashSet::extend`.
pub extend : List SocketAddr → List SocketAddr → List SocketAddr
extend current [] = current
extend current (x ∷ xs) =
    extend (if contains SocketAddr-discrete current x then current else current ++ x ∷ []) xs

-- `observers.retain(|observer| observer.unbounded_send(current.clone()).is_ok())`.
unfoldable pub broadcast : List SocketAddr → List Observer → List Observer
broadcast current [] = []
broadcast current (o ∷ os) =
    if o.is_alive
    then record o { received = o.received ++ current ∷ [] } ∷ broadcast current os
    else broadcast current os

unfoldable pub publish : List SocketAddr → List Observer → Addresses
unfolding broadcast
publish current observers = record { current = current; observers = broadcast current observers }

-- `Listeners::listener`, once the mapped socket and its addresses are there: the new addresses are
-- published, and the entry is sent to the incoming side.
unfoldable pub listener : List SocketAddr → Incoming → Addresses → Addresses × Entry
unfolding extend publish
listener addrs incoming a = (
  publish (extend a.current addrs) a.observers,
  record { is_held = true; incoming = incoming; addrs = addrs },
)

-- `Listeners::addresses` adds an observer.
unfoldable pub addresses : Addresses → List SocketAddr × Addresses
addresses a = (
  a.current,
  record a { observers = a.observers ++ record { is_alive = true; received = [] } ∷ [] },
)

-- A listener whose handle is gone: its addresses are taken off and the rest is published.
unfoldable pub retire : List SocketAddr → Addresses → Addresses
unfolding publish
retire addrs a =
    publish (keep (λ x. not (contains SocketAddr-discrete addrs x)) a.current) a.observers

pub record SocketIncoming : Type 0 where
  pub rx : List Entry
  pub rx_closed : Bool
  pub listeners : List Entry
  pub addresses : Addresses

abbrev pub Polled : Type 0
Polled = Result IoError (Async (Option SocketAddr))

-- `Vec::swap_remove(i)`: the last element takes the place of the removed one.
init : List Entry → List Entry
init [] = []
init (x ∷ []) = []
init (x ∷ y ∷ ys) = x ∷ init (y ∷ ys)

last : Entry → List Entry → Entry
last x [] = x
last x (y ∷ ys) = last y ys

-- The tail of the list from the removed element on, given what stood behind it.
swap_in : List Entry → List Entry
unfolding init last
swap_in [] = []
swap_in (x ∷ xs) = last x xs ∷ init (x ∷ xs)

pub record Walk : Type 0 where
  pub listeners : List Entry
  pub addresses : Addresses
  pub result : Polled

-- What a held socket gives at a poll: what `poll` returns if it returns, and the socket afterwards.
accept : Incoming → Option Polled × Incoming
accept (connection addr rest) = (some (ok (ready (some addr))), rest)
accept (broken e rest) = (some (err e), rest)
accept idle = (none, idle)
accept ended = (none, ended)

on_accepted : Option Polled → (Polled → Option Walk) → Option Walk → Option Walk
on_accepted (some r) stopped kept = stopped r
on_accepted none stopped kept = kept

-- `while i < self.listeners.len()`: `front` holds the entries before `i`, and the third argument
-- those from `i` on. The fuel bounds the turns.
walk : ℕ → List Entry → List Entry → Addresses → Option Walk
unfolding swap_in accept retire on_accepted
walk fuel front [] a = some (record { listeners = front; addresses = a; result = ok not_ready })
walk zero front (e ∷ es) a = none
walk (suc fuel) front (e ∷ es) a =
    let gone = walk fuel front (swap_in es) (retire e.addrs a) in
    let kept = walk fuel (front ++ e ∷ []) es a in
    let (returned, incoming) = accept e.incoming in
    let stopped = λ (r : Polled). some (record {
      listeners = front ++ record e { incoming = incoming } ∷ es;
      addresses = a;
      result = r;
    }) in
    if e.is_held then on_accepted returned stopped kept else gone

-- `SocketIncoming::poll`: it takes in the new listeners first, and ends once their channel is
-- closed, whatever the listeners that it has.
pub poll : ℕ → SocketIncoming → Option Walk
unfolding walk
poll fuel s =
    if s.rx_closed
    then some (record {
      listeners = s.listeners ++ s.rx;
      addresses = s.addresses;
      result = ok (ready none);
    })
    else walk fuel [] (s.listeners ++ s.rx) s.addresses
