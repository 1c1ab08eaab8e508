-- ===== src/HolePunch.antt =====
-- crust/src/net/nat/hole_punch.rs: connecting to a peer's addresses from the socket that it connects
-- to. What the network does is a parameter; `T` is what happens on a connection.
pub mod Agree
use crust_futures.Base.{
  ℕ, ◌≡◌, refl, List, [], ◌∷◌, ◌++◌, map, Option, none, some, Result, ok, err, ◌>>=◌,
}
use crust_futures.Addr.{SocketAddr}
use crust_futures.Net.{IoError}

-- A connection that is made in time, or that fails to be; `none` if neither.
abbrev pub Attempted : Type 0 → Type 0
Attempted A = Option (Result IoError A)

pub record Puncher (T : Type 0) : Type 0 where
  pub local_addr : Result IoError SocketAddr
  -- A further socket on our address, for a remote address.
  pub new_reusably_bound : SocketAddr → Result IoError (Unit {0})
  pub listen : Result IoError (Unit {0})
  pub connect_stream : SocketAddr → Attempted T
  pub incoming : List (Attempted (SocketAddr × T))

module _ {T : Type 0} where
  abbrev pub at_addr : SocketAddr → Attempted T → Attempted (SocketAddr × T)
  at_addr addr none = none
  at_addr addr (some (ok t)) = some (ok (addr, t))
  at_addr addr (some (err e)) = some (err e)

module _ {T : Type 0} (P : Puncher T) where
  open P use {local_addr, new_reusably_bound, listen, connect_stream, incoming}

  -- The sockets, by the addresses that they will connect to.
  bind_all : List SocketAddr → Result IoError (List SocketAddr)
  bind_all [] = ok []
  bind_all (addr ∷ addrs) =
      new_reusably_bound addr >>= λ _. bind_all addrs >>= λ sockets. ok (addr ∷ sockets)

  unfoldable pub tcp_hole_punch :
      List SocketAddr → Result IoError (List (Attempted (SocketAddr × T)))
  unfolding bind_all
  tcp_hole_punch remote_addrs = local_addr >>= λ _. bind_all remote_addrs >>= λ sockets.
      listen >>= λ _. ok (map (λ addr. at_addr addr (connect_stream addr)) sockets ++ incoming)
