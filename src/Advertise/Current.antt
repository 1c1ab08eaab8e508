-- ===== src/Advertise/Current.antt =====
-- crust/src/net/listener.rs and service_discovery.rs: what is told is what is current.
use crust_futures.Base.{◌≡◌, List, [], ◌∷◌, ◌++◌, true, Memᴰ}
use crust_futures.Addr.{SocketAddr}
use crust_futures.Listener
use crust_futures.Listener.{Addresses, Observer, Incoming}
use crust_futures.ServiceDiscovery.Server
use crust_futures.ServiceDiscovery.Server.{newest}
use crust_futures.Advertise.{ServiceDiscovery}

-- What changes or reads the set of addresses.
pub data Change : Type 0 where
  brings : List SocketAddr → Incoming → Change
  retires : List SocketAddr → Change
  observes : Change

unfoldable pub change : Change → Addresses → Addresses
change (brings addrs incoming) a = (Listener.listener addrs incoming a).0
change (retires addrs) a = Listener.retire addrs a
change observes a = (Listener.addresses a).1

unfoldable pub change_all : List Change → Addresses → Addresses
unfolding change
change_all [] a = a
change_all (c ∷ cs) a = change_all cs (change c a)

-- An observer that is there, and for which the last set, or else a first one, is the current one.
pub record IsFollowed (start : List SocketAddr) (a : Addresses) : Type 0 where
  pub observer : Observer
  pub is_there : Memᴰ observer a.observers
  pub lives : observer.is_alive ≡ true
  pub is_current : newest observer.received start ≡ a.current

abbrev hears : List SocketAddr → Observer → Observer
hears current o = record o { received = o.received ++ current ∷ [] }
