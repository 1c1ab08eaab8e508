-- ===== src/ServiceDiscovery/Server.antt =====
-- service_discovery/src/server.rs: the task that answers requests. `inbox` holds the datagrams that
-- have arrived, and `room` how many datagrams the socket takes before it is not ready; an error of
-- the socket is a panic of the source, and not modelled.
pub mod Answers
use crust_futures.Base.{
  ℕ, zero, suc, List, [], ◌∷◌, ◌++◌, Option, none, some, Bool, true, false, ok, err, Async, ready,
  not_ready,
}
use crust_futures.Addr.{SocketAddr}
use crust_futures.ServiceDiscovery.{DiscoveryMsg, request, response, Datagram}

-- `ServerTaskState`: an answer that is being written has an address and the data.
pub data ServerTaskState (T : Type 0) : Type 0 where
  reading : ServerTaskState T
  writing : SocketAddr → T → ServerTaskState T

-- The task, with the data that its handle has sent, and whether the handle is gone.
pub record ServerTask (T : Type 0) : Type 0 where
  pub data_rx : List T
  pub data_closed : Bool
  pub data' : T
  pub state : ServerTaskState T

-- A handle together with its task.
pub record Server (T : Type 0) : Type 0 where
  pub port : ℕ
  pub task : ServerTask T

-- What the second loop of a poll leaves, and what it has sent.
pub record Served (E T : Type 0) : Type 0 where
  pub state : ServerTaskState T
  pub inbox : List (Datagram E T)
  pub sent : List (SocketAddr × T)

module _ {T : Type 0} where
  -- `Server::new`, on the port that the socket is bound to, and `set_data`.
  unfoldable pub new : ℕ → T → Server T
  new port data' = record {
    port = port;
    task = record { data_rx = []; data_closed = false; data' = data'; state = reading };
  }

  unfoldable pub set_data : T → Server T → Server T
  set_data data' s = record s { task = record (s.task) { data_rx = s.task.data_rx ++ data' ∷ [] } }

  -- The first loop of `poll`: the newest data counts.
  unfoldable pub newest : List T → T → T
  newest [] d = d
  newest (x ∷ xs) d = newest xs x

module _ {E T : Type 0} where
  -- The second loop from the state `Reading` on; behind a request it goes through `Writing`.
  pub read : T → ℕ → List (Datagram E T) → Served E T
  read d room [] = record { state = reading; inbox = []; sent = [] }
  read d zero ((a, ok request) ∷ ms) = record { state = writing a d; inbox = ms; sent = [] }
  read d (suc room) ((a, ok request) ∷ ms) =
      let rest = read d room ms in record rest { sent = (a, d) ∷ rest.sent }
  read d room ((a, ok (response r)) ∷ ms) = read d room ms
  read d room ((a, err e) ∷ ms) = read d room ms

  pub serve : T → ℕ → List (Datagram E T) → ServerTaskState T → Served E T
  unfolding read
  serve d room inbox reading = read d room inbox
  serve d zero inbox (writing a x) = record { state = writing a x; inbox = inbox; sent = [] }
  serve d (suc room) inbox (writing a x) =
      let rest = read d room inbox in record rest { sent = (a, x) ∷ rest.sent }

  -- `ServerTask::poll`: it ends once the server's handle is gone, else it serves.
  on_data :
      Bool
      → T
      → ℕ
      → List (Datagram E T)
      → ServerTask T
      → ServerTask T × Served E T × Async (Unit {0})
  unfolding serve
  on_data true d room inbox t = (
    record t { data_rx = []; data' = d },
    record { state = t.state; inbox = inbox; sent = [] },
    ready tt,
  )
  on_data false d room inbox t =
      let s = serve d room inbox t.state in
      (record t { data_rx = []; data' = d; state = s.state }, s, not_ready)

  pub poll : ℕ → List (Datagram E T) → ServerTask T → ServerTask T × Served E T × Async (Unit {0})
  unfolding on_data newest
  poll room inbox t = on_data t.data_closed (newest t.data_rx t.data') room inbox t
