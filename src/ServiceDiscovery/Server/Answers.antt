-- ===== src/ServiceDiscovery/Server/Answers.antt =====
-- service_discovery/src/server.rs: the answers that a poll sends, and those still due.
use crust_futures.Base.{
  ℕ, zero, suc, ◌≤◌, ◌≡◌, refl, ap, List, [], ◌∷◌, ◌++◌, map, false, ok, err, length, arith,
}
use crust_futures.Addr.{SocketAddr}
use crust_futures.ServiceDiscovery.{request, response, Datagram}
use crust_futures.ServiceDiscovery.Server.{
  ServerTaskState, reading, writing, ServerTask, newest, read, serve, on_data, poll,
}

-- The answer that is being written.
abbrev pub unwritten : {T : Type 0} → ServerTaskState T → List (SocketAddr × T)
unwritten reading = []
unwritten (writing a x) = (a, x) ∷ []

module _ {E T : Type 0} where
  -- The senders of the requests, in the order of their arrival.
  abbrev pub requesters : List (Datagram E T) → List SocketAddr
  requesters [] = []
  requesters ((a, ok request) ∷ ms) = a ∷ requesters ms
  requesters ((a, ok (response r)) ∷ ms) = requesters ms
  requesters ((a, err e) ∷ ms) = requesters ms

  -- The answers that the requests of an inbox are due.
  abbrev pub due : T → List (Datagram E T) → List (SocketAddr × T)
  due d ms = map (λ a. (a, d)) (requesters ms)

  read_lem :
      (d : T) (room : ℕ) (ms : List (Datagram E T))
      → let s = read d room ms in s.sent ++ unwritten s.state ++ due d s.inbox ≡ due d ms
  unfolding read
  read_lem d room [] = refl
  read_lem d zero ((a, ok request) ∷ ms) = refl
  read_lem d (suc room) ((a, ok request) ∷ ms) = ap (λ l. (a, d) ∷ l) (read_lem d room ms)
  read_lem d zero ((a, ok (response r)) ∷ ms) = read_lem d zero ms
  read_lem d (suc room) ((a, ok (response r)) ∷ ms) = read_lem d (suc room) ms
  read_lem d zero ((a, err e) ∷ ms) = read_lem d zero ms
  read_lem d (suc room) ((a, err e) ∷ ms) = read_lem d (suc room) ms

  serve_lem :
      (d : T) (room : ℕ) (ms : List (Datagram E T)) (state : ServerTaskState T)
      → let s = serve d room ms state in
        s.sent ++ unwritten s.state ++ due d s.inbox ≡ unwritten state ++ due d ms
  unfolding serve
  serve_lem d room ms reading = read_lem d room ms
  serve_lem d zero ms (writing a x) = refl
  serve_lem d (suc room) ms (writing a x) = ap (λ l. (a, x) ∷ l) (read_lem d room ms)

  -- While its handle is there, a poll of the server answers the requests in the order of their
  -- arrival, behind the answer that was being written, each once, with the newest data: what it
  -- sends, what it is writing afterwards and what the datagrams left are due make up just that.
  pub poll_answers :
      (room : ℕ) (ms : List (Datagram E T)) (t : ServerTask T)
      → t.data_closed ≡ false
      → let (t', s, _) = poll room ms t in
        s.sent ++ unwritten t'.state ++ due t'.data' s.inbox
        ≡ unwritten t.state ++ due (newest t.data_rx t.data') ms
  unfolding poll on_data
  poll_answers room ms t open_ = rw open_ (serve_lem (newest t.data_rx t.data') room ms t.state)

  read_all :
      (d : T) (room : ℕ) (ms : List (Datagram E T))
      → length (requesters ms) ≤ room
      → (read d room ms).sent ≡ due d ms
  unfolding read
  read_all d room [] h = refl
  read_all d zero ((a, ok request) ∷ ms) h = absurd (omega (arith, h))
  read_all d (suc room) ((a, ok request) ∷ ms) h =
      ap (λ l. (a, d) ∷ l) (read_all d room ms (omega (arith, h)))
  read_all d zero ((a, ok (response r)) ∷ ms) h = read_all d zero ms h
  read_all d (suc room) ((a, ok (response r)) ∷ ms) h = read_all d (suc room) ms h
  read_all d zero ((a, err e) ∷ ms) h = read_all d zero ms h
  read_all d (suc room) ((a, err e) ∷ ms) h = read_all d (suc room) ms h

  -- A server that is reading, with room for an answer to every request, sends them all in one poll.
  pub poll_answers_all :
      (room : ℕ) (ms : List (Datagram E T)) (t : ServerTask T)
      → t.data_closed ≡ false
      → t.state ≡ reading
      → length (requesters ms) ≤ room
      → (poll room ms t).1.sent ≡ due (newest t.data_rx t.data') ms
  unfolding poll on_data serve
  poll_answers_all room ms t open_ idle h =
      rw (open_, idle) (read_all (newest t.data_rx t.data') room ms h)
