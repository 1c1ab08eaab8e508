-- ===== src/Socket/Task.antt =====
-- crust/src/net/socket.rs: `SocketTask` and its poll. The framed transport is a parameter: its
-- `start_send`, `poll_complete` and the shutdown of the TCP stream answer as they like.
pub mod Drain
pub mod Poll
use crust_futures.Base.{
  ℕ, List, [], ◌∷◌, ◌++◌, Bool, true, false, Result, ok, err, ◌>>=◌, Async, ready, not_ready,
}
use crust_futures.Socket.Queue.{Stamped, WriteQueue, push_back, expire}

pub data TaskMsg (D : Type 0) : Type 0 where
  send : ℕ → D → TaskMsg D
  shutdown : TaskMsg D

-- What the transport answers to a frame: taken, refused for now, or broken.
pub data Answer (E : Type 0) : Type 0 where
  accepted : Answer E
  refused : Answer E
  broken : E → Answer E

pub record Transport (E D : Type 0) : Type 1 where
  pub State : Type 0
  pub start_send : State → D → State × Answer E
  pub poll_complete : State → State × Answer E
  -- `tcp_stream.shutdown(Shutdown::Write)` and the linger timer that follows it.
  pub close : State → Result E (Unit {0})

module _ {E D : Type 0} (T : Transport E D) where
  open T use {State, start_send, poll_complete, close}

  pub record SocketTask : Type 0 where
    pub stream_rx : Bool
    pub write_queue : WriteQueue D
    pub write_rx : List (TaskMsg D)
    pub sink : State
    -- Every frame that the transport has accepted, oldest first.
    pub accepted_frames : List D

  -- How a walk of the sending loop ended.
  pub data Stop : Type 0 where
    finished blocked : Stop
    failed : E → Stop

  pub record Drained (Q : Type 0) : Type 0 where
    pub after : State
    pub left : Q
    pub frames : List D
    pub stop : Stop

  -- The receiving loop at the head of `poll`: it stops behind a shutdown, or where nothing waits.
  pub receive : ℕ → List (TaskMsg D) → Bool → WriteQueue D → Bool × List (TaskMsg D) × WriteQueue D
  receive now [] rx q = (rx, [], q)
  receive now (send p d ∷ ms) rx q = receive now ms rx (push_back p (now, d) q)
  receive now (shutdown ∷ ms) rx q = (true, ms, q)

  -- The body of the inner loop, by the transport's answer; a refused message goes back to the front.
  one_more :
      Answer E
      → State
      → Stamped D
      → List (Stamped D)
      → Drained (List (Stamped D))
      → Drained (List (Stamped D))
  one_more accepted s m ms rest = record rest { frames = m.1 ∷ rest.frames }
  one_more refused s m ms rest = record { after = s; left = m ∷ ms; frames = []; stop = blocked }
  one_more (broken e) s m ms rest = record { after = s; left = ms; frames = []; stop = failed e }

  -- `while let Some((time, msg)) = queue.pop_front()`.
  pub drain_one : State → List (Stamped D) → Drained (List (Stamped D))
  unfolding one_more
  drain_one s [] = record { after = s; left = []; frames = []; stop = finished }
  drain_one s ((t, d) ∷ ms) =
      let (s', a) = start_send s d in one_more a s' (t, d) ms (drain_one s' ms)

  -- The body of the outer loop, by how the inner one ended: only a finished queue goes on.
  next_queue :
      Stop
      → ℕ
      → WriteQueue D
      → Drained (List (Stamped D))
      → Drained (WriteQueue D)
      → Drained (WriteQueue D)
  next_queue finished p rest one more = record more {
    left = (p, one.left) ∷ more.left;
    frames = one.frames ++ more.frames;
  }
  next_queue stop p rest one more = record {
    after = one.after;
    left = (p, one.left) ∷ rest;
    frames = one.frames;
    stop = stop;
  }

  -- `'outer: for (_, queue) in self.write_queue.iter_mut()`; emptied queues keep their keys.
  pub drain : State → WriteQueue D → Drained (WriteQueue D)
  unfolding drain_one next_queue
  drain s [] = record { after = s; left = []; frames = []; stop = finished }
  drain s ((p, ms) ∷ rest) =
      let one = drain_one s ms in next_queue one.stop p rest one (drain one.after rest)

  abbrev pub all_messages_sent : Stop → Bool
  all_messages_sent finished = true
  all_messages_sent _ = false

  abbrev pub Poll : Type 0
  Poll = Result E (Async (Unit {0}))

  -- `if let Some(stream_rx) = self.stream_rx.take()`, once all is sent and flushed.
  finish : Bool → SocketTask → SocketTask × Poll
  finish false task = (task, ok not_ready)
  finish true task = (record task { stream_rx = false }, close task.sink >>= λ _. ok (ready tt))

  -- What follows `poll_complete` of the transport, by its answer.
  flushed : Answer E → Bool → SocketTask → SocketTask × Poll
  unfolding finish
  flushed accepted true task = finish task.stream_rx task
  flushed accepted false task = (task, ok not_ready)
  flushed refused sent task = (task, ok not_ready)
  flushed (broken e) sent task = (task, err e)

  -- The end of `poll`, by how the sending loop ended.
  conclude : Stop → SocketTask → SocketTask × Poll
  unfolding flushed
  conclude (failed e) task = (task, err e)
  conclude stop task =
      let (s', a) = poll_complete task.sink in
      flushed a (all_messages_sent stop) (record task { sink = s' })

  -- What the sending loop of one poll finds: `now` is read at the head of the poll, and `at` is the
  -- time by which the ages are measured.
  pub pending : ℕ → ℕ → SocketTask → Bool × List (TaskMsg D) × WriteQueue D
  unfolding receive
  pending now at task =
      let (rx, rest, q) = receive now task.write_rx task.stream_rx task.write_queue in
      (rx, rest, expire at q)

  -- The task after the sending loop.
  pub sending : ℕ → ℕ → SocketTask → Drained (WriteQueue D) × SocketTask
  unfolding pending drain
  sending now at task =
      let (rx, rest, q) = pending now at task in
      let d = drain task.sink q in
      let task' : SocketTask = record {
        stream_rx = rx;
        write_queue = d.left;
        write_rx = rest;
        sink = d.after;
        accepted_frames = task.accepted_frames ++ d.frames;
      } in
      (d, task')

  unfoldable pub poll : ℕ → ℕ → SocketTask → SocketTask × Poll
  unfolding sending conclude
  poll now at task = let (d, task') = sending now at task in conclude d.stop task'
