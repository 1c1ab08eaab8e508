-- ===== src/Socket/Front/Lifecycle.antt =====
-- crust/src/net/socket.rs: the life of a socket from its creation on.
use crust_futures.Base.{
  ℕ, ◌≡◌, refl, sym, ap, subst, ◌∙◌, List, [], ◌∷◌, ◌++◌, Option, none, some, Result, ok, err,
  Async, ready, not_ready, All,
}
use crust_futures.Addr.{SocketAddr}
use crust_futures.Net.{IoError, Codec, SocketError, destroyed}
use crust_futures.Socket.Task.{TaskMsg, send, shutdown}
use crust_futures.Socket.Front.{
  Inner, Socket, wrap_tcp, drop_inner, drop, addr_of, peer_addr, decoded, polled, poll_on,
  start_send_on, poll, start_send,
}

-- A new socket is alive.
pub wrap_tcp-live :
    (D : Type 0) (addr : SocketAddr) → (i : Inner) × ((wrap_tcp {D = D} addr).inner ≡ some i)
unfolding wrap_tcp
wrap_tcp-live D addr = (record { peer_addr = addr }, refl)

module _ {D : Type 0} where
  abbrev pub IsSend : TaskMsg D → Type 0
  IsSend (send p d) = Unit {0}
  IsSend shutdown = ⊥

  -- A live socket has sent messages only; a dead one has sent one shutdown behind them.
  abbrev pub Sends : Option Inner → List (TaskMsg D) → Type 0
  Sends (some i) ms = All IsSend ms
  Sends none ms = (sends : List (TaskMsg D)) × (ms ≡ sends ++ shutdown ∷ []) × All IsSend sends

  abbrev pub IsSound : Socket D → Type 0
  IsSound s = Sends s.inner s.outbox

  All-append : (xs ys : List (TaskMsg D)) → All IsSend xs → All IsSend ys → All IsSend (xs ++ ys)
  All-append [] ys a b = b
  All-append (x ∷ xs) ys a b = (a.0, All-append xs ys a.1 b)

  drop_inner-IsSound :
      (i : Option Inner) (s : Socket D) → s.inner ≡ i → IsSound s → IsSound (drop_inner i s)
  unfolding drop_inner
  drop_inner-IsSound none s e h = h
  drop_inner-IsSound (some i) s e h = (s.outbox, refl, rw e at h)

  drop_inner_dead : (i : Option Inner) (s : Socket D) → s.inner ≡ i → (drop_inner i s).inner ≡ none
  unfolding drop_inner
  drop_inner_dead none s e = e
  drop_inner_dead (some i) s e = refl

  pub drop-inner : (s : Socket D) → (drop s).inner ≡ none
  unfolding drop
  drop-inner s = drop_inner_dead s.inner s refl

  -- Dropping a live socket sends the shutdown.
  pub drop-live :
      (s : Socket D) {i : Inner} → s.inner ≡ some i → (drop s).outbox ≡ s.outbox ++ shutdown ∷ []
  unfolding drop drop_inner
  drop-live s e = ap (λ i. (drop_inner i s).outbox) e

  pub drop-IsSound : (s : Socket D) → IsSound s → IsSound (drop s) × ((drop s).inner ≡ none)
  unfolding drop
  drop-IsSound s h = (drop_inner-IsSound s.inner s refl h, drop_inner_dead s.inner s refl)

-- What the owner of a socket can do with it.
pub data Use (M D : Type 0) : Type 0 where
  polls : Result IoError (Async (Option D)) → Use M D
  sends : ℕ → M → Use M D
  drops : Use M D

module _ {M D : Type 0} (C : Codec M D) where
  pub apply : Use M D → Socket D → Socket D
  apply (polls frame) s = (poll C frame s).0
  apply (sends p m) s = (start_send C p m s).0
  apply drops s = drop s

  pub apply_all : List (Use M D) → Socket D → Socket D
  unfolding apply
  apply_all [] s = s
  apply_all (u ∷ us) s = apply_all us (apply u s)

  decoded-IsSound : (r : Result C.Error M) (s : Socket D) → IsSound s → IsSound (decoded C r s).0
  unfolding decoded
  decoded-IsSound (ok m) s h = h
  decoded-IsSound (err e) s h = (drop-IsSound s h).0

  polled-IsSound :
      (f : Result IoError (Async (Option D))) (s : Socket D) → IsSound s → IsSound (polled C f s).0
  unfolding polled
  polled-IsSound (ok (ready (some d))) s h = decoded-IsSound (C.deserialise d) s h
  polled-IsSound (ok (ready none)) s h = (drop-IsSound s h).0
  polled-IsSound (ok not_ready) s h = h
  polled-IsSound (err e) s h = (drop-IsSound s h).0

  poll_on-IsSound :
      (i : Option Inner) (f : Result IoError (Async (Option D))) (s : Socket D)
      → IsSound s
      → IsSound (poll_on C i f s).0
  unfolding poll_on
  poll_on-IsSound none f s h = h
  poll_on-IsSound (some i) f s h = polled-IsSound f s h

  start_send_on-inner :
      (i : Option Inner) (p : ℕ) (m : M) (s : Socket D)
      → (start_send_on C i p m s).0.inner ≡ s.inner
  unfolding start_send_on
  start_send_on-inner none p m s = refl
  start_send_on-inner (some i) p m s = refl

  start_send_on-ok :
      (i : Option Inner) (p : ℕ) (m : M) (s : Socket D) {x : Unit {0}}
      → (start_send_on C i p m s).1 ≡ ok x
      → (start_send_on C i p m s).0.outbox ≡ s.outbox ++ send p (C.serialise m) ∷ []
  unfolding start_send_on
  start_send_on-ok none p m s e = cc
  start_send_on-ok (some i) p m s e = refl

  -- A message that could be sent is the next thing that the task is sent.
  pub start_send-ok :
      (p : ℕ) (m : M) (s : Socket D) {x : Unit {0}}
      → (start_send C p m s).1 ≡ ok x
      → (start_send C p m s).0.outbox ≡ s.outbox ++ send p (C.serialise m) ∷ []
  unfolding start_send
  start_send-ok p m s e = start_send_on-ok s.inner p m s e

  start_send_on-sent :
      (i : Option Inner) (p : ℕ) (m : M) (s : Socket D) {x : Unit {0}}
      → (start_send_on C i p m s).1 ≡ ok x
      → (start_send_on C i p m s).0
        ≡ (record s { outbox = s.outbox ++ send p (C.serialise m) ∷ [] })
  unfolding start_send_on
  start_send_on-sent none p m s e = cc
  start_send_on-sent (some i) p m s e = refl

  start_send_on-alive :
      (i : Option Inner) (p : ℕ) (m : M) (s : Socket D) {x : Unit {0}}
      → (start_send_on C i p m s).1 ≡ ok x
      → (j : Inner) × (i ≡ some j)
  unfolding start_send_on
  start_send_on-alive none p m s e = cc
  start_send_on-alive (some i) p m s e = (i, refl)

  -- Only a live socket takes a message.
  pub start_send-alive :
      (p : ℕ) (m : M) (s : Socket D) {x : Unit {0}}
      → (start_send C p m s).1 ≡ ok x
      → (j : Inner) × (s.inner ≡ some j)
  unfolding start_send
  start_send-alive p m s e = start_send_on-alive s.inner p m s e

  -- A message that could be sent is all that changes of a socket.
  pub start_send-sent :
      (p : ℕ) (m : M) (s : Socket D) {x : Unit {0}}
      → (start_send C p m s).1 ≡ ok x
      → (start_send C p m s).0 ≡ (record s { outbox = s.outbox ++ send p (C.serialise m) ∷ [] })
  unfolding start_send
  start_send-sent p m s e = start_send_on-sent s.inner p m s e

  -- A live socket takes every message.
  pub start_send-live :
      (p : ℕ) (m : M) (s : Socket D) {i : Inner}
      → s.inner ≡ some i
      → start_send C p m s ≡ (record s { outbox = s.outbox ++ send p (C.serialise m) ∷ [] }, ok tt)
  unfolding start_send start_send_on
  start_send-live p m s e = ap (λ i. start_send_on C i p m s) e

  -- Sending does not end a socket.
  pub start_send-inner : (p : ℕ) (m : M) (s : Socket D) → (start_send C p m s).0.inner ≡ s.inner
  unfolding start_send
  start_send-inner p m s = start_send_on-inner s.inner p m s

  start_send_on-IsSound :
      (i : Option Inner) (p : ℕ) (m : M) (s : Socket D)
      → s.inner ≡ i
      → IsSound s
      → IsSound (start_send_on C i p m s).0
  unfolding start_send_on
  start_send_on-IsSound none p m s e h = h
  start_send_on-IsSound (some i) p m s e h =
      let sent : Sends (some i) (s.outbox ++ send p (C.serialise m) ∷ []) =
        All-append s.outbox (send p (C.serialise m) ∷ []) (subst (λ j. Sends j s.outbox) e h)
          (tt, tt) in
      subst (λ j. Sends j (s.outbox ++ send p (C.serialise m) ∷ [])) (sym e) sent

  apply-IsSound : (u : Use M D) (s : Socket D) → IsSound s → IsSound (apply u s)
  unfolding apply poll start_send
  apply-IsSound (polls f) s h = poll_on-IsSound s.inner f s h
  apply-IsSound (sends p m) s h = start_send_on-IsSound s.inner p m s refl h
  apply-IsSound drops s h = (drop-IsSound s h).0

  -- However a socket is used from its creation on, its task is sent messages only while the socket
  -- lives, and one shutdown behind them, which is the last of all, once it is dead.
  pub apply_all-IsSound :
      (us : List (Use M D)) (s : Socket D) → IsSound s → IsSound (apply_all us s)
  unfolding apply_all
  apply_all-IsSound [] s h = h
  apply_all-IsSound (u ∷ us) s h = apply_all-IsSound us (apply u s) (apply-IsSound u s h)

  apply_dead : (u : Use M D) (s : Socket D) → s.inner ≡ none → apply u s ≡ s
  unfolding apply poll start_send drop
  apply_dead (polls f) s e = ap (λ i. (poll_on C i f s).0) e
  apply_dead (sends p m) s e = ap (λ i. (start_send_on C i p m s).0) e
  apply_dead drops s e = ap (λ i. drop_inner i s) e

  apply_all_dead : (us : List (Use M D)) (s : Socket D) → s.inner ≡ none → apply_all us s ≡ s
  unfolding apply_all
  apply_all_dead [] s e = refl
  apply_all_dead (u ∷ us) s e = ap (apply_all us) (apply_dead u s e) ∙ apply_all_dead us s e

  decoded_err :
      (r : Result C.Error M) (s : Socket D) {x : SocketError C.Error}
      → (decoded C r s).1 ≡ err x
      → (decoded C r s).0.inner ≡ none
  unfolding decoded drop
  decoded_err (ok m) s e = cc
  decoded_err (err y) s e = drop_inner_dead s.inner s refl

  polled_err :
      (f : Result IoError (Async (Option D))) (s : Socket D) {x : SocketError C.Error}
      → (polled C f s).1 ≡ err x
      → (polled C f s).0.inner ≡ none
  unfolding polled drop
  polled_err (ok (ready (some d))) s e = decoded_err (C.deserialise d) s e
  polled_err (ok (ready none)) s e = drop_inner_dead s.inner s refl
  polled_err (ok not_ready) s e = cc
  polled_err (err y) s e = drop_inner_dead s.inner s refl

  poll_on_err :
      (i : Option Inner) (f : Result IoError (Async (Option D))) (s : Socket D)
      {x : SocketError C.Error}
      → s.inner ≡ i
      → (poll_on C i f s).1 ≡ err x
      → (poll_on C i f s).0.inner ≡ none
  unfolding poll_on
  poll_on_err none f s n e = n
  poll_on_err (some i) f s n e = polled_err f s e

  -- After a poll that fails, a socket is dead for good: whatever is done with it later changes
  -- nothing, and polls, sends and requests for the address all answer `destroyed`.
  pub poll_err_destroys :
      (f g : Result IoError (Async (Option D))) (us : List (Use M D)) (p : ℕ) (m : M) (s : Socket D)
      {x : SocketError C.Error}
      → (poll C f s).1 ≡ err x
      → let s' = apply_all us (poll C f s).0 in
        (s' ≡ (poll C f s).0)
        × ((poll C g s').1 ≡ err destroyed)
        × ((start_send C p m s').1 ≡ err destroyed)
        × (peer_addr C s' ≡ err destroyed)
  unfolding poll start_send peer_addr poll_on start_send_on
  poll_err_destroys f g us p m s e =
      let s1 = (poll C f s).0 in
      let dead : s1.inner ≡ none = poll_on_err s.inner f s refl e in
      let same : apply_all us s1 ≡ s1 = apply_all_dead us s1 dead in
      let dead' : (apply_all us s1).inner ≡ none = ap (λ r. r.inner) same ∙ dead in
      let s' = apply_all us s1 in
      (
        same,
        ap (λ i. (poll_on C i g s').1) dead',
        ap (λ i. (start_send_on C i p m s').1) dead',
        ap (addr_of C) dead',
      )

  -- With a codec that reads back what it writes, polling a live socket for the frame of a sent
  -- message gives that message, and the socket stays as it is.
  pub poll-serialise :
      (m : M) (s : Socket D) {i : Inner}
      → ((m : M) → C.deserialise (C.serialise m) ≡ ok m)
      → s.inner ≡ some i
      → poll C (ok (ready (some (C.serialise m)))) s ≡ (s, ok (ready (some m)))
  unfolding poll poll_on polled decoded
  poll-serialise m s law e =
      ap (λ i. poll_on C i (ok (ready (some (C.serialise m)))) s) e
      ∙ ap (λ r. decoded C r s) (law m)

module _ {M D : Type 0} (C : Codec M D) where
  -- A frame that comes and that reads as a message.
  abbrev pub Says : Result IoError (Option D) → M → Type 0
  Says f m = (d : D) × (f ≡ ok (some d)) × (C.deserialise d ≡ ok m)

  decoded_gives :
      (r : Result C.Error M) (s : Socket D) (m : M)
      → (decoded C r s).1 ≡ ok (ready (some m))
      → (r ≡ ok m) × ((decoded C r s).0 ≡ s)
  unfolding decoded
  decoded_gives (ok x) s m h = let q : x ≡ m = cc in (ap ok q, refl)
  decoded_gives (err e) s m h = cc

  poll_on_gives :
      (i : Option Inner) (f : Result IoError (Async (Option D))) (s : Socket D) (m : M)
      → (poll_on C i f s).1 ≡ ok (ready (some m))
      → (d : D) × (f ≡ ok (ready (some d))) × (C.deserialise d ≡ ok m) × ((poll_on C i f s).0 ≡ s)
  unfolding poll_on polled
  poll_on_gives none f s m h = cc
  poll_on_gives (some i) (ok (ready (some d))) s m h =
      let (e, q) = decoded_gives (C.deserialise d) s m h in (d, refl, e, q)
  poll_on_gives (some i) (ok (ready none)) s m h = cc
  poll_on_gives (some i) (ok not_ready) s m h = cc
  poll_on_gives (some i) (err e) s m h = cc

  -- A frame that reads as a message gives it, on a live socket.
  pub poll-reads :
      (d : D) (m : M) (s : Socket D) {i : Inner}
      → C.deserialise d ≡ ok m
      → s.inner ≡ some i
      → poll C (ok (ready (some d))) s ≡ (s, ok (ready (some m)))
  unfolding poll poll_on polled decoded
  poll-reads d m s reads e =
      ap (λ i. poll_on C i (ok (ready (some d))) s) e ∙ ap (λ r. decoded C r s) reads

  -- A message that a poll gives comes from a frame, and leaves the socket as it is.
  pub poll_gives :
      (f : Result IoError (Async (Option D))) (s : Socket D) (m : M)
      → (poll C f s).1 ≡ ok (ready (some m))
      → (d : D) × (f ≡ ok (ready (some d))) × (C.deserialise d ≡ ok m) × ((poll C f s).0 ≡ s)
  unfolding poll
  poll_gives f s m h = poll_on_gives s.inner f s m h
