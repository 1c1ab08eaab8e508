-- ===== src/Socket/Task/Drain.antt =====
-- crust/src/net/socket.rs: the sending loop of `SocketTask::poll` against an arbitrary transport.
use crust_futures.Base.{
  ℕ, ◌+◌, ◌<◌, ◌≡◌, refl, sym, ap, ◌∙◌, List, [], ◌∷◌, ◌++◌, map, append_assoc, ◌≢◌,
}
use crust_futures.Socket.Queue.{Stamped, WriteQueue, payloads, Ascends}
use crust_futures.Socket.Task.{
  Transport, Answer, accepted, refused, broken, Stop, finished, blocked, failed, Drained, one_more,
  next_queue, drain_one, drain,
}

module _ {E D : Type 0} (T : Transport E D) where
  -- How `frames`, which the transport accepted, and `left` make up `all`: on a break the message
  -- that was being sent is lost.
  abbrev pub Splits : Stop T → List D → List D → List D → Type 0
  Splits finished frames left all = (frames ≡ all) × (left ≡ [])
  Splits blocked frames left all = (frames ++ left ≡ all) × (left ≢ [])
  Splits (failed e) frames left all = (lost : D) × (frames ++ lost ∷ left ≡ all)

  abbrev datas : List (Stamped D) → List D
  datas = map (λ m. m.1)

  abbrev SplitsOne : Drained T (List (Stamped D)) → List (Stamped D) → Type 0
  SplitsOne d ms = Splits d.stop d.frames (datas d.left) (datas ms)

  Splits-cons :
      (stop : Stop T) (d : D) (frames left all : List D)
      → Splits stop frames left all
      → Splits stop (d ∷ frames) left (d ∷ all)
  Splits-cons finished d frames left all (e, n) = (ap (λ r. d ∷ r) e, n)
  Splits-cons blocked d frames left all (e, n) = (ap (λ r. d ∷ r) e, n)
  Splits-cons (failed x) d frames left all (l, e) = (l, ap (λ r. d ∷ r) e)

  one_more-SplitsOne :
      (a : Answer E) (s : T.State) (m : Stamped D) (ms : List (Stamped D))
      (rest : Drained T (List (Stamped D)))
      → SplitsOne rest ms
      → SplitsOne (one_more T a s m ms rest) (m ∷ ms)
  unfolding one_more
  one_more-SplitsOne accepted s m ms rest h =
      Splits-cons rest.stop m.1 rest.frames (datas rest.left) (datas ms) h
  one_more-SplitsOne refused s m ms rest h = (refl, λ e. cc)
  one_more-SplitsOne (broken x) s m ms rest h = (m.1, refl)

  drain_one-SplitsOne : (s : T.State) (ms : List (Stamped D)) → SplitsOne (drain_one T s ms) ms
  unfolding drain_one
  drain_one-SplitsOne s [] = (refl, refl)
  drain_one-SplitsOne s ((t, d) ∷ ms) =
      let (s', a) = T.start_send s d in
      one_more-SplitsOne a s' (t, d) ms (drain_one T s' ms) (drain_one-SplitsOne s' ms)

  abbrev pub SplitsAll : Drained T (WriteQueue D) → WriteQueue D → Type 0
  SplitsAll d q = Splits d.stop d.frames (payloads d.left) (payloads q)

  -- A finished part in front, whatever follows.
  Splits-prepend :
      (stop : Stop T) (front frames left all : List D)
      → Splits stop frames left all
      → Splits stop (front ++ frames) left (front ++ all)
  Splits-prepend finished front frames left all (e, n) = (ap (λ r. front ++ r) e, n)
  Splits-prepend blocked front frames left all (e, n) =
      (append_assoc front frames left ∙ ap (λ r. front ++ r) e, n)
  Splits-prepend (failed x) front frames left all (l, e) =
      (l, append_assoc front frames (l ∷ left) ∙ ap (λ r. front ++ r) e)

  ++-ne-nil : (xs ys : List D) → xs ≢ [] → xs ++ ys ≢ []
  ++-ne-nil [] ys n e = n refl
  ++-ne-nil (x ∷ xs) ys n e = cc

  next_queue-SplitsAll :
      (stop : Stop T) (p : ℕ) (ms : List (Stamped D)) (rest : WriteQueue D)
      (one : Drained T (List (Stamped D))) (more : Drained T (WriteQueue D))
      → Splits stop one.frames (datas one.left) (datas ms)
      → SplitsAll more rest
      → SplitsAll (next_queue T stop p rest one more) ((p, ms) ∷ rest)
  unfolding next_queue payloads
  next_queue-SplitsAll finished p ms rest one more (e, n) h =
      rw (e, n)
        (Splits-prepend more.stop (datas ms) more.frames (payloads more.left) (payloads rest) h)
  next_queue-SplitsAll blocked p ms rest one more (e, n) h = (
    sym (append_assoc one.frames (datas one.left) (payloads rest)) ∙ ap (λ r. r ++ payloads rest) e,
    ++-ne-nil (datas one.left) (payloads rest) n,
  )
  next_queue-SplitsAll (failed x) p ms rest one more (l, e) h = (
    l,
    sym (append_assoc one.frames (l ∷ datas one.left) (payloads rest))
        ∙ ap (λ r. r ++ payloads rest) e,
  )

  -- The sending loop, over any transport: finished, it has handed over every message of the queue
  -- in order; blocked, a leading part, and the rest stays in order; failed, it loses one message.
  pub drain-SplitsAll : (s : T.State) (q : WriteQueue D) → SplitsAll (drain T s q) q
  unfolding drain payloads
  drain-SplitsAll s [] = (refl, refl)
  drain-SplitsAll s ((p, ms) ∷ rest) =
      let one = drain_one T s ms in
      next_queue-SplitsAll one.stop p ms rest one (drain T one.after rest)
        (drain_one-SplitsOne s ms) (drain-SplitsAll one.after rest)

  next_queue-Ascends :
      (n : ℕ) (stop : Stop T) (p : ℕ) (rest : WriteQueue D) (one : Drained T (List (Stamped D)))
      (more : Drained T (WriteQueue D))
      → n < p + 1
      → Ascends (p + 1) rest
      → Ascends (p + 1) more.left
      → Ascends n (next_queue T stop p rest one more).left
  unfolding next_queue
  next_queue-Ascends n finished p rest one more h a b = (h, b)
  next_queue-Ascends n blocked p rest one more h a b = (h, a)
  next_queue-Ascends n (failed x) p rest one more h a b = (h, a)

  pub drain-Ascends :
      (n : ℕ) (s : T.State) (q : WriteQueue D) → Ascends n q → Ascends n (drain T s q).left
  unfolding drain
  drain-Ascends n s [] a = tt
  drain-Ascends n s ((p, ms) ∷ rest) a =
      let one = drain_one T s ms in
      next_queue-Ascends n one.stop p rest one (drain T one.after rest) a.0 a.1
        (drain-Ascends (p + 1) one.after rest a.1)
