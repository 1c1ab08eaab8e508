-- ===== src/Socket/Queue/Order.antt =====
-- crust/src/net/socket.rs: the write queue keeps its keys in order.
use crust_futures.Base.{ℕ, ◌+◌, ◌≤◌, ◌<◌, ◌≡◌, refl, [], ◌∷◌, ◌++◌, arith, ◌==◌, if◌then◌else◌}
use crust_futures.Socket.Queue.{Stamped, WriteQueue, push_back, get, Ascends}

module _ {D : Type 0} where
  pub Ascends-mono : {m n : ℕ} (q : WriteQueue D) → m ≤ n → Ascends n q → Ascends m q
  Ascends-mono [] h a = tt
  Ascends-mono (e ∷ rest) h a = (omega arith, a.1)

  pub push_back-Ascends :
      (n p : ℕ) (m : Stamped D) (q : WriteQueue D)
      → n ≤ p
      → Ascends n q
      → Ascends n (push_back p m q)
  unfolding push_back
  push_back-Ascends n p m [] h a = (omega arith, tt)
  push_back-Ascends n p m ((r, ms) ∷ rest) h a = ground (arith, push_back-Ascends (r + 1) p m rest)

  -- A key below the bound is not in the queue.
  pub get_below : (n p : ℕ) (q : WriteQueue D) → p < n → Ascends n q → get p q ≡ []
  unfolding get
  get_below n p [] h a = refl
  get_below n p ((r, ms) ∷ rest) h a = ground (arith, get_below (r + 1) p rest)

  get-push_back :
      (n p r : ℕ) (m : Stamped D) (q : WriteQueue D)
      → Ascends n q
      → get p (push_back r m q) ≡ (if p == r then get p q ++ m ∷ [] else get p q)
  unfolding get push_back
  get-push_back n p r m [] a = ground arith
  get-push_back n p r m ((k, ms) ∷ rest) a =
      ground (arith, get-push_back (k + 1) p r m rest, get_below (k + 1) p rest)

  -- In a queue with ascending keys, a pushed message goes to the end of the messages of its own
  -- priority, those of every other priority stay as they are, and the keys ascend again.
  pub push_back_lem :
      (p r : ℕ) (m : Stamped D) (q : WriteQueue D)
      → Ascends 0 q
      → (get p (push_back r m q) ≡ (if p == r then get p q ++ m ∷ [] else get p q))
        × Ascends 0 (push_back r m q)
  push_back_lem p r m q a = (get-push_back 0 p r m q a, push_back-Ascends 0 r m q (omega arith) a)
