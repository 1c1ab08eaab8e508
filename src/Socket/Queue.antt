-- ===== src/Socket/Queue.antt =====
-- crust/src/net/socket.rs: the write queue of `SocketTask`, a `BTreeMap` from priorities to
-- `VecDeque`s, as the list of its entries in ascending order of the keys. Times are milliseconds.
pub mod Order
pub mod Expiry
use crust_futures.Base.{
  ℕ, ◌+◌, ◌-◌, ◌*◌, ◌/◌, ◌<◌, List, [], ◌∷◌, ◌++◌, Bool, true, ◌||◌, map, ltb, leb, ◌==◌,
  if◌then◌else◌, length,
}

-- 2 * 1024 * 1024 bytes.
abbrev pub max_payload_size : ℕ
max_payload_size = 2 * 1024 * 1024

abbrev pub msg_drop_priority : ℕ
msg_drop_priority = 2

abbrev pub max_msg_age_secs : ℕ
max_msg_age_secs = 60

-- A queued message with the time at which the task received it.
abbrev pub Stamped : Type 0 → Type 0
Stamped D = ℕ × D

abbrev pub WriteQueue : Type 0 → Type 0
WriteQueue D = List (ℕ × List (Stamped D))

module _ {D : Type 0} where
  -- `write_queue.entry(priority).or_insert_with(VecDeque::new).push_back(..)`.
  unfoldable pub push_back : ℕ → Stamped D → WriteQueue D → WriteQueue D
  push_back p m [] = (p, m ∷ []) ∷ []
  push_back p m ((q, ms) ∷ rest) =
      if p == q
      then (q, ms ++ m ∷ []) ∷ rest
      else if ltb p q
      then (p, m ∷ []) ∷ (q, ms) ∷ rest
      else (q, ms) ∷ push_back p m rest

  -- `write_queue.remove(priority)`.
  unfoldable pub remove : ℕ → WriteQueue D → WriteQueue D
  remove p [] = []
  remove p ((q, ms) ∷ rest) = if p == q then rest else (q, ms) ∷ remove p rest

  unfoldable pub get : ℕ → WriteQueue D → List (Stamped D)
  get p [] = []
  get p ((q, ms) ∷ rest) = if p == q then ms else get p rest

  -- The closure of `skip_while`: entries that do not start the expired part.
  unfoldable pub is_kept : ℕ → ℕ × List (Stamped D) → Bool
  is_kept at (p, []) = true
  is_kept at (p, (t, d) ∷ ms) = ltb p msg_drop_priority || leb ((at - t) / 1000) max_msg_age_secs

  -- `iter().skip_while(..).map(|(&priority, _)| priority).collect()`.
  unfoldable pub expired_keys : ℕ → WriteQueue D → List ℕ
  unfolding is_kept
  expired_keys at [] = []
  expired_keys at (e ∷ rest) =
      if is_kept at e then expired_keys at rest else e.0 ∷ map (λ x. x.0) rest

  unfoldable pub remove_all : List ℕ → WriteQueue D → WriteQueue D
  remove_all [] q = q
  remove_all (p ∷ ps) q = remove_all ps (remove p q)

  -- `dropped_msgs`: the lengths of the queues that `remove` hands back, summed.
  pub dropped_msgs : List ℕ → WriteQueue D → ℕ
  dropped_msgs [] q = 0
  dropped_msgs (p ∷ ps) q = length (get p q) + dropped_msgs ps (remove p q)

  -- The write queue without its expired part.
  unfoldable pub expire : ℕ → WriteQueue D → WriteQueue D
  unfolding expired_keys remove_all
  expire at q = remove_all (expired_keys at q) q

  -- The queued payloads in the order in which they are to be sent.
  unfoldable pub payloads : WriteQueue D → List D
  payloads [] = []
  payloads ((p, ms) ∷ rest) = map (λ m. m.1) ms ++ payloads rest

  -- Keys ascend strictly, and lie at or above `n`.
  abbrev pub Ascends : ℕ → WriteQueue D → Type 0
  Ascends n [] = Unit
  Ascends n ((p, ms) ∷ rest) = (n < p + 1) × Ascends (p + 1) rest
