-- ===== src/Socket/Queue/Expiry.antt =====
-- crust/src/net/socket.rs: what dropping the expired part of the write queue takes, and leaves.
use crust_futures.Base.{
  ℕ, ◌+◌, ◌-◌, ◌⊎◌, ◌≤◌, ◌<◌, ◌≡◌, refl, ap, ◌∙◌, List, [], ◌∷◌, ◌++◌, map, true, false, arith,
  ◌==◌, if◌then◌else◌, length, length-append, length-map, All, Bool-cases, inl, inr, dec_lt,
}
use crust_futures.Socket.Queue.{
  Stamped, WriteQueue, msg_drop_priority, remove, get, is_kept, expired_keys, remove_all,
  dropped_msgs, expire, payloads, Ascends,
}
use crust_futures.Socket.Queue.Order.{Ascends-mono, get_below}

module _ {D : Type 0} where
  -- What `skip_while` passes over, and what it hands on.
  abbrev pub take_kept : ℕ → WriteQueue D → WriteQueue D
  take_kept at [] = []
  take_kept at (e ∷ rest) = if is_kept at e then e ∷ take_kept at rest else []

  abbrev pub drop_kept : ℕ → WriteQueue D → WriteQueue D
  drop_kept at [] = []
  drop_kept at (e ∷ rest) = if is_kept at e then drop_kept at rest else e ∷ rest

  abbrev keys : WriteQueue D → List ℕ
  keys = map (λ x. x.0)

  remove_head : (p : ℕ) (ms : List (Stamped D)) (q : WriteQueue D) → remove p ((p, ms) ∷ q) ≡ q
  unfolding remove
  remove_head p ms q = ground arith

  get_head : (p : ℕ) (ms : List (Stamped D)) (q : WriteQueue D) → get p ((p, ms) ∷ q) ≡ ms
  unfolding get
  get_head p ms q = ground arith

  remove-keys : (q : WriteQueue D) → remove_all (keys q) q ≡ []
  unfolding remove_all
  remove-keys [] = refl
  remove-keys ((p, ms) ∷ rest) = rw (remove_head p ms rest, remove_all) (remove-keys rest)

  -- Removing keys at or above `n` leaves an entry below `n` alone.
  remove_all-cons :
      (n p : ℕ) (ms : List (Stamped D)) (ps : List ℕ) (rest : WriteQueue D)
      → p < n
      → All (λ k. n ≤ k) ps
      → remove_all ps ((p, ms) ∷ rest) ≡ (p, ms) ∷ remove_all ps rest
  unfolding remove_all remove
  remove_all-cons n p ms [] rest h a = refl
  remove_all-cons n p ms (k ∷ ps) rest h a =
      ground (arith, remove_all-cons n p ms ps (remove k rest) h a.1)

  keys_above : (n : ℕ) (q : WriteQueue D) → Ascends n q → All (λ k. n ≤ k) (keys q)
  keys_above n [] a = tt
  keys_above n ((p, ms) ∷ rest) a =
      (omega arith, keys_above n rest (Ascends-mono {m = n} {n = p + 1} rest (omega arith) a.1))

  expired_above : (n at : ℕ) (q : WriteQueue D) → Ascends n q → All (λ k. n ≤ k) (expired_keys at q)
  unfolding expired_keys
  expired_above n at [] a = tt
  expired_above n at ((p, ms) ∷ rest) a = ground (
    arith,
    keys_above n rest (Ascends-mono {m = n} {n = p + 1} rest (omega arith) a.1),
    expired_above n at rest (Ascends-mono {m = n} {n = p + 1} rest (omega arith) a.1),
  )

  expire_lem : (n at : ℕ) (q : WriteQueue D) → Ascends n q → expire at q ≡ take_kept at q
  unfolding expire
  expire_lem n at [] a = refl
  expire_lem n at ((p, ms) ∷ rest) a = elim (Bool-cases (is_kept at (p, ms))) [
    | inl e ↦
        rw (e, expired_keys)
          (remove_all-cons (p + 1) p ms (expired_keys at rest) rest (omega arith)
              (expired_above (p + 1) at rest a.1)
            ∙ ap (λ r. (p, ms) ∷ r) (expire_lem (p + 1) at rest a.1))
    | inr e ↦ rw (e, expired_keys) (remove-keys ((p, ms) ∷ rest))
  ]

  -- The head of the queue of a priority is due: high priority, or at most 60 whole seconds old.
  abbrev pub IsCurrent : ℕ → ℕ × List (Stamped D) → Type 0
  IsCurrent at (p, []) = Unit
  IsCurrent at (p, (t, d) ∷ ms) = (p < msg_drop_priority) ⊎ (at - t < 61000)

  -- The head of the queue of a priority is too old, and the priority one that may be dropped.
  abbrev pub IsStale : ℕ → ℕ × List (Stamped D) → Type 0
  IsStale at (p, []) = ⊥
  IsStale at (p, (t, d) ∷ ms) = (msg_drop_priority ≤ p) × (61000 ≤ at - t)

  is_kept→IsCurrent : (at : ℕ) (e : ℕ × List (Stamped D)) → is_kept at e ≡ true → IsCurrent at e
  unfolding is_kept
  is_kept→IsCurrent at (p, []) h = tt
  is_kept→IsCurrent at (p, (t, d) ∷ ms) h = ground arith

  not_kept→IsStale : (at : ℕ) (e : ℕ × List (Stamped D)) → is_kept at e ≡ false → IsStale at e
  unfolding is_kept
  not_kept→IsStale at (p, []) h = cc
  not_kept→IsStale at (p, (t, d) ∷ ms) h = ground arith

  take_kept-IsCurrent : (at : ℕ) (q : WriteQueue D) → All (IsCurrent at) (take_kept at q)
  take_kept-IsCurrent at [] = tt
  take_kept-IsCurrent at (e ∷ rest) = elim (Bool-cases (is_kept at e)) [
    | inl h ↦ rw h (is_kept→IsCurrent at e h, take_kept-IsCurrent at rest)
    | inr h ↦ rw h tt
  ]

  take-append-drop : (at : ℕ) (q : WriteQueue D) → q ≡ take_kept at q ++ drop_kept at q
  take-append-drop at [] = refl
  take-append-drop at (e ∷ rest) = elim (Bool-cases (is_kept at e)) [
    | inl h ↦ rw h (ap (λ r. e ∷ r) (take-append-drop at rest))
    | inr h ↦ rw h refl
  ]

  abbrev pub IsDroppable : ℕ → WriteQueue D → Type 0
  IsDroppable at [] = Unit
  IsDroppable at (e ∷ rest) = IsStale at e × All (λ k. msg_drop_priority ≤ k.0) (e ∷ rest)

  priorities_above : (n m : ℕ) (q : WriteQueue D) → m ≤ n → Ascends n q → All (λ k. m ≤ k.0) q
  priorities_above n m [] h a = tt
  priorities_above n m ((p, ms) ∷ rest) h a =
      (omega arith, priorities_above (p + 1) m rest (omega arith) a.1)

  IsStale-le : (at p : ℕ) (ms : List (Stamped D)) → IsStale at (p, ms) → msg_drop_priority ≤ p
  IsStale-le at p [] h = absurd h
  IsStale-le at p (m ∷ ms) h = h.0

  drop_kept-IsDroppable :
      (n at : ℕ) (q : WriteQueue D) → Ascends n q → IsDroppable at (drop_kept at q)
  drop_kept-IsDroppable n at [] a = tt
  drop_kept-IsDroppable n at ((p, ms) ∷ rest) a = elim (Bool-cases (is_kept at (p, ms))) [
    | inl h ↦ rw h (drop_kept-IsDroppable (p + 1) at rest a.1)
    | inr h ↦
        let st = not_kept→IsStale at (p, ms) h in
        let low = IsStale-le at p ms st in
        rw h (st, (low, priorities_above (p + 1) msg_drop_priority rest (omega arith) a.1))
  ]

  dropped_msgs-keys : (q : WriteQueue D) → dropped_msgs (keys q) q ≡ length (payloads q)
  unfolding dropped_msgs payloads
  dropped_msgs-keys [] = refl
  dropped_msgs-keys ((p, ms) ∷ rest) =
      rw (remove_head p ms rest, get_head p ms rest)
        (omega (
          arith,
          dropped_msgs-keys rest,
          length-append (map (λ m. m.1) ms) (payloads rest),
          length-map (λ (m : Stamped D). m.1) ms,
        ))

  dropped_msgs-cons :
      (p : ℕ) (ms : List (Stamped D)) (ps : List ℕ) (rest : WriteQueue D)
      → All (λ k. p + 1 ≤ k) ps
      → dropped_msgs ps ((p, ms) ∷ rest) ≡ dropped_msgs ps rest
  unfolding dropped_msgs remove get
  dropped_msgs-cons p ms [] rest a = refl
  dropped_msgs-cons p ms (k ∷ ps) rest a =
      ground (arith, dropped_msgs-cons p ms ps (remove k rest) a.1)

  dropped_msgs_lem :
      (n at : ℕ) (q : WriteQueue D)
      → Ascends n q
      → dropped_msgs (expired_keys at q) q ≡ length (payloads (drop_kept at q))
  unfolding dropped_msgs payloads expired_keys
  dropped_msgs_lem n at [] a = refl
  dropped_msgs_lem n at ((p, ms) ∷ rest) a = elim (Bool-cases (is_kept at (p, ms))) [
    | inl h ↦
        rw (h, expired_keys)
          (dropped_msgs-cons p ms (expired_keys at rest) rest (expired_above (p + 1) at rest a.1)
            ∙ dropped_msgs_lem (p + 1) at rest a.1)
    | inr h ↦ rw (h, expired_keys) (dropped_msgs-keys ((p, ms) ∷ rest))
  ]

  -- In a queue with ascending keys, dropping the expired part leaves a leading part whose heads
  -- are all current and takes the rest: it is empty or starts with a stale head, it holds no
  -- priority below `msg_drop_priority`, and `dropped_msgs` is the number of its messages.
  pub expire-split :
      (at : ℕ) (q : WriteQueue D)
      → Ascends 0 q
      → All (IsCurrent at) (expire at q)
        × ((dropped : WriteQueue D) × (q ≡ expire at q ++ dropped)
            × IsDroppable at dropped
            × (dropped_msgs (expired_keys at q) q ≡ length (payloads dropped)))
  expire-split at q a = rw (expire_lem 0 at q a) (
    take_kept-IsCurrent at q,
    (
      drop_kept at q,
      take-append-drop at q,
      drop_kept-IsDroppable 0 at q a,
      dropped_msgs_lem 0 at q a,
    ),
  )

  get-take_kept :
      (at n p : ℕ) (q : WriteQueue D)
      → Ascends n q
      → p < msg_drop_priority
      → get p (take_kept at q) ≡ get p q
  unfolding get
  get-take_kept at n p [] a h = refl
  get-take_kept at n p ((k, ms) ∷ rest) a h = elim (Bool-cases (is_kept at (k, ms))) [
    | inl e ↦ rw e (ap (λ r. if p == k then ms else r) (get-take_kept at (k + 1) p rest a.1 h))
    | inr e ↦
        let low = IsStale-le at k ms (not_kept→IsStale at (k, ms) e) in
        rw e (ground (arith, get_below (k + 1) p rest _ a.1))
  ]

  -- In a queue with ascending keys, messages of a priority below `msg_drop_priority` all stay.
  pub get-expire_high :
      (at p : ℕ) (q : WriteQueue D)
      → Ascends 0 q
      → p < msg_drop_priority
      → get p (expire at q) ≡ get p q
  get-expire_high at p q a h = rw (expire_lem 0 at q a) (get-take_kept at 0 p q a h)

  get-take_kept_any :
      (at n p : ℕ) (q : WriteQueue D)
      → Ascends n q
      → (get p (take_kept at q) ≡ get p q)
        ⊎ ((msg_drop_priority ≤ p) × (get p (take_kept at q) ≡ []))
  unfolding get
  get-take_kept_any at n p [] a = inl refl
  get-take_kept_any at n p ((k, ms) ∷ rest) a = elim (Bool-cases (is_kept at (k, ms))) [
    | inl e ↦ elim (get-take_kept_any at (k + 1) p rest a.1) [
      | inl h ↦ rw e (inl (ap (λ r. if p == k then ms else r) h))
      | inr (low, h) ↦ elim (Bool-cases (p == k)) [
        | inl here ↦ rw (e, here) (inl refl)
        | inr there ↦ rw (e, there) (inr (low, h))
      ]
    ]
    | inr e ↦
        let low = IsStale-le at k ms (not_kept→IsStale at (k, ms) e) in
        elim (dec_lt p k) [
          | yes h ↦ rw e (inl (ground (arith, get_below (k + 1) p rest _ a.1)))
          | no h ↦ rw e (inr (omega arith, refl))
        ]
  ]

  -- In a queue with ascending keys, the messages of a priority all stay, or the priority is one
  -- that may be dropped and they all go.
  pub get-expire :
      (at p : ℕ) (q : WriteQueue D)
      → Ascends 0 q
      → (get p (expire at q) ≡ get p q) ⊎ ((msg_drop_priority ≤ p) × (get p (expire at q) ≡ []))
  get-expire at p q a = rw (expire_lem 0 at q a) (get-take_kept_any at 0 p q a)

  take_kept-Ascends : (n at : ℕ) (q : WriteQueue D) → Ascends n q → Ascends n (take_kept at q)
  take_kept-Ascends n at [] a = tt
  take_kept-Ascends n at ((p, ms) ∷ rest) a = elim (Bool-cases (is_kept at (p, ms))) [
    | inl e ↦ rw e (a.0, take_kept-Ascends (p + 1) at rest a.1)
    | inr e ↦ rw e tt
  ]

  pub expire-Ascends : (at : ℕ) (q : WriteQueue D) → Ascends 0 q → Ascends 0 (expire at q)
  expire-Ascends at q a = rw (expire_lem 0 at q a) (take_kept-Ascends 0 at q a)
