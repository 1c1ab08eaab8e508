-- ===== src/WithTimeout.antt =====
-- tokio-utils/src/with_timeout.rs: a future with a time limit. A future is what its polls give, in
-- order; the time limit is asked first at each poll.
use crust_futures.Base.{
  ℕ, ◌≡◌, ap, ◌∙◌, ◌≤◌, ◌<◌, List, [], ◌∷◌, ◌++◌, true, false, leb, Result, ok, err, Async, ready,
  not_ready, if◌then◌else◌, Option, none, some, arith, All,
}

-- A poll of the future: the time of the poll, and what the future would give then.
abbrev pub Turn : Type 0 → Type 0 → Type 0
Turn E A = ℕ × Result E (Async A)

module _ {E A : Type 0} where
  -- `WithTimeout::poll`, with the deadline and the error.
  unfoldable pub poll : ℕ → E → Turn E A → Result E (Async A)
  poll deadline error (now, future) = if leb deadline now then err error else future

  resolve : Result E (Async A) → Option (Result E A) → Option (Result E A)
  resolve (ok (ready a)) rest = some (ok a)
  resolve (ok not_ready) rest = rest
  resolve (err e) rest = some (err e)

  -- The polls up to the one that resolves; `none` if none does.
  unfoldable pub run : ℕ → E → List (Turn E A) → Option (Result E A)
  unfolding poll resolve
  run deadline error [] = none
  run deadline error (t ∷ ts) =
      let rest = run deadline error ts in resolve (poll deadline error t) rest

  abbrev pub IsPending : Result E (Async A) → Type 0
  IsPending (ok (ready a)) = ⊥
  IsPending (ok not_ready) = Unit {0}
  IsPending (err e) = ⊥

  -- A future that is pending at all polls before its deadline fails with the given error at the first
  -- poll from the deadline on, whatever it would have given then.
  pub run_late :
      (deadline : ℕ) (error : E) (early : List (Turn E A)) (t : Turn E A) (later : List (Turn E A))
      → All (λ u. (u.0 < deadline) × IsPending u.1) early
      → deadline ≤ t.0
      → run deadline error (early ++ t ∷ later) ≡ some (err error)
  unfolding run
  run_late deadline error [] (now, future) later h late =
      let e : leb deadline now ≡ true = ground (arith, late) in
      ap (λ b. resolve (if b then err error else future) (run deadline error later)) e
  run_late deadline error ((now, ok not_ready) ∷ early) t later h late =
      let e : leb deadline now ≡ false = ground (arith, h.0.0) in
      ap
        (λ b.
          resolve (if b then err error else ok not_ready) (run deadline error (early ++ t ∷ later)))
        e
      ∙ run_late deadline error early t later h.1 late
  run_late deadline error ((now, ok (ready a)) ∷ early) t later h late = absurd h.0.1
  run_late deadline error ((now, err e) ∷ early) t later h late = absurd h.0.1
