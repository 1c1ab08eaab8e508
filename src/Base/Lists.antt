-- ===== src/Base/Lists.antt =====
-- Lists over the native numbers, and Boolean walks that the libraries' `Dec` versions do not offer.
use Prim.Native.Nat.{ℕ, suc, ◌+◌}
use mathlib.Core.Path.{◌≡◌, refl, ap, sym, subst, ◌∙◌}
use mathlib.Core.Bool.{Bool, false, ◌||◌}
use mathlib.Core.Option.{Option, none, some}
use mathlib.Core.List.{List, [], ◌∷◌, ◌++◌, map, Memᴰ}
use native.Mathlib.Omega.{arith}
use crust_futures.Base.Bools.{if◌then◌else◌}

module _ {ℓ} {A : Type ℓ} where
  -- `Iterator::count` and `len`.
  abbrev pub length : List A → ℕ
  length [] = 0
  length (x ∷ xs) = suc (length xs)

  -- `Iterator::filter` and `retain`.
  abbrev pub keep : (A → Bool) → List A → List A
  keep p [] = []
  keep p (x ∷ xs) = if p x then x ∷ keep p xs else keep p xs

  abbrev pub any : (A → Bool) → List A → Bool
  any p [] = false
  any p (x ∷ xs) = p x || any p xs

  abbrev pub All {κ} : (A → Type κ) → List A → Type κ
  All P [] = Unit
  All P (x ∷ xs) = P x × All P xs

  -- The values that are there.
  abbrev pub somes : List (Option A) → List A
  somes [] = []
  somes (none ∷ os) = somes os
  somes (some x ∷ os) = x ∷ somes os

  pub of_Memᴰ-somes : (os : List (Option A)) (x : A) → Memᴰ x (somes os) → Memᴰ (some x) os
  of_Memᴰ-somes [] x m = elim m [ ]
  of_Memᴰ-somes (none ∷ os) x m = Memᴰ.tail (of_Memᴰ-somes os x m)
  of_Memᴰ-somes (some y ∷ os) x (Memᴰ.head e) = Memᴰ.head (ap some e)
  of_Memᴰ-somes (some y ∷ os) x (Memᴰ.tail m) = Memᴰ.tail (of_Memᴰ-somes os x m)

  pub Memᴰ-somes : (os : List (Option A)) (x : A) → Memᴰ (some x) os → Memᴰ x (somes os)
  Memᴰ-somes [] x m = elim m [ ]
  Memᴰ-somes (none ∷ os) x (Memᴰ.head e) = cc
  Memᴰ-somes (none ∷ os) x (Memᴰ.tail m) = Memᴰ-somes os x m
  Memᴰ-somes (some y ∷ os) x (Memᴰ.head e) = let q : x ≡ y = cc in Memᴰ.head q
  Memᴰ-somes (some y ∷ os) x (Memᴰ.tail m) = Memᴰ.tail (Memᴰ-somes os x m)

  pub length-append : (xs ys : List A) → length (xs ++ ys) ≡ length xs + length ys
  length-append [] ys = omega arith
  length-append (x ∷ xs) ys = omega (arith, length-append xs ys)

  pub keep-append : (p : A → Bool) (xs ys : List A) → keep p (xs ++ ys) ≡ keep p xs ++ keep p ys
  keep-append p [] ys = refl
  keep-append p (x ∷ xs) ys = ground (arith, keep-append p xs ys)

module _ {ℓ κ} {A : Type ℓ} {B : Type κ} where
  -- Functions that agree on a list.
  pub map-agree :
      (f g : A → B) (xs : List A) → ((x : A) → Memᴰ x xs → f x ≡ g x) → map f xs ≡ map g xs
  map-agree f g [] h = refl
  map-agree f g (x ∷ xs) h =
      ap (λ y. y ∷ map f xs) (h x (Memᴰ.head refl))
      ∙ ap (λ ys. g x ∷ ys) (map-agree f g xs (λ y m. h y (Memᴰ.tail m)))

module _ {ℓ κ} {A : Type ℓ} {B : Type κ} (f : A → B) where
  pub Memᴰ-map : (xs : List A) (x : A) → Memᴰ x xs → Memᴰ (f x) (map f xs)
  Memᴰ-map [] x m = elim m [ ]
  Memᴰ-map (y ∷ ys) x (Memᴰ.head e) = Memᴰ.head (ap f e)
  Memᴰ-map (y ∷ ys) x (Memᴰ.tail m) = Memᴰ.tail (Memᴰ-map ys x m)

  pub of_Memᴰ-map : (xs : List A) (y : B) → Memᴰ y (map f xs) → (x : A) × (y ≡ f x) × Memᴰ x xs
  of_Memᴰ-map [] y m = elim m [ ]
  of_Memᴰ-map (x ∷ xs) y (Memᴰ.head e) = (x, e, Memᴰ.head refl)
  of_Memᴰ-map (x ∷ xs) y (Memᴰ.tail m) =
      let (x', e, m') = of_Memᴰ-map xs y m in (x', e, Memᴰ.tail m')

module _ {ℓ} {A : Type ℓ} where
  pub length-map {κ} : {B : Type κ} (f : A → B) (xs : List A) → length (map f xs) ≡ length xs
  length-map f [] = refl
  length-map f (x ∷ xs) = ap suc (length-map f xs)

module _ {ℓ κ} {A : Type ℓ} (P : A → Type κ) where
  pub All-at : (xs : List A) (x : A) → All P xs → Memᴰ x xs → P x
  All-at [] x h m = elim m [ ]
  All-at (y ∷ ys) x h (Memᴰ.head e) = subst P (sym e) h.0
  All-at (y ∷ ys) x h (Memᴰ.tail m) = All-at ys x h.1 m

  pub All-of : (xs : List A) → ((x : A) → Memᴰ x xs → P x) → All P xs
  All-of [] h = tt
  All-of (y ∷ ys) h = (h y (Memᴰ.head refl), All-of ys (λ x m. h x (Memᴰ.tail m)))
