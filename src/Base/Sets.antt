-- ===== src/Base/Sets.antt =====
-- Equality tests from decisions, and `HashSet` as a list that is asked for membership.
use mathlib.Core.Path.{◌≡◌, refl, sym, ap, ◌∙◌}
use mathlib.Core.Logic.{◌≢◌, inl, inr, ◌⊎◌, ite, if_pos, if_neg}
use mathlib.Core.Bool.{Bool, true, false, ◌&&◌, ◌||◌}
use mathlib.Core.List.{List, [], ◌∷◌, ◌++◌, Memᴰ}
use crust_futures.Base.Bools.{Bool-cases}
use crust_futures.Base.Lists.{keep}

module _ {ℓ} {A : Type ℓ} (d : Discrete A) where
  unfoldable pub same : A → A → Bool
  same x y = ite (d x y) true false

  pub same→eq : (x y : A) → same x y ≡ true → x ≡ y
  unfolding same
  same→eq x y h = elim (d x y) [
    | yes e ↦ e
    | no ne ↦ absurd_false (sym (if_neg (d x y) ne _ _) ∙ h)
  ]
    where
      absurd_false : false ≡ true → x ≡ y
      absurd_false e = cc

  pub eq→same : (x y : A) → x ≡ y → same x y ≡ true
  unfolding same
  eq→same x y e = if_pos (d x y) e true false

  pub ne→same : (x y : A) → x ≢ y → same x y ≡ false
  unfolding same
  ne→same x y ne = if_neg (d x y) ne true false

  unfoldable pub contains : List A → A → Bool
  contains [] x = false
  contains (y ∷ ys) x = same y x || contains ys x

  pub contains→Memᴰ : (xs : List A) (x : A) → contains xs x ≡ true → Memᴰ x xs
  unfolding contains
  contains→Memᴰ [] x h = cc
  contains→Memᴰ (y ∷ ys) x h = elim (Bool-cases (same y x)) [
    | inl e ↦ Memᴰ.head (sym (same→eq y x e))
    | inr e ↦ Memᴰ.tail (contains→Memᴰ ys x (rw e at h))
  ]

  pub Memᴰ→contains : (xs : List A) (x : A) → Memᴰ x xs → contains xs x ≡ true
  unfolding contains
  Memᴰ→contains [] x m = elim m [ ]
  Memᴰ→contains (y ∷ ys) x (Memᴰ.head e) = rw (eq→same y x (sym e)) refl
  Memᴰ→contains (y ∷ ys) x (Memᴰ.tail m) = elim (Bool-cases (same y x)) [
    | inl e ↦ rw e refl
    | inr e ↦ rw e (Memᴰ→contains ys x m)
  ]

  all_in : List A → List A → Bool
  all_in [] ys = true
  all_in (x ∷ xs) ys = contains ys x && all_in xs ys

  -- Equality of `HashSet`s.
  unfoldable pub same_set : List A → List A → Bool
  unfolding all_in
  same_set xs ys = all_in xs ys && all_in ys xs

  all_in_of_Memᴰ : (xs ys : List A) → ((x : A) → Memᴰ x xs → Memᴰ x ys) → all_in xs ys ≡ true
  unfolding all_in
  all_in_of_Memᴰ [] ys h = refl
  all_in_of_Memᴰ (x ∷ xs) ys h =
      rw (Memᴰ→contains ys x (h x (Memᴰ.head refl)))
        (all_in_of_Memᴰ xs ys (λ z m. h z (Memᴰ.tail m)))

  pub same_set_refl : (xs : List A) → same_set xs xs ≡ true
  unfolding same_set
  same_set_refl xs = rw (all_in_of_Memᴰ xs xs (λ x m. m)) refl

pub Memᴰ-cons {ℓ} : {A : Type ℓ} {x y : A} {ys : List A} → Memᴰ x (y ∷ ys) → (x ≡ y) ⊎ Memᴰ x ys
Memᴰ-cons (Memᴰ.head e) = inl e
Memᴰ-cons (Memᴰ.tail m) = inr m

module _ {ℓ} {A : Type ℓ} (p : A → Bool) where
  pub Memᴰ-keep_of : (xs : List A) (x : A) → Memᴰ x xs → p x ≡ true → Memᴰ x (keep p xs)
  Memᴰ-keep_of [] x m h = elim m [ ]
  Memᴰ-keep_of (y ∷ ys) x m h = elim (Bool-cases (p y)) [
    | inl e ↦
        rw e
          (elim (Memᴰ-cons m) [ inl q ↦ Memᴰ.head q | inr m' ↦ Memᴰ.tail (Memᴰ-keep_of ys x m' h) ])
    | inr e ↦ elim (Memᴰ-cons m) [
      | inl q ↦ let clash : false ≡ true = sym e ∙ (ap p (sym q) ∙ h) in cc
      | inr m' ↦ rw e (Memᴰ-keep_of ys x m' h)
    ]
  ]

  pub of_Memᴰ-keep : (xs : List A) (x : A) → Memᴰ x (keep p xs) → Memᴰ x xs × (p x ≡ true)
  of_Memᴰ-keep [] x m = elim m [ ]
  of_Memᴰ-keep (y ∷ ys) x m = elim (Bool-cases (p y)) [
    | inr e ↦ let (m', h) = of_Memᴰ-keep ys x (rw e at m) in (Memᴰ.tail m', h)
    | inl e ↦ elim (Memᴰ-cons (rw e at m)) [
      | inl q ↦ (Memᴰ.head q, ap p q ∙ e)
      | inr m' ↦ let (m'', h) = of_Memᴰ-keep ys x m' in (Memᴰ.tail m'', h)
    ]
  ]

module _ {ℓ} {A : Type ℓ} where
  pub Memᴰ-append_left : (xs ys : List A) (x : A) → Memᴰ x xs → Memᴰ x (xs ++ ys)
  Memᴰ-append_left [] ys x m = elim m [ ]
  Memᴰ-append_left (z ∷ zs) ys x (Memᴰ.head e) = Memᴰ.head e
  Memᴰ-append_left (z ∷ zs) ys x (Memᴰ.tail m) = Memᴰ.tail (Memᴰ-append_left zs ys x m)

  pub Memᴰ-append_right : (xs ys : List A) (x : A) → Memᴰ x ys → Memᴰ x (xs ++ ys)
  Memᴰ-append_right [] ys x m = m
  Memᴰ-append_right (z ∷ zs) ys x m = Memᴰ.tail (Memᴰ-append_right zs ys x m)

  pub of_Memᴰ-append : (xs ys : List A) (x : A) → Memᴰ x (xs ++ ys) → Memᴰ x xs ⊎ Memᴰ x ys
  of_Memᴰ-append [] ys x m = inr m
  of_Memᴰ-append (z ∷ zs) ys x (Memᴰ.head e) = inl (Memᴰ.head e)
  of_Memᴰ-append (z ∷ zs) ys x (Memᴰ.tail m) = elim (of_Memᴰ-append zs ys x m) [
    | inl h ↦ inl (Memᴰ.tail h)
    | inr h ↦ inr h
  ]
