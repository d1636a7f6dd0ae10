-- ===== src/Prelude/Updates.antt =====
-- What a change of the first row that passes a test does to a table, seen through another test.
use mathlib.Core.Path.{◌≡◌, refl}
use mathlib.Core.Logic.{◌⊎◌, inl, inr}
use mathlib.Core.Bool.{Bool, true, false}
use mathlib.Core.Option.{some}
use mathlib.Core.List.{List, [], ◌∷◌}
use native.Mathlib.Omega.{arith}
use ff_indexer.Prelude.Tests.{Bool-cases}
use ff_indexer.Prelude.Lists.{All, exists, find_first, update_first}

-- `p` passes only what `q` passes.
abbrev pub Implies {ℓ} : {A : Type ℓ} → (A → Bool) → (A → Bool) → Type ℓ
Implies p q = (x : _) → p x ≡ true → q x ≡ true

-- The two tables have related rows at each place.
abbrev pub Pointwise {ℓ} : {A : Type ℓ} → (A → A → Type 0) → List A → List A → Type 0
Pointwise R [] [] = Unit
Pointwise R [] (y ∷ ys) = ⊥
Pointwise R (x ∷ xs) [] = ⊥
Pointwise R (x ∷ xs) (y ∷ ys) = R x y × Pointwise R xs ys

module _ {ℓ} {A : Type ℓ} (p : A → Bool) (f : A → A) where
  pub All-update_first {κ} :
      (P : A → Type κ)
      → ((x : A) → p x ≡ true → P x → P (f x))
      → (xs : List A) → All P xs
      → All P (update_first p f xs)
  unfolding update_first
  All-update_first P h [] all = tt
  All-update_first P h (x ∷ xs) all = elim (Bool-cases (p x)) [
    | inl e ↦ rw e (h x e all.0, all.1)
    | inr e ↦ rw e (all.0, All-update_first P h xs all.1)
  ]

  pub Pointwise-update_first :
      (R : A → A → Type 0)
      → ((x : A) → R x x)
      → ((x : A) → p x ≡ true → R x (f x))
      → (xs : List A) → Pointwise R xs (update_first p f xs)
  unfolding update_first
  Pointwise-update_first R same h [] = tt
  Pointwise-update_first R same h (x ∷ xs) = elim (Bool-cases (p x)) [
    | inl e ↦ rw e (h x e, Pointwise_refl xs)
    | inr e ↦ rw e (same x, Pointwise-update_first R same h xs)
  ]
    where
      Pointwise_refl : (ys : List A) → Pointwise R ys ys
      Pointwise_refl [] = tt
      Pointwise_refl (y ∷ ys) = (same y, Pointwise_refl ys)

  -- Where no row passes, nothing changes.
  pub update_first-none : (xs : List A) → exists p xs ≡ false → update_first p f xs ≡ xs
  unfolding exists update_first
  update_first-none [] h = refl
  update_first-none (x ∷ xs) h = ground (arith, update_first-none xs)

  module _ (q : A → Bool) (pq : Implies p q) where
    -- The first row of `q` passes `p`, so it is the row that is changed.
    pub find_first-update_first :
        (xs : List A) {t : A}
        → find_first q xs ≡ some t
        → p t ≡ true
        → q (f t) ≡ true
        → find_first q (update_first p f xs) ≡ some (f t)
    unfolding find_first update_first
    find_first-update_first [] h e g = cc
    find_first-update_first (x ∷ xs) {t} h e g = elim (Bool-cases (q x)) [
      | inl qx ↦ ground arith
      | inr qx ↦ ground (arith, pq x, find_first-update_first xs {t = t})
    ]

-- At most one row passes.
abbrev pub AtMostOne {ℓ} : {A : Type ℓ} → (A → Bool) → List A → Type 0
AtMostOne q [] = Unit
AtMostOne q (x ∷ xs) = ((q x ≡ false) ⊎ (exists q xs ≡ false)) × AtMostOne q xs

module _ {ℓ} {A : Type ℓ} (p q : A → Bool) (pq : Implies p q) where
  pub exists-of_implied : (xs : List A) → exists q xs ≡ false → exists p xs ≡ false
  unfolding exists
  exists-of_implied [] h = refl
  exists-of_implied (x ∷ xs) h = ground (arith, pq x, exists-of_implied xs)

  -- The one row of `q` does not pass `p`, so no row does.
  pub exists-of_only :
      (xs : List A) {t : A}
      → AtMostOne q xs
      → find_first q xs ≡ some t
      → p t ≡ false
      → exists p xs ≡ false
  unfolding find_first exists
  exists-of_only [] u h e = refl
  exists-of_only (x ∷ xs) {t} u h e = elim (Bool-cases (q x)) [
    | inl qx ↦ ground (arith, u.0, exists-of_implied xs)
    | inr qx ↦ ground (arith, pq x, exists-of_only xs {t = t} u.1)
  ]

-- The row that was changed is the only row of `q`, and what it became does not pass.
module _ {ℓ} {A : Type ℓ} (p p' q : A → Bool) (f : A → A) (pq : Implies p q)
    (pq' : Implies p' q) where
  pub exists-update_first :
      ((x : A) → p' (f x) ≡ false)
      → (xs : List A) → AtMostOne q xs
      → exists p xs ≡ true
      → exists p' (update_first p f xs) ≡ false
  unfolding exists update_first
  exists-update_first gone [] u h = refl
  exists-update_first gone (x ∷ xs) u h = elim (Bool-cases (p x)) [
    | inl px ↦ ground (arith, gone x, pq x, u.0, exists-of_implied p' q pq' xs)
    | inr px ↦
        ground (arith, u.0, pq' x, exists-of_implied p q pq xs, exists-update_first gone xs u.1)
  ]
