-- ===== src/Prelude/Growth.antt =====
-- A table after a series of changes: its rows stay at their places, each related to what it was,
-- and rows may be added at the end.
use mathlib.Core.Path.{◌≡◌}
use mathlib.Core.Logic.{inl, inr}
use mathlib.Core.Bool.{Bool, true}
use mathlib.Core.Option.{some, some-injective}
use mathlib.Core.List.{List, [], ◌∷◌, ◌++◌}
use mathlib.Core.Path.{subst⁻¹}
use native.Mathlib.Omega.{arith}
use ff_indexer.Prelude.Tests.{Bool-cases}
use ff_indexer.Prelude.Lists.{find_first, update_first}

abbrev pub Grown {ℓ} : {A : Type ℓ} → (A → A → Type 0) → List A → List A → Type 0
Grown R [] ys = Unit
Grown R (x ∷ xs) [] = ⊥
Grown R (x ∷ xs) (y ∷ ys) = R x y × Grown R xs ys

module _ {ℓ} {A : Type ℓ} (R : A → A → Type 0) (same : (x : A) → R x x) where
  pub Grown-refl : (xs : List A) → Grown R xs xs
  Grown-refl [] = tt
  Grown-refl (x ∷ xs) = (same x, Grown-refl xs)

  pub Grown-append : (xs ys : List A) → Grown R xs (xs ++ ys)
  Grown-append [] ys = tt
  Grown-append (x ∷ xs) ys = (same x, Grown-append xs ys)

  -- A change of the row that was found.
  pub Grown-update_first :
      (p : A → Bool) (f : A → A) (xs : List A) {t : A}
      → find_first p xs ≡ some t
      → R t (f t)
      → Grown R xs (update_first p f xs)
  unfolding find_first update_first
  Grown-update_first p f [] h r = tt
  Grown-update_first p f (x ∷ xs) {t} h r = elim (Bool-cases (p x)) [
    | inl e ↦ rw e (subst⁻¹ (λ y. R y (f y)) (some-injective x t (ground arith)) r, Grown-refl xs)
    | inr e ↦ rw e (same x, Grown-update_first p f xs {t = t} (ground arith) r)
  ]

  pub Grown-trans :
      ((x y z : A) → R x y → R y z → R x z)
      → (xs ys zs : List A) → Grown R xs ys
      → Grown R ys zs
      → Grown R xs zs
  Grown-trans compose [] ys zs g h = tt
  Grown-trans compose (x ∷ xs) [] zs g h = elim g [ ]
  Grown-trans compose (x ∷ xs) (y ∷ ys) [] g h = elim h [ ]
  Grown-trans compose (x ∷ xs) (y ∷ ys) (z ∷ zs) g h =
      (compose x y z g.0 h.0, Grown-trans compose xs ys zs g.1 h.1)

  -- A change of whichever row passes.
  pub Grown-update_passing :
      (p : A → Bool) (f : A → A)
      → ((x : A) → p x ≡ true → R x (f x))
      → (xs : List A) → Grown R xs (update_first p f xs)
  unfolding update_first
  Grown-update_passing p f h [] = tt
  Grown-update_passing p f h (x ∷ xs) = elim (Bool-cases (p x)) [
    | inl e ↦ rw e (h x e, Grown-refl xs)
    | inr e ↦ rw e (same x, Grown-update_passing p f h xs)
  ]
