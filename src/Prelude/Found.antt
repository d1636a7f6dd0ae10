-- ===== src/Prelude/Found.antt =====
-- What a search finds in a table after rows that it does not look for are changed or added.
use mathlib.Core.Path.{◌≡◌, refl, subst⁻¹}
use mathlib.Core.Logic.{inl, inr}
use mathlib.Core.Bool.{Bool, true, false}
use mathlib.Core.Option.{some, some-injective}
use mathlib.Core.List.{List, [], ◌∷◌, ◌++◌}
use native.Mathlib.Omega.{arith}
use ff_indexer.Prelude.Tests.{Bool-cases}
use ff_indexer.Prelude.Lists.{exists, find_first, update_first, update_all}

module _ {ℓ} {A : Type ℓ} (q : A → Bool) where
  pub find_first-append :
      (xs ys : List A) {t : A} → find_first q xs ≡ some t → find_first q (xs ++ ys) ≡ some t
  unfolding find_first
  find_first-append [] ys h = cc
  find_first-append (x ∷ xs) ys {t} h = elim (Bool-cases (q x)) [
    | inl e ↦ ground arith
    | inr e ↦ rw e (find_first-append xs ys {t = t} (ground arith))
  ]

  pub find_first-added :
      (xs : List A) (t : A)
      → exists q xs ≡ false
      → q t ≡ true
      → find_first q (xs ++ t ∷ []) ≡ some t
  unfolding find_first exists
  find_first-added [] t h e = rw e
  find_first-added (x ∷ xs) t h e = ground (arith, find_first-added xs t)

  -- The changed row passes neither before nor after.
  pub find_first-update_other :
      (p : A → Bool) (f : A → A)
      → ((x : A) → p x ≡ true → q x ≡ false)
      → ((x : A) → p x ≡ true → q (f x) ≡ false)
      → (xs : List A) → find_first q (update_first p f xs) ≡ find_first q xs
  unfolding find_first update_first
  find_first-update_other p f before after [] = refl
  find_first-update_other p f before after (x ∷ xs) = elim (Bool-cases (p x)) [
    | inl e ↦ rw (e, before x e, after x e)
    | inr e ↦ rw (e, find_first-update_other p f before after xs)
  ]

  -- All rows that pass are changed to rows that do not.
  pub exists-update_all :
      (f : A → A)
      → ((x : A) → q x ≡ true → q (f x) ≡ false)
      → (xs : List A) → exists q (update_all q f xs) ≡ false
  unfolding exists update_all
  exists-update_all f after [] = refl
  exists-update_all f after (x ∷ xs) = elim (Bool-cases (q x)) [
    | inl e ↦ rw (e, after x e, exists-update_all f after xs)
    | inr e ↦ rw (e, e, exists-update_all f after xs)
  ]

  pub found-of_exists : (xs : List A) → exists q xs ≡ true → (t : A) × (find_first q xs ≡ some t)
  unfolding exists find_first
  found-of_exists [] h = cc
  found-of_exists (x ∷ xs) h = elim (Bool-cases (q x)) [
    | inl e ↦ (x, rw e)
    | inr e ↦ let (t, found) = found-of_exists xs (ground arith) in (t, rw e found)
  ]

  -- The row that was found passes another test too.
  pub exists-of_passing :
      (p : A → Bool) (xs : List A) {t : A}
      → find_first q xs ≡ some t
      → p t ≡ true
      → exists p xs ≡ true
  unfolding find_first exists
  exists-of_passing p [] h e = cc
  exists-of_passing p (x ∷ xs) {t} h e = elim (Bool-cases (q x)) [
    | inl qx ↦ rw (subst⁻¹ (λ y. p y ≡ true) (some-injective x t (ground arith)) e)
    | inr qx ↦ ground (arith, exists-of_passing p xs {t = t})
  ]
