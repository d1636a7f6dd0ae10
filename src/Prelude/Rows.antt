-- ===== src/Prelude/Rows.antt =====
-- Laws of the table operations of Prelude/Lists.
use Prim.Native.Nat.{suc}
use mathlib.Core.Path.{◌≡◌, refl, ap, subst⁻¹}
use mathlib.Core.Logic.{inl, inr}
use mathlib.Core.Bool.{Bool, true, false, ◌||◌}
use mathlib.Core.Option.{none, some}
use mathlib.Core.List.{List, [], ◌∷◌, ◌++◌, Memᴰ}
use native.Mathlib.Omega.{arith}
use ff_indexer.Prelude.Tests.{Bool-cases}
use ff_indexer.Prelude.Lists.{length, All, exists, find_first, update_first, update_all, remove_all}

module _ {ℓ} {A : Type ℓ} where
  pub All-append {κ} : (P : A → Type κ) (xs ys : List A) → All P xs → All P ys → All P (xs ++ ys)
  All-append P [] ys h k = k
  All-append P (x ∷ xs) ys h k = (h.0, All-append P xs ys h.1 k)

  pub All-map {κ κ'} :
      (P : A → Type κ) (Q : A → Type κ')
      → ((a : A) → P a → Q a)
      → (xs : List A) → All P xs
      → All Q xs
  All-map P Q f [] h = tt
  All-map P Q f (x ∷ xs) h = (f x h.0, All-map P Q f xs h.1)

  pub All-of_mem {κ} : (P : A → Type κ) (xs : List A) (a : A) → All P xs → Memᴰ a xs → P a
  All-of_mem P [] a h m = elim m [ ]
  All-of_mem P (x ∷ xs) a h (Memᴰ.head e) = subst⁻¹ P e h.0
  All-of_mem P (x ∷ xs) a h (Memᴰ.tail m) = All-of_mem P xs a h.1 m

  pub All-remove_all {κ} :
      (P : A → Type κ) (p : A → Bool) (xs : List A) → All P xs → All P (remove_all p xs)
  unfolding remove_all
  All-remove_all P p [] h = tt
  All-remove_all P p (x ∷ xs) h = elim (Bool-cases (p x)) [
    | inl e ↦ rw e (All-remove_all P p xs h.1)
    | inr e ↦ rw e (h.0, All-remove_all P p xs h.1)
  ]

module _ {ℓ} {A : Type ℓ} (p : A → Bool) where
  pub exists-append : (xs : List A) (a : A) → exists p (xs ++ a ∷ []) ≡ (exists p xs || p a)
  unfolding exists
  exists-append [] a = ground arith
  exists-append (x ∷ xs) a = rw (exists-append xs a) (ground arith)

  pub length-update_all : (f : A → A) (xs : List A) → length (update_all p f xs) ≡ length xs
  unfolding update_all
  length-update_all f [] = refl
  length-update_all f (x ∷ xs) = ap suc (length-update_all f xs)

  pub length-update_first : (f : A → A) (xs : List A) → length (update_first p f xs) ≡ length xs
  unfolding update_first
  length-update_first f [] = refl
  length-update_first f (x ∷ xs) = ground (arith, length-update_first f xs)

  -- What no row passes is removed from no row.
  pub remove_all-none : (xs : List A) → exists p xs ≡ false → remove_all p xs ≡ xs
  unfolding exists remove_all
  remove_all-none [] h = refl
  remove_all-none (x ∷ xs) h = ground (arith, remove_all-none xs)

  pub exists-remove_all : (xs : List A) → exists p (remove_all p xs) ≡ false
  unfolding exists remove_all
  exists-remove_all [] = refl
  exists-remove_all (x ∷ xs) = ground (arith, exists-remove_all xs)

  -- A change of the rows that pass, which keeps them passing, is lost when they are removed.
  pub remove_all-update_all :
      (f : A → A) (keeps : (x : A) → p (f x) ≡ p x) (xs : List A)
      → remove_all p (update_all p f xs) ≡ remove_all p xs
  unfolding remove_all update_all
  remove_all-update_all f keeps [] = refl
  remove_all-update_all f keeps (x ∷ xs) = ground (arith, keeps x, remove_all-update_all f keeps xs)

  -- A found element passes, and some element is found where one passes.
  pub find_first_lem : (xs : List A) {a : A} → find_first p xs ≡ some a → p a ≡ true
  unfolding find_first
  find_first_lem [] h = ground arith
  find_first_lem (x ∷ xs) {a} h = elim (Bool-cases (p x)) [
    | inl e ↦ ground arith
    | inr e ↦ find_first_lem xs (ground arith)
  ]

  pub find_first-none : (xs : List A) → exists p xs ≡ false → find_first p xs ≡ none
  unfolding exists find_first
  find_first-none [] h = refl
  find_first-none (x ∷ xs) h = ground (arith, find_first-none xs)

  pub exists-of_found : (xs : List A) {a : A} → find_first p xs ≡ some a → exists p xs ≡ true
  unfolding exists find_first
  exists-of_found [] h = ground arith
  exists-of_found (x ∷ xs) {a} h = elim (Bool-cases (p x)) [
    | inl e ↦ rw e
    | inr e ↦ rw e (exists-of_found xs {a = a} (ground arith))
  ]
