-- ===== src/Prelude/Slices.antt =====
-- Slices of lists: what stands before and after a position.
use Prim.Native.Nat.{ℕ, zero, suc, ◌+◌, ◌-◌, ◌≤◌, ◌<◌}
use mathlib.Core.Path.{◌≡◌, refl, ap}
use mathlib.Core.List.{List, [], ◌∷◌, ◌++◌}
use native.Mathlib.Omega.{arith}
use ff_indexer.Prelude.Lists.{length}

module _ {ℓ} {A : Type ℓ} where
  unfoldable pub take : ℕ → List A → List A
  take zero l = []
  take (suc n) [] = []
  take (suc n) (x ∷ l) = x ∷ take n l

  unfoldable pub drop : ℕ → List A → List A
  drop zero l = l
  drop (suc n) [] = []
  drop (suc n) (x ∷ l) = drop n l

  pub append_nil : (l : List A) → l ++ [] ≡ l
  append_nil [] = refl
  append_nil (x ∷ l) = ap (λ r. x ∷ r) (append_nil l)

  pub append_assoc : (a b c : List A) → (a ++ b) ++ c ≡ a ++ (b ++ c)
  append_assoc [] b c = refl
  append_assoc (x ∷ a) b c = ap (λ r. x ∷ r) (append_assoc a b c)

  pub take-drop : (n : ℕ) (l : List A) → take n l ++ drop n l ≡ l
  unfolding take drop
  take-drop zero l = refl
  take-drop (suc n) [] = refl
  take-drop (suc n) (x ∷ l) = ap (λ r. x ∷ r) (take-drop n l)

  pub take_add : (m n k : ℕ) (l : List A) → m + n ≡ k → take m l ++ take n (drop m l) ≡ take k l
  unfolding take drop
  take_add zero n k l e = let same : n ≡ k = omega arith in ap (λ i. take i l) same
  take_add (suc m) n zero l e = absurd (omega arith)
  take_add (suc m) zero (suc k) [] e = refl
  take_add (suc m) (suc n) (suc k) [] e = refl
  take_add (suc m) n (suc k) (x ∷ l) e = ap (λ r. x ∷ r) (take_add m n k l (omega arith))

  pub drop-drop : (m n k : ℕ) (l : List A) → m + n ≡ k → drop n (drop m l) ≡ drop k l
  unfolding drop
  drop-drop zero n k l e = let same : n ≡ k = omega arith in ap (λ i. drop i l) same
  drop-drop (suc m) n zero l e = absurd (omega arith)
  drop-drop (suc m) zero (suc k) [] e = refl
  drop-drop (suc m) (suc n) (suc k) [] e = refl
  drop-drop (suc m) n (suc k) (x ∷ l) e = drop-drop m n k l (omega arith)

  -- All of a list that is short enough is taken.
  pub take_all : (n : ℕ) (l : List A) → length l ≤ n → take n l ≡ l
  unfolding take
  take_all zero [] h = refl
  take_all zero (x ∷ l) h = absurd (omega arith)
  take_all (suc n) [] h = refl
  take_all (suc n) (x ∷ l) h = ap (λ r. x ∷ r) (take_all n l (omega arith))

  -- A slice that is shorter than its bound is all there is.
  pub short_take : (n m : ℕ) (l : List A) → m ≤ n → length (take n l) < m → length l < m
  unfolding take
  short_take zero m l le h = absurd (omega arith)
  short_take (suc n) m [] le h = h
  short_take (suc n) zero (x ∷ l) le h = absurd (omega arith)
  short_take (suc n) (suc m) (x ∷ l) le h =
      let rest = short_take n m l (omega arith) (omega arith) in omega arith

  pub length-take-le : (n : ℕ) (l : List A) → length (take n l) ≤ n
  unfolding take
  length-take-le zero l = omega arith
  length-take-le (suc n) [] = omega arith
  length-take-le (suc n) (x ∷ l) = omega (arith, length-take-le n l)

  pub length-drop : (n : ℕ) (l : List A) → length (drop n l) ≡ length l - n
  unfolding drop
  length-drop zero l = omega arith
  length-drop (suc n) [] = omega arith
  length-drop (suc n) (x ∷ l) = omega (arith, length-drop n l)
