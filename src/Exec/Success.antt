-- ===== src/Exec/Success.antt =====
-- A program that returns a value has got one from each of its parts.
use ff_indexer.Prelude.{◌≡◌, refl}
use ff_indexer.Exec.{Result, ok, err, World, Exec, and_then}

pub ok_injective {ℓ} : {A : Type ℓ} (a b : A) → ok a ≡ ok b → a ≡ b
ok_injective a b e = cc

module _ {ℓ} {S A B : Type ℓ} where
  pub and_then-ok :
      (p : Result A × World S) (f : A → Exec S B) {b : B}
      → (and_then p f).0 ≡ ok b
      → (a : A) × (p.0 ≡ ok a) × (and_then p f ≡ f a p.1)
  and_then-ok (ok a, w) f h = (a, refl, refl)
  and_then-ok (err e, w) f h = cc
