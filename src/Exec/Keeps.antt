-- ===== src/Exec/Keeps.antt =====
-- A relation that every call of a program keeps holds between the stores before and after it,
-- whichever of its calls fail.
use ff_indexer.Prelude.{Bool, true, false, List, [], ◌∷◌}
use ff_indexer.Exec.{
  Error, Result, ok, err, World, Exec, perform, pure, fail, and_then, ◌>>=◌, caught,
}

module _ {ℓ} {S : Type ℓ} (R : S → S → Type 0) where
  abbrev pub Keeps : {A : Type ℓ} → Exec S A → Type ℓ
  Keeps m = (w : World S) → R w.store (m w).1.store

  module _ (same : (s : S) → R s s) where
    pub Keeps-pure : {A : Type ℓ} (a : A) → Keeps (pure a)
    unfolding pure
    Keeps-pure a w = same w.store

    pub Keeps-fail : (A : Type ℓ) (e : Error) → Keeps {A = A} (fail e)
    unfolding fail
    Keeps-fail A e w = same w.store

    pub Keeps-perform :
        {A : Type ℓ} (f : S → Result A × S) → ((s : S) → R s (f s).1) → Keeps (perform f)
    unfolding perform
    Keeps-perform f h w = attempted w.faults w.store
      where
        attempted :
            (fs : List Bool) (s : S) → R s (perform f (record { store = s; faults = fs })).1.store
        attempted [] s = h s
        attempted (true ∷ fs) s = same s
        attempted (false ∷ fs) s = h s

  module _ (compose : (s t u : S) → R s t → R t u → R s u) where
    pub Keeps-and_then :
        {A B : Type ℓ} (s : S) (r : Result A × World S) (f : A → Exec S B)
        → R s r.1.store
        → ((a : A) → Keeps (f a))
        → R s (and_then r f).1.store
    Keeps-and_then s (ok a, w) f h k = compose s w.store _ h (k a w)
    Keeps-and_then s (err e, w) f h k = h

    pub Keeps-bind :
        {A B : Type ℓ} (m : Exec S A) (f : A → Exec S B)
        → Keeps m
        → ((a : A) → Keeps (f a))
        → Keeps (m >>= f)
    Keeps-bind m f h k w = Keeps-and_then w.store (m w) f (h w) k

    pub Keeps-caught :
        {A B : Type ℓ} (m : Exec S A) (f : Result A → Exec S B)
        → Keeps m
        → ((r : Result A) → Keeps (f r))
        → Keeps (caught m f)
    Keeps-caught m f h k w = compose w.store (m w).1.store _ (h w) (k (m w).0 (m w).1)
