-- ===== src/Exec/Honest.antt =====
-- Programs that a failing call only stops: they return the error of the call, or do what they do
-- when no call fails. And programs that undo what they did when they return an error.
use ff_indexer.Prelude.{Bool, true, false, List, [], ◌∷◌, ◌≡◌, ◌⊎◌, inl, inr, refl, sym, ap, ◌∙◌}
use mathlib.Core.Path.{subst, subst⁻¹}
use ff_indexer.Exec.{
  Error, Result, ok, err, call_failed, World, calm, Exec, perform, pure, fail, and_then, ◌>>=◌,
  caught,
}
use ff_indexer.Exec.Success.{ok_injective}

module _ {ℓ} {S : Type ℓ} where
  -- Two results with the same value and store.
  abbrev pub SameOutcome : {A : Type ℓ} → Result A × World S → Result A × World S → Type ℓ
  SameOutcome p q = (p.0 ≡ q.0) × (p.1.store ≡ q.1.store)

  abbrev pub FailsOr : {A : Type ℓ} → Result A × World S → Result A × World S → Type ℓ
  FailsOr p q = (p.0 ≡ err call_failed) ⊎ SameOutcome p q

  abbrev pub Honest : {A : Type ℓ} → Exec S A → Type ℓ
  Honest m =
      ((w : World S) → FailsOr (m w) (m (calm w.store))) × ((s : S) → (m (calm s)).1.faults ≡ [])

  -- An error leaves the store as it was.
  abbrev pub Undone : {A : Type ℓ} → Exec S A → Type ℓ
  Undone m = (w : World S) (e : Error) → (m w).0 ≡ err e → (m w).1.store ≡ w.store

  abbrev pub ReadsOnly : {A : Type ℓ} → Exec S A → Type ℓ
  ReadsOnly m = (w : World S) → (m w).1.store ≡ w.store

  pub pure-Honest : {A : Type ℓ} (a : A) → Honest (pure a)
  unfolding pure
  pure-Honest a = (λ w. inr (refl, refl), λ s. refl)

  pub fail-Honest : (A : Type ℓ) (e : Error) → Honest {A = A} (fail e)
  unfolding fail
  fail-Honest A e = (λ w. inr (refl, refl), λ s. refl)

  pub perform-Honest : {A : Type ℓ} (f : S → Result A × S) → Honest (perform f)
  unfolding perform
  perform-Honest f = (λ w. outcome w.faults w.store, λ s. refl)
    where
      outcome :
          (fs : List Bool) (s : S)
          → FailsOr (perform f (record { store = s; faults = fs })) (perform f (calm s))
      outcome [] s = inr (refl, refl)
      outcome (true ∷ fs) s = inl refl
      outcome (false ∷ fs) s = inr (refl, refl)

  calm_again : (w : World S) → w.faults ≡ [] → w ≡ calm w.store
  calm_again w e = ap (λ fs. record { store = w.store; faults = fs }) e

  module _ {A B : Type ℓ} (f : A → Exec S B) (h : (a : A) → Honest (f a)) where
    glue :
        (p q : Result A × World S)
        → FailsOr p q
        → q.1.faults ≡ []
        → FailsOr (and_then p f) (and_then q f)
    glue (err e, w) (err e', v) g c = elim g [ inl x ↦ inl cc | inr (x, y) ↦ inr (cc, y) ]
    glue (err e, w) (ok b, v) g c = elim g [ inl x ↦ inl cc | inr (x, y) ↦ cc ]
    glue (ok a, w) (err e', v) g c = elim g [ inl x ↦ cc | inr (x, y) ↦ cc ]
    glue (ok a, w) (ok b, v) g c = elim g [
      | inl x ↦ cc
      | inr (x, y) ↦
          subst⁻¹ (λ u. FailsOr (f a w) (f b u)) (calm_again v c ∙ ap calm (sym y))
            (subst (λ d. FailsOr (f a w) (f d (calm w.store))) (ok_injective a b x) ((h a).0 w))
    ]

    calm_after : (p : Result A × World S) → p.1.faults ≡ [] → (and_then p f).1.faults ≡ []
    calm_after (err e, w) c = c
    calm_after (ok a, w) c = subst⁻¹ (λ v. (f a v).1.faults ≡ []) (calm_again w c) ((h a).1 w.store)

    pub bind-Honest : (m : Exec S A) → Honest m → Honest (m >>= f)
    bind-Honest m k = (
      λ w. glue (m w) (m (calm w.store)) (k.0 w) (k.1 w.store),
      λ s. calm_after (m (calm s)) (k.1 s),
    )

  -- An error of what follows reads only leaves the store as it was too.
  pub bind-Undone :
      {A B : Type ℓ} (m : Exec S A) (f : A → Exec S B)
      → ReadsOnly m
      → ((a : A) → Undone (f a))
      → Undone (m >>= f)
  bind-Undone {A} {B} m f reads undone w e = after (m w) (reads w)
    where
      after :
          (p : Result A × World S)
          → p.1.store ≡ w.store
          → (and_then p f).0 ≡ err e
          → (and_then p f).1.store ≡ w.store
      after (err e', v) same h = same
      after (ok a, v) same h = undone a v e h ∙ same

  pub fail-Undone : (A : Type ℓ) (e : Error) → Undone {A = A} (fail e)
  unfolding fail
  fail-Undone A e w e' h = refl

  -- What follows cannot fail.
  pub then_pure-Undone :
      {A B : Type ℓ} (m : Exec S A) (b : B) → Undone m → Undone (m >>= λ _. pure b)
  unfolding pure
  then_pure-Undone {A} {B} m b undone w e = after (m w) (undone w)
    where
      after :
          (p : Result A × World S)
          → ((e : Error) → p.0 ≡ err e → p.1.store ≡ w.store)
          → (and_then p (λ _. pure b)).0 ≡ err e
          → (and_then p (λ _. pure b)).1.store ≡ w.store
      after (ok a, v) h x = cc
      after (err e', v) h x = h e' refl

  pub perform-ReadsOnly : {A : Type ℓ} (g : S → Result A) → ReadsOnly (perform λ s. (g s, s))
  unfolding perform
  perform-ReadsOnly g w = unchanged w.faults
    where
      unchanged :
          (fs : List Bool) → (perform (λ s. (g s, s)) (record w { faults = fs })).1.store ≡ w.store
      unchanged [] = refl
      unchanged (true ∷ fs) = refl
      unchanged (false ∷ fs) = refl

  -- A failing call stops the program, and an error leaves the store as it was: the program does
  -- all that it does with no failing call, or nothing.
  pub Honest-all_or_nothing :
      {A : Type ℓ} (m : Exec S A)
      → Honest m
      → Undone m
      → (w : World S)
      → ((e : Error) × ((m w).0 ≡ err e) × ((m w).1.store ≡ w.store))
        ⊎ SameOutcome (m w) (m (calm w.store))
  Honest-all_or_nothing m honest undone w = elim (honest.0 w) [
    | inl e ↦ inl (call_failed, e, undone w call_failed e)
    | inr same ↦ inr same
  ]

  -- What goes on after an error must give back that of a failed call.
  pub caught-Honest :
      {A B : Type ℓ} (f : Result A → Exec S B)
      → ((w : World S) → (f (err call_failed) w).0 ≡ err call_failed)
      → ((r : Result A) → Honest (f r))
      → (m : Exec S A) → Honest m
      → Honest (caught m f)
  caught-Honest f gives_back h m k = (
    λ w. both (m w) (m (calm w.store)) (k.0 w) (k.1 w.store),
    λ s. calm_then (m (calm s)) (k.1 s),
  )
    where
      both :
          (p q : Result _ × World S)
          → FailsOr p q
          → q.1.faults ≡ []
          → FailsOr (f p.0 p.1) (f q.0 q.1)
      both (r, w) (r', v) (inl e) c =
          inl (subst⁻¹ (λ r. (f r w).0 ≡ err call_failed) e (gives_back w))
      both (r, w) (r', v) (inr (x, y)) c =
          subst⁻¹ (λ u. FailsOr (f r w) (f r' u)) (calm_again v c ∙ ap calm (sym y))
            (subst (λ d. FailsOr (f r w) (f d (calm w.store))) x ((h r).0 w))

      calm_then : (p : Result _ × World S) → p.1.faults ≡ [] → (f p.0 p.1).1.faults ≡ []
      calm_then (r, w) c = subst⁻¹ (λ v. (f r v).1.faults ≡ []) (calm_again w c) ((h r).1 w.store)
