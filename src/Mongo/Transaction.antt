-- ===== src/Mongo/Transaction.antt =====
-- `session.WithTransaction` of the MongoDB driver: the calls of the body take effect together when
-- the commit succeeds, and not at all when a call or the commit fails. The driver repeats a
-- transaction after a transient error; this is its last attempt.
use ff_indexer.Prelude.{[], ◌≡◌, inl, inr, refl}
use ff_indexer.Exec.{
  fail, call_failed, Error, Result, ok, err, World, Exec, perform, and_then, ◌>>=◌,
}
use ff_indexer.Exec.Honest.{
  Honest, Undone, FailsOr, perform-Honest, perform-ReadsOnly, bind-Honest, bind-Undone,
}

-- A call of a transaction that an error of the server has aborted: it fails and changes nothing.
abbrev pub in_aborted : {S A : Type 0} → Exec S A → Exec S A
in_aborted call = fail call_failed

abbrev pub start_session : {S : Type 0} → Exec S (Unit {0})
start_session = perform λ s. (ok tt, s)

module _ {S A : Type 0} where
  abbrev pub commit : A → Exec S A
  commit a = perform λ s. (ok a, s)

  abbrev pub undo_on_error : S → Result A × World S → Result A × World S
  undo_on_error s (ok a, w) = (ok a, w)
  undo_on_error s (err e, w) = (err e, record w { store = s })

  unfoldable pub attempt : Exec S A → Exec S A
  attempt body w = undo_on_error w.store (and_then (body w) commit)

  unfoldable pub transaction : Exec S A → Exec S A
  transaction body = start_session >>= λ _. attempt body

  undo_on_error-Undone :
      (s : S) (p : Result A × World S) (e : Error)
      → (undo_on_error s p).0 ≡ err e
      → (undo_on_error s p).1.store ≡ s
  undo_on_error-Undone s (ok a, v) e h = cc
  undo_on_error-Undone s (err e', v) e h = refl

  pub transaction-Undone : (body : Exec S A) → Undone (transaction body)
  unfolding transaction attempt
  transaction-Undone body =
      bind-Undone start_session (λ _. attempt body) (perform-ReadsOnly (λ s. ok tt))
        (λ _ w e h. undo_on_error-Undone w.store (and_then (body w) commit) e h)

  undo_on_error-FailsOr :
      (s : S) (p q : Result A × World S)
      → FailsOr p q
      → FailsOr (undo_on_error s p) (undo_on_error s q)
  undo_on_error-FailsOr s (ok a, v) (ok b, w) h = h
  undo_on_error-FailsOr s (ok a, v) (err e, w) h = elim h [ inl x ↦ cc | inr (x, y) ↦ cc ]
  undo_on_error-FailsOr s (err e, v) (ok b, w) h = elim h [ inl x ↦ inl x | inr (x, y) ↦ cc ]
  undo_on_error-FailsOr s (err e, v) (err e', w) h = elim h [
    | inl x ↦ inl x
    | inr (x, y) ↦ inr (x, refl)
  ]

  undo_on_error-calm :
      (s : S) (p : Result A × World S) → p.1.faults ≡ [] → (undo_on_error s p).1.faults ≡ []
  undo_on_error-calm s (ok a, v) h = h
  undo_on_error-calm s (err e, v) h = h

  pub transaction-Honest : (body : Exec S A) → Honest body → Honest (transaction body)
  unfolding transaction attempt
  transaction-Honest body honest =
      bind-Honest (λ _. attempt body)
        (λ _. (
          λ w. undo_on_error-FailsOr w.store _ _ (all_calls.0 w),
          λ s. undo_on_error-calm s _ (all_calls.1 s),
        ))
        start_session (perform-Honest _)
    where
      all_calls : Honest (body >>= commit)
      all_calls = bind-Honest commit (λ a. perform-Honest _) body honest
