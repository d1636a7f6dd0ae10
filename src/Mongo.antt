-- ===== src/Mongo.antt =====
-- The MongoDB calls that store.go makes, as functions on the documents of a collection: a call
-- changes the first document that its filter matches (`UpdateOne`), or all of them
-- (`UpdateMany`, `DeleteMany`), and an upsert inserts a document where none matches. Which calls
-- fail is given by the schedule of the `World`.
pub mod Outcome
pub mod Transaction
use ff_indexer.Prelude.{
  ℕ, List, [], ◌∷◌, ◌++◌, Bool, Option, none, some, if◌then◌else◌, exists, find_first, update_first,
  update_all, remove_all,
}
use ff_indexer.Exec.{Result, ok, err, Exec, perform, no_documents}

-- A collection of documents within a store.
pub record Collection (S D : Type 0) : Type 0 where
  pub get : S → List D
  pub put : List D → S → S

abbrev pub or_no_documents {ℓ} : {D : Type ℓ} → Option D → Result D
or_no_documents none = err no_documents
or_no_documents (some d) = ok d

-- All documents that pass.
unfoldable pub select {ℓ} : {D : Type ℓ} → (D → Bool) → List D → List D
select p [] = []
select p (d ∷ ds) = let rest = select p ds in if p d then d ∷ rest else rest

module _ {S D : Type 0} (c : Collection S D) where
  unfoldable pub find_one : (D → Bool) → Exec S D
  find_one p = perform λ s. (or_no_documents (find_first p (c.get s)), s)

  unfoldable pub find : (D → Bool) → Exec S (List D)
  find p = perform λ s. (ok (select p (c.get s)), s)

  unfoldable pub insert_one : D → Exec S (Unit {0})
  insert_one d = perform λ s. (ok tt, c.put (c.get s ++ d ∷ []) s)

  -- The result is `MatchedCount`.
  unfoldable pub update_one : (D → Bool) → (D → D) → Exec S ℕ
  update_one p f =
      perform λ s. (ok (if exists p (c.get s) then 1 else 0), c.put (update_first p f (c.get s)) s)

  unfoldable pub update_many : (D → Bool) → (D → D) → Exec S (Unit {0})
  update_many p f = perform λ s. (ok tt, c.put (update_all p f (c.get s)) s)

  -- `UpdateOne` with `SetUpsert(true)`: `d` is the document that is inserted if none matches.
  unfoldable pub upsert_one : (D → Bool) → (D → D) → D → Exec S (Unit {0})
  upsert_one p f d = perform λ s. (
    ok tt,
    c.put (if exists p (c.get s) then update_first p f (c.get s) else c.get s ++ d ∷ []) s,
  )

  unfoldable pub delete_many : (D → Bool) → Exec S (Unit {0})
  delete_many p = perform λ s. (ok tt, c.put (remove_all p (c.get s)) s)
