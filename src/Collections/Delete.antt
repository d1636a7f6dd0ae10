-- ===== src/Collections/Delete.antt =====
-- `DeleteCollection` of store.go.
use ff_indexer.Prelude.{
  String, false, ◌≡◌, ◌⊎◌, inl, inr, refl, ap, ◌∙◌, exists, remove_all, exists-remove_all,
}
use mathlib.Core.Path.{subst⁻¹}
use ff_indexer.Exec.{Error, ok, err, World, calm, perform}
use ff_indexer.Exec.Honest.{Honest, perform-Honest, bind-Honest, Honest-all_or_nothing}
use ff_indexer.Mongo.{delete_many}
use ff_indexer.Mongo.Transaction.{transaction, attempt, transaction-Honest, transaction-Undone}
use ff_indexer.Catalog.{Store}
use ff_indexer.Collections.{is_member_of, remove_first, delete_both, delete_collection}

delete_both-Honest : (id : String) → Honest (delete_both id)
unfolding delete_both delete_many
delete_both-Honest id = bind-Honest _ (λ _. perform-Honest _) _ (perform-Honest _)

-- The store without a collection
abbrev without : String → Store → Store
without id s = record s {
  collections = remove_first id s.collections;
  collection_assets = remove_all (is_member_of id) s.collection_assets;
}

run-delete_collection :
    (id : String) (s : Store) → delete_collection id (calm s) ≡ (ok tt, calm (without id s))
unfolding delete_collection delete_both transaction attempt delete_many perform
run-delete_collection id s = refl

-- Whichever calls fail, DeleteCollection returns an error and leaves the store as it was, or it
-- returns, the first document of the collection is removed and no asset of the collection is left.
pub delete_collection-all_or_nothing :
    (id : String) (w : World Store)
    → ((e : Error) × ((delete_collection id w).0 ≡ err e)
        × ((delete_collection id w).1.store ≡ w.store))
      ⊎ (((delete_collection id w).0 ≡ ok tt)
          × ((delete_collection id w).1.store.collections ≡ remove_first id w.store.collections)
          × (exists (is_member_of id) (delete_collection id w).1.store.collection_assets ≡ false))
delete_collection-all_or_nothing id w =
    elim (Honest-all_or_nothing (delete_collection id)
      (unfold delete_collection in transaction-Honest _ (delete_both-Honest id))
      (unfold delete_collection in transaction-Undone _) w) [
        | inl nothing ↦ inl nothing
        | inr (result, store) ↦
            let removed = store ∙ ap (λ r. r.1.store) (run-delete_collection id w.store) in
            inr (
              result ∙ ap (λ r. r.0) (run-delete_collection id w.store),
              ap (λ s. s.collections) removed,
              subst⁻¹ (λ s. exists (is_member_of id) s.collection_assets ≡ false) removed
                  (exists-remove_all (is_member_of id) w.store.collection_assets),
            )
      ]
