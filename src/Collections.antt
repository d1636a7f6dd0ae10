-- ===== src/Collections.antt =====
-- store.go: the methods of `MongodbIndexerStore` that change collections and their assets. `now`
-- is what `time.Now()` returns.
pub mod Delete
mod Examples
use ff_indexer.Prelude.{
  ℕ, String, List, [], ◌∷◌, Bool, true, false, not, ◌&&◌, ◌==◌, eqb, if◌then◌else◌, one_of,
}
use ff_indexer.Exec.{
  Result, ok, err, unique_violation, Exec, perform, pure, fail, caught, ◌>>=◌, ◌>>◌,
}
use ff_indexer.Mongo.{Collection, update_one, update_many, upsert_one, delete_many}
use ff_indexer.Mongo.Transaction.{transaction}
use ff_indexer.Catalog.{
  CollectionAsset, CollectionDocument, Store, collections_collection, collection_asset_collection,
}

abbrev pub has_collection_id : String → CollectionDocument → Bool
has_collection_id id d = d.id == id

abbrev pub is_member_of : String → CollectionAsset → Bool
is_member_of collection_id a = a.collection_id == collection_id

abbrev pub updated_at : ℕ → CollectionDocument → CollectionDocument
updated_at now d = if eqb d.last_updated_time 0 then record d { last_updated_time = now } else d

-- `IndexCollection`
unfoldable pub index_collection : ℕ → CollectionDocument → Exec Store (Unit {0})
index_collection now d =
    upsert_one collections_collection (has_collection_id d.id) (λ old. updated_at now d)
      (updated_at now d)

abbrev pub skip_member : Result (Unit {0}) → Exec Store (Unit {0})
skip_member (ok u) = pure tt
skip_member (err unique_violation) = pure tt
skip_member (err e) = fail e

-- `IndexCollectionAsset`
unfoldable pub index_collection_asset : List CollectionAsset → Exec Store (Unit {0})
index_collection_asset [] = pure tt
index_collection_asset (a ∷ members) = do
  caught
      (upsert_one collection_asset_collection
        (λ b. is_member_of a.collection_id b && b.token_index_id == a.token_index_id) (λ b. a) a)
      skip_member
  index_collection_asset members

-- `DeleteDeprecatedCollectionAsset`
unfoldable pub delete_deprecated_collection_asset : String → String → Exec Store (Unit {0})
delete_deprecated_collection_asset collection_id run_id =
    delete_many collection_asset_collection
      (λ a. is_member_of collection_id a && not (a.run_id == run_id))

-- `DeleteOne`
unfoldable pub remove_first : String → List CollectionDocument → List CollectionDocument
remove_first id [] = []
remove_first id (d ∷ ds) = if has_collection_id id d then ds else d ∷ remove_first id ds

unfoldable pub delete_both : String → Exec Store (Unit {0})
delete_both id =
    perform (λ s. (ok tt, record s { collections = remove_first id s.collections }))
    >>= λ (u : Unit {0}). delete_many collection_asset_collection (is_member_of id)

-- `DeleteCollection`
unfoldable pub delete_collection : String → Exec Store (Unit {0})
delete_collection id = transaction (delete_both id)

-- `creators.$[elem]`
unfoldable pub replace : String → String → List String → List String
replace old new [] = []
replace old new (a ∷ creators) = (if a == old then new else a) ∷ replace old new creators

-- `ReplaceCollectionCreator`
unfoldable pub replace_collection_creator : ℕ → String → String → Exec Store (Unit {0})
replace_collection_creator now old new =
    update_many collections_collection (λ d. one_of d.creators old)
      (λ d. record d { creators = replace old new d.creators; last_updated_time = now })

-- `UpdateCollectionCreators`
unfoldable pub update_collection_creators : ℕ → String → List String → Exec Store (Unit {0})
update_collection_creators now id creators = do
  update_one collections_collection (has_collection_id id)
      (λ d. record d { creators = creators; last_updated_time = now })
  pure tt
