-- ===== src/Assets/Examples.antt =====
-- Witnesses for the indexing of assets and tokens.
use ff_indexer.Prelude.{[], ◌∷◌, true, false, ◌≡◌, none, some, refl, find_first, ne_of_test}
use ff_indexer.Exec.{ok, calm, World}
use ff_indexer.Catalog.{Token, CollectionAsset, AssetUpdates, Store, has_index_id}
use ff_indexer.Catalog.Samples.{sample_metadata, sample_metadata, sample_token, sample_store}
use ff_indexer.IndexId.Samples.{chains}
use ff_indexer.Assets.{index_asset, index_token, check_if_token_need_to_update, of_token}
use ff_indexer.Assets.Frame.{StoreKept}
use ff_indexer.Assets.Kept.{index_asset-kept}
use ff_indexer.Assets.Update.{find-index_token}

abbrev updates : AssetUpdates
updates = record {
  id = "a1";
  source = "opensea";
  project_metadata = sample_metadata;
  blockchain_metadata = "";
  tokens = record sample_token { edition = 0; edition_name = "AP" } ∷ [];
}

-- The third call fails.
abbrev unlucky : World Store
unlucky = record { store = sample_store; faults = false ∷ false ∷ true ∷ [] }

index_asset-kept_example :
    StoreKept "opensea" sample_store (index_asset chains (λ x. x) 100 "a1" updates unlucky).1.store
index_asset-kept_example = index_asset-kept chains (λ x. x) 100 "a1" updates unlucky

abbrev row : CollectionAsset
row = record {
  collection_id = "c1";
  token_index_id = "eth-0xc-7";
  edition = 1;
  last_activity_time = 50;
  run_id = "r1";
}

abbrev in_collection : Store
in_collection = record sample_store { collection_assets = row ∷ [] }

abbrev no_edition : Token
no_edition = record sample_token { edition = 0; edition_name = "AP" }

-- An update with no edition leaves edition 1 to the token and none to its row.
find-index_token_example :
    let after = (index_token 100 "a1" "opensea" no_edition (calm in_collection)).1.store in
    ((index_token 100 "a1" "opensea" no_edition (calm in_collection)).0 ≡ ok tt)
    × (find_first (has_index_id "eth-0xc-7") after.tokens
        ≡ some (record sample_token { edition_name = "AP"; last_refreshed_time = 100 }))
    × (find_first (has_index_id "eth-0xc-8") after.tokens ≡ none)
    × (find_first (of_token "eth-0xc-7") after.collection_assets
        ≡ some (record row { edition = 0 }))
unfolding check_if_token_need_to_update find_first
find-index_token_example =
    find-index_token 100 "a1" "opensea" no_edition in_collection "eth-0xc-8"
      (ne_of_test "eth-0xc-8" "eth-0xc-7" refl)
