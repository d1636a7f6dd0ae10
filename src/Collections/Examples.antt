-- ===== src/Collections/Examples.antt =====
-- A witness for the deletion of a collection.
use ff_indexer.Prelude.{[], ◌∷◌, true, false}
use ff_indexer.Exec.{World}
use ff_indexer.Catalog.{Store}
use ff_indexer.Catalog.Samples.{sample_store, sample_collection}

abbrev shelf : Store
shelf = record sample_store {
  collections = sample_collection ∷ [];
  collection_assets =
      record {
        collection_id = "c1";
        token_index_id = "eth-0xc-7";
        edition = 1;
        last_activity_time = 50;
        run_id = "r1";
      }
      ∷ [];
}

-- The third call, the second of the transaction, fails.
abbrev unlucky : World Store
unlucky = record { store = shelf; faults = false ∷ false ∷ true ∷ [] }
