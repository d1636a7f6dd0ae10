-- ===== src/Demo/Examples.antt =====
-- Witnesses for the demo tokens of store.go.
use ff_indexer.Prelude.{[], ◌∷◌, true, false}
use ff_indexer.Exec.{World}
use ff_indexer.Catalog.{Store}
use ff_indexer.Catalog.Samples.{sample_store}
use ff_indexer.Demo.{index_demo_tokens}
use ff_indexer.Demo.Real.{SameReal, index_demo_tokens-SameReal}

-- The last call, which adds the copy, fails.
abbrev unlucky : World Store
unlucky = record { store = sample_store; faults = false ∷ false ∷ false ∷ false ∷ true ∷ [] }

index_demo_tokens-SameReal_example :
    SameReal sample_store (index_demo_tokens "0xb" ("eth-0xc-7" ∷ []) unlucky).1.store
index_demo_tokens-SameReal_example = index_demo_tokens-SameReal "0xb" ("eth-0xc-7" ∷ []) unlucky
