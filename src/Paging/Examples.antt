-- ===== src/Paging/Examples.antt =====
-- Witnesses for the paging of store.go.
use ff_indexer.Prelude.{String, List, [], ◌∷◌, ◌≡◌, drop, length, All}
use ff_indexer.Exec.{ok, calm}
use ff_indexer.Catalog.{Store}
use ff_indexer.Catalog.Samples.{sample_store, sample_collection}
use ff_indexer.Paging.{get_page_counts, pages, found_collections, get_collections_by_creators}
use ff_indexer.Paging.Pages.{join, IsPage, pages-partition}
use ff_indexer.Paging.Window.{window, get_collections_by_creators_lem}

abbrev ids : List String
ids = "a" ∷ "b" ∷ []

pages-partition_example :
    (join (pages ids) ≡ ids)
    × All IsPage (pages ids)
    × (length (pages ids) ≡ get_page_counts (length ids) 25)
pages-partition_example = pages-partition ids

abbrev three : Store
three = record sample_store {
  collections = sample_collection ∷ sample_collection ∷ sample_collection ∷ [];
}

get_collections_by_creators_lem_example :
    get_collections_by_creators (λ l. l) ("0xa" ∷ []) 1 25 (calm three)
    ≡ (ok (window 25 (drop 1 (found_collections (λ l. l) ("0xa" ∷ []) three))), calm three)
get_collections_by_creators_lem_example =
    get_collections_by_creators_lem (λ l. l) ("0xa" ∷ []) 1 25 three
