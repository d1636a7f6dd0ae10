-- ===== src/Paging.antt =====
-- store.go: the loops of `MongodbIndexerStore` that read page by page.
pub mod Pages
pub mod Window
mod Examples
use ff_indexer.Prelude.{
  ℕ, zero, suc, ◌+◌, ◌-◌, ◌*◌, ◌/◌, ◌%◌, String, List, [], ◌∷◌, ◌++◌, Bool, true, false, not, ◌||◌,
  eqb, ltb, if◌then◌else◌, length, take, drop, one_of, exists,
}
use ff_indexer.Exec.{ok, Exec, perform, pure, fail, out_of_fuel, ◌>>=◌}
use ff_indexer.Mongo.{select}
use ff_indexer.Catalog.{CollectionDocument, Store}

abbrev pub query_page_size : ℕ
query_page_size = 25

-- `getPageCounts`
unfoldable pub get_page_counts : ℕ → ℕ → ℕ
get_page_counts item_length page_size =
    if eqb (item_length % page_size) 0 then item_length / page_size else item_length / page_size + 1

-- `IDs[start:end]` for the page `i`
unfoldable pub page_of : ℕ → List String → List String
page_of i ids =
    let start = i * query_page_size in
    let end = (i + 1) * query_page_size in
    drop start (take (if ltb (length ids) end then length ids else end) ids)

-- The pages from `i` on, `n` of them.
unfoldable pub pages_from : ℕ → ℕ → List String → List (List String)
pages_from zero i ids = []
pages_from (suc n) i ids = page_of i ids ∷ pages_from n (i + 1) ids

unfoldable pub pages : List String → List (List String)
pages ids = pages_from (get_page_counts (length ids) query_page_size) 0 ids

-- `FilterParameter`
pub record FilterParameter : Type 0 where
  pub source : String
  pub ids : List String
  pub burned_included : Bool

-- The two readers of detailed tokens; `aggregate` is the query of one page.
module _ {S D : Type 0} (aggregate : FilterParameter → ℕ → ℕ → Exec S (List D)) where
  abbrev pub query_pages :
      FilterParameter → (List String → ℕ × ℕ) → List (List String) → List D → Exec S (List D)
  query_pages f window [] tokens = pure tokens
  query_pages f window (page ∷ rest) tokens = do
    paged ← aggregate (record f { ids = page }) (window page).0 (window page).1
    query_pages f window rest (tokens ++ paged)

  -- `GetDetailedTokens`
  unfoldable pub get_detailed_tokens : FilterParameter → ℕ → ℕ → Exec S (List D)
  get_detailed_tokens f offset size =
      if eqb (length f.ids) 0
      then aggregate f offset size
      else query_pages f (λ page. (offset, size)) (pages f.ids) []

  -- `GetDetailedTokensV2`, where the offset is within the ids
  unfoldable pub get_detailed_tokens_v2 : FilterParameter → ℕ → ℕ → Exec S (List D)
  get_detailed_tokens_v2 f offset size =
      if eqb (length f.ids) 0
      then aggregate f offset size
      else query_pages f (λ page. (0, length page))
          (pages (
            drop offset (
              take (if ltb (length f.ids) (offset + size) then length f.ids else offset + size)
                f.ids)))
          []

-- A limit of 0 is no limit.
abbrev pub limited {ℓ} : {D : Type ℓ} → ℕ → List D → List D
limited n l = if eqb n 0 then l else take n l

abbrev pub created_by : List String → CollectionDocument → Bool
created_by creators d = exists (one_of creators) d.creators

-- `order` is how the database sorts the documents found.
module _ (order : List CollectionDocument → List CollectionDocument) where
  unfoldable pub found_collections : List String → Store → List CollectionDocument
  found_collections creators s = order (select (created_by creators) s.collections)

  abbrev pub find_page : List String → ℕ → ℕ → Exec Store (List CollectionDocument)
  find_page creators skip limit =
      perform λ s. (ok (limited limit (drop skip (found_collections creators s))), s)

  -- The loop from `page` on, at most `fuel` rounds.
  unfoldable pub read_pages :
      ℕ → List String → ℕ → ℕ → ℕ → List CollectionDocument → Exec Store (List CollectionDocument)
  read_pages zero creators offset size page collections = fail out_of_fuel
  read_pages (suc fuel) creators offset size page collections =
      let query_offset = offset + page * query_page_size in
      let is_last_page = ltb (offset + size) (query_offset + query_page_size) in
      let query_limit = (if is_last_page then offset + size - query_offset else query_page_size) in
      find_page creators query_offset query_limit >>= λ found.
      let all = collections ++ found in
      let rest = read_pages fuel creators offset size (page + 1) all in
      if ltb (length all) query_limit || is_last_page then pure all else rest

  -- `GetCollectionsByCreators`
  unfoldable pub get_collections_by_creators :
      List String → ℕ → ℕ → Exec Store (List CollectionDocument)
  get_collections_by_creators creators offset size =
      read_pages (size / query_page_size + 1) creators offset size 0 []
