-- ===== src/Registry.antt =====
-- services/event-processor/series_registry_event_processor.go: the handlers of the events of the
-- series registry, which keep the collections of the index.
pub mod Members
pub mod Blank
pub mod Index
mod Examples
use Prim.Native.String.{◌++◌}
use text.Mathlib.Text.{starts_with}
use ff_indexer.Prelude.{
  ℕ, ◌+◌, String, List, [], ◌∷◌, Bool, true, false, ◌||◌, Option, none, some, ◌==◌, if◌then◌else◌,
  map, length,
}
use ff_indexer.Exec.{
  Result, ok, err, no_documents, bad_event_data, call_failed, Exec, perform, pure, fail, caught,
  ◌>>=◌, ◌>>◌,
}
use ff_indexer.Json.{Json, text_value, Fields, end, field}
use ff_indexer.Mongo.{find_one}
use ff_indexer.Catalog.{
  CollectionDocument, CollectionAsset, ContractAddresses, Store, collections_collection,
}
use ff_indexer.IndexId.{Chains, token_index_id}
use ff_indexer.Ownership.{filter_burned_index_ids}
use ff_indexer.Collections.{
  has_collection_id, index_collection, index_collection_asset, delete_deprecated_collection_asset,
  delete_collection, replace_collection_creator, update_collection_creators,
}
use ff_indexer.Series.{SeriesEvent}

-- structs.go: `SeriesMetadata`, less the version
pub record SeriesMetadata : Type 0 where
  pub name : String
  pub description : String
  pub image : String
  pub external_url : String
  pub metadata : Option Fields

-- `ContractTokens`: the entries of the map, in the order of the loops.
abbrev pub ContractTokens : Type 0
ContractTokens = List (String × List String)

-- `TokenRegistry`
pub record TokenRegistry : Type 0 where
  pub erc721 : ContractTokens
  pub erc1155 : ContractTokens
  pub fa2 : ContractTokens

-- `ContractAddresses`
unfoldable pub contract_addresses : ContractTokens → List String
contract_addresses tokens = map (λ e. e.0) tokens

-- `AllContractAddresses`
abbrev pub all_contract_addresses : TokenRegistry → ContractAddresses
all_contract_addresses r = record {
  erc721 = contract_addresses r.erc721;
  erc1155 = contract_addresses r.erc1155;
  fa2 = contract_addresses r.fa2;
}

unfoldable pub supply_of : ContractTokens → ℕ
supply_of [] = 0
supply_of (e ∷ tokens) = length e.1 + supply_of tokens

-- `TotalSupply`
abbrev pub total_supply : TokenRegistry → ℕ
total_supply r = supply_of r.erc721 + (supply_of r.erc1155 + supply_of r.fa2)

-- What the processor takes from other packages, from the chain and from the gateways: JSON, big
-- numbers, `url.Parse` with the host and the path without leading slashes, the reads of the contract
-- and of an address, and what the workflow of a token does to the index until it is done.
pub record Outside : Type 0 where
  pub unmarshal : String → Result Fields
  pub unmarshal_metadata : String → Result SeriesMetadata
  pub unmarshal_token_data : String → Result TokenRegistry
  pub parse_int : String → Option ℕ
  pub parse_url : String → Option (String × String)
  pub new_contract : Result (Unit {0})
  pub get_series_metadata_uri : ℕ → Result String
  pub get_series_token_data_uri : ℕ → Result String
  pub get_series_artist_addresses : ℕ → Result (List String)
  pub read_from_url : String → Result String
  pub ipfs_gateways : List String
  pub index_token_workflow : String → String → Store → Store

abbrev pub bind : {A B : Type 0} → Result A → (A → Result B) → Result B
bind (ok a) f = f a
bind (err e) f = err e

abbrev pub lift : {A : Type 0} → Result A → Exec Store A
lift (ok a) = pure a
lift (err e) = fail e

abbrev pub text_of : Json → Option String
text_of (text_value s) = some s
text_of other = none

-- What an event to index tells, by the chain and the gateways.
pub record Told : Type 0 where
  pub series_id : String
  pub metadata : SeriesMetadata
  pub token_data : TokenRegistry
  pub artists : List String

-- `data[name].(string)`; the names of a map are all different.
unfoldable pub text_field : String → Fields → Option String
text_field name end = none
text_field name (field n value rest) =
    let later = text_field name rest in if n == name then text_of value else later

abbrev pub or_bad_data {ℓ} : {A : Type ℓ} → Option A → Result A
or_bad_data none = err bad_event_data
or_bad_data (some a) = ok a

-- `collectionID`
abbrev pub collection_id : String → String
collection_id series_id = "series-registry-" ++ series_id

-- `IsIPFSURI` and `IsHTTPSURI` of utils.go
abbrev pub is_ipfs_uri : String → Bool
is_ipfs_uri uri = starts_with uri "ipfs://"

abbrev pub is_https_uri : String → Bool
is_https_uri uri = starts_with uri "https://"

-- `validDataURI`
abbrev pub valid_data_uri : String → Bool
valid_data_uri uri = is_ipfs_uri uri || is_https_uri uri

module _ (o : Outside) where
  -- `ResolveIPFSURI` of utils.go
  abbrev pub resolved : String → String → Option (String × String) → String
  resolved gateway uri none = uri
  resolved gateway uri (some (cid, path)) =
      let root = "https://" ++ (gateway ++ ("/ipfs/" ++ cid)) in
      if path == "" then root else root ++ ("/" ++ path)

  abbrev pub resolve_ipfs_uri : String → String → String
  resolve_ipfs_uri gateway uri =
      if is_ipfs_uri uri then resolved gateway uri (o.parse_url uri) else uri

  -- The gateways are tried in order; the last error is returned.
  abbrev pub or_next : Result String → Result String → Result String
  or_next (ok bytes) next = ok bytes
  or_next (err e) next = next

  unfoldable pub read_from_gateways : String → List String → Result String
  read_from_gateways uri [] = err call_failed
  read_from_gateways uri (gateway ∷ gateways) =
      let next = read_from_gateways uri gateways in
      or_next (o.read_from_url (resolve_ipfs_uri gateway uri)) next

  -- `ReadDataURI`
  unfoldable pub read_data_uri : String → Result String
  read_data_uri uri =
      if valid_data_uri uri
      then (if is_https_uri uri
          then o.read_from_url uri
          else read_from_gateways uri o.ipfs_gateways)
      else err bad_event_data

  abbrev pub series_of : SeriesEvent → Result (String × ℕ)
  series_of e = bind (o.unmarshal e.json_data) λ content.
      bind (or_bad_data (text_field "series_id" content)) λ series_id.
        bind (or_bad_data (o.parse_int series_id))
          λ number. bind o.new_contract λ u. ok (series_id, number)

  -- The reads of `indexCollection`, up to the artists
  unfoldable pub told_by : SeriesEvent → Result Told
  told_by e = bind (series_of e) λ s. bind (o.get_series_metadata_uri s.1) λ metadata_uri.
      bind (read_data_uri metadata_uri) λ metadata_bytes.
        bind (o.unmarshal_metadata metadata_bytes) λ metadata.
          bind (o.get_series_token_data_uri s.1) λ token_data_uri.
            bind (read_data_uri token_data_uri) λ token_data_bytes.
              bind (o.unmarshal_token_data token_data_bytes) λ token_data.
                bind (o.get_series_artist_addresses s.1) λ artists. ok (record {
                  series_id = s.0;
                  metadata = metadata;
                  token_data = token_data;
                  artists = artists;
                })

-- `GetCollectionByID`
abbrev pub or_no_collection : Result CollectionDocument → Exec Store (Option CollectionDocument)
or_no_collection (ok d) = pure (some d)
or_no_collection (err no_documents) = pure none
or_no_collection (err e) = fail e

unfoldable pub get_collection_by_id : String → Exec Store (Option CollectionDocument)
get_collection_by_id id =
    caught (find_one collections_collection (has_collection_id id)) or_no_collection

abbrev pub new_collection : SeriesEvent → String → CollectionDocument
new_collection e series_id = record {
  id = collection_id series_id;
  external_id = series_id;
  creators = [];
  name = "";
  description = "";
  items = 0;
  image_url = "";
  contracts = record { erc721 = []; erc1155 = []; fa2 = [] };
  published = true;
  source = "SeriesRegistry";
  external_url = "";
  metadata = none;
  last_updated_time = 0;
  created_at = e.created_at;
}

abbrev pub or_new : SeriesEvent → String → Option CollectionDocument → CollectionDocument
or_new e series_id none = new_collection e series_id
or_new e series_id (some d) = d

-- The collection with what the event tells of it.
unfoldable pub described : SeriesEvent → Told → CollectionDocument → CollectionDocument
described e t d = record d {
  creators = t.artists;
  name = t.metadata.name;
  description = t.metadata.description;
  image_url = t.metadata.image;
  contracts = all_contract_addresses t.token_data;
  external_url = t.metadata.external_url;
  metadata = t.metadata.metadata;
  items = total_supply t.token_data;
  last_updated_time = e.created_at;
}

-- A token that the loops meet: its blockchain, its contract and its id.
abbrev pub Met : Type 0
Met = String × String × String

abbrev pub met_in : String → String → List String → List Met → List Met
met_in blockchain contract [] later = later
met_in blockchain contract (id ∷ ids) later =
    (blockchain, contract, id) ∷ met_in blockchain contract ids later

unfoldable pub met_in_contracts : String → ContractTokens → List Met → List Met
met_in_contracts blockchain [] later = later
met_in_contracts blockchain (e ∷ tokens) later =
    met_in blockchain e.0 e.1 (met_in_contracts blockchain tokens later)

module _ (c : Chains) where
  -- The tokens, in the order of the three loops.
  unfoldable pub met : TokenRegistry → List Met
  met r =
      met_in_contracts c.ethereum r.erc721
        (met_in_contracts c.ethereum r.erc1155 (met_in_contracts c.tezos r.fa2 []))

  abbrev pub met_index_id : Met → String
  met_index_id (blockchain, contract, id) = token_index_id c blockchain contract id

-- Workflows are started in order, and then waited for in order.
module _ (o : Outside) where
  unfoldable pub start_workflows : List Met → Exec Store (Unit {0})
  start_workflows [] = pure tt
  start_workflows (m ∷ ms) = perform (λ s. (ok tt, s)) >>= λ (u : Unit {0}). start_workflows ms

  unfoldable pub wait_for_workflows : List Met → Exec Store (Unit {0})
  wait_for_workflows [] = pure tt
  wait_for_workflows ((blockchain, contract, id) ∷ ms) =
      perform (λ s. (ok tt, o.index_token_workflow contract id s)) >>= λ (u : Unit {0}).
      wait_for_workflows ms

abbrev pub new_member : String → String → String → CollectionAsset
new_member collection_id run_id index_id = record {
  collection_id = collection_id;
  token_index_id = index_id;
  edition = 0;
  last_activity_time = 0;
  run_id = run_id;
}

-- `run_id` is the new UUID, `now` what `time.Now()` returns.
module _ (c : Chains) (o : Outside) (now : ℕ) where
  abbrev pub index_members : String → CollectionDocument → TokenRegistry → Exec Store (Unit {0})
  index_members run_id d r = do
    start_workflows o (met c r)
    wait_for_workflows o (met c r)
    live ← filter_burned_index_ids (map (met_index_id c) (met c r))
    index_collection_asset (map (new_member d.id run_id) live)
    delete_deprecated_collection_asset d.id run_id
    index_collection now (record d { items = length live })

  -- `indexCollection`
  unfoldable pub index_collection_event : String → SeriesEvent → Exec Store (Unit {0})
  index_collection_event run_id e = do
    t ← lift (told_by o e)
    found ← get_collection_by_id (collection_id t.series_id)
    let d = described e t (or_new e t.series_id found)
    index_collection now d
    index_members run_id d t.token_data

  abbrev pub delete_found : Option CollectionDocument → Exec Store (Unit {0})
  delete_found none = pure tt
  delete_found (some d) = delete_collection d.id

  -- `deleteCollection`
  unfoldable pub delete_collection_event : SeriesEvent → Exec Store (Unit {0})
  delete_collection_event e = do
    content ← lift (o.unmarshal e.json_data)
    series_id ← lift (or_bad_data (text_field "series_id" content))
    found ← get_collection_by_id (collection_id series_id)
    delete_found found

  -- `replaceCollectionCreator`
  unfoldable pub replace_collection_creator_event : SeriesEvent → Exec Store (Unit {0})
  replace_collection_creator_event e = do
    content ← lift (o.unmarshal e.json_data)
    old_address ← lift (or_bad_data (text_field "old_address" content))
    new_address ← lift (or_bad_data (text_field "new_address" content))
    replace_collection_creator now old_address new_address

  -- `updateCollectionCreators`
  unfoldable pub update_collection_creators_event : SeriesEvent → Exec Store (Unit {0})
  update_collection_creators_event e = do
    series ← lift (series_of o e)
    artists ← lift (o.get_series_artist_addresses series.1)
    update_collection_creators now (collection_id series.0) artists
