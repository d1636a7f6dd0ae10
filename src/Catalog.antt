-- ===== src/Catalog.antt =====
-- structs.go: the documents of the indexer's database, and the collections of
-- `MongodbIndexerStore` in store.go. A time is a number, the zero time is 0; an `int64` count is a
-- number; a `float64` is only copied, and is the number that its bits write.
pub mod Samples
use ff_indexer.Prelude.{[], ◌∷◌, false, ◌&&◌, ◌||◌, exists, ℕ, String, List, Bool, Option, ◌==◌}
use ff_indexer.Json.{Fields}
use ff_indexer.Mongo.{Collection}

pub record BaseTokenInfo : Type 0 where
  pub id : String
  pub blockchain : String
  pub fungible : Bool
  pub contract_type : String
  pub contract_address : String

pub record Provenance : Type 0 where
  pub former_owner : Option String
  pub type : String
  pub owner : String
  pub blockchain : String
  pub block_number : Option ℕ
  pub timestamp : ℕ
  pub tx_id : String
  pub tx_url : String

pub record Token : Type 0 where
  pub base : BaseTokenInfo
  pub open base use {id, blockchain, fungible, contract_type, contract_address}
  pub edition : ℕ
  pub edition_name : String
  pub minted_at : ℕ
  pub owner : String
  pub owners : List (String × ℕ)
  pub owners_array : List String
  pub asset_id : String
  pub origin_token_info : List BaseTokenInfo
  pub is_demo : Bool
  pub index_id : String
  pub source : String
  pub swapped : Bool
  pub swapped_from : Option String
  pub swapped_to : Option String
  pub burned : Bool
  pub provenances : List Provenance
  pub last_activity_time : ℕ
  pub last_refreshed_time : ℕ

pub record AssetConfiguration : Type 0 where
  pub scaling : String
  pub background_color : String
  pub margin_left : ℕ
  pub margin_right : ℕ
  pub margin_top : ℕ
  pub margin_bottom : ℕ
  pub auto_play : Bool
  pub looping : Bool
  pub interactable : Bool
  pub overridable : Bool

pub record AssetAttributes : Type 0 where
  pub configuration : Option AssetConfiguration

pub record Artist : Type 0 where
  pub id : String
  pub name : String
  pub url : String

pub record ProjectMetadata : Type 0 where
  pub artist_id : String
  pub artist_name : String
  pub artist_url : String
  pub artists : List Artist
  pub asset_id : String
  pub title : String
  pub description : String
  pub mime_type : String
  pub medium : String
  pub max_edition : ℕ
  pub base_currency : String
  pub base_price : ℕ
  pub source : String
  pub source_url : String
  pub preview_url : String
  pub thumbnail_url : String
  pub gallery_thumbnail_url : String
  pub asset_data : String
  pub asset_url : String
  pub attributes : Option AssetAttributes
  pub artwork_metadata : Option Fields
  pub last_updated_at : ℕ
  pub initial_sale_model : String
  pub original_file_url : String

pub record VersionedProjectMetadata : Type 0 where
  pub origin : ProjectMetadata
  pub latest : ProjectMetadata

pub record Asset : Type 0 where
  pub id : String
  pub index_id : String
  pub source : String
  pub blockchain_metadata : String
  pub project_metadata : VersionedProjectMetadata
  pub last_refreshed_time : ℕ
  pub thumbnail_id : Option String

pub record AssetUpdates : Type 0 where
  pub id : String
  pub source : String
  pub project_metadata : ProjectMetadata
  pub blockchain_metadata : String
  pub tokens : List Token

pub record SwapUpdate : Type 0 where
  pub original_token_id : String
  pub original_blockchain : String
  pub original_contract_address : String
  pub new_token_id : String
  pub new_blockchain : String
  pub new_contract_address : String
  pub new_contract_type : String

pub record AccountToken : Type 0 where
  pub base : BaseTokenInfo
  pub index_id : String
  pub owner_account : String
  pub balance : ℕ
  pub last_activity_time : ℕ
  pub last_refreshed_time : ℕ

pub record OwnerBalance : Type 0 where
  pub address : String
  pub balance : ℕ
  pub last_time : ℕ

pub record CollectionAsset : Type 0 where
  pub collection_id : String
  pub token_index_id : String
  pub edition : ℕ
  pub last_activity_time : ℕ
  pub run_id : String

pub record ContractAddresses : Type 0 where
  pub erc721 : List String
  pub erc1155 : List String
  pub fa2 : List String

-- `Collection`
pub record CollectionDocument : Type 0 where
  pub id : String
  pub external_id : String
  pub creators : List String
  pub name : String
  pub description : String
  pub items : ℕ
  pub image_url : String
  pub contracts : ContractAddresses
  pub published : Bool
  pub source : String
  pub external_url : String
  pub metadata : Option Fields
  pub last_updated_time : ℕ
  pub created_at : ℕ

pub record Store : Type 0 where
  pub assets : List Asset
  pub tokens : List Token
  pub account_tokens : List AccountToken
  pub collection_assets : List CollectionAsset
  pub collections : List CollectionDocument

abbrev pub asset_collection : Collection Store Asset
asset_collection = record { get = λ s. s.assets; put = λ l s. record s { assets = l } }

abbrev pub token_collection : Collection Store Token
token_collection = record { get = λ s. s.tokens; put = λ l s. record s { tokens = l } }

abbrev pub account_token_collection : Collection Store AccountToken
account_token_collection = record {
  get = λ s. s.account_tokens;
  put = λ l s. record s { account_tokens = l };
}

abbrev pub collection_asset_collection : Collection Store CollectionAsset
collection_asset_collection = record {
  get = λ s. s.collection_assets;
  put = λ l s. record s { collection_assets = l };
}

abbrev pub collections_collection : Collection Store CollectionDocument
collections_collection = record {
  get = λ s. s.collections;
  put = λ l s. record s { collections = l };
}

-- `{"indexID": id}`
abbrev pub has_index_id : String → Token → Bool
has_index_id id t = t.index_id == id

-- The unique index of the collection, on `indexID` and `ownerAccount` (scripts/init_mongodb.js).
abbrev pub same_account : AccountToken → AccountToken → Bool
same_account a b = a.index_id == b.index_id && a.owner_account == b.owner_account

unfoldable pub has_duplicates : List AccountToken → Bool
has_duplicates [] = false
has_duplicates (a ∷ rest) = exists (same_account a) rest || has_duplicates rest
