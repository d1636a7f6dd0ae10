-- ===== src/Mapper/Wire.antt =====
-- services/grpc-gateway/grpc/gateway.pb.go: the messages that the gateway and its client exchange.
-- A pointer that may be nil is an option; a time is a text.
use ff_indexer.Prelude.{ℕ, String, List, Bool, Option}
use ff_indexer.Json.{Fields}

pub record GrpcProvenance : Type 0 where
  pub former_owner : String
  pub type : String
  pub owner : String
  pub blockchain : String
  pub block_number : Option ℕ
  pub timestamp : String
  pub tx_id : String
  pub tx_url : String

pub record GrpcBaseTokenInfo : Type 0 where
  pub id : String
  pub blockchain : String
  pub fungible : Bool
  pub contract_type : String
  pub contract_address : String

pub record GrpcToken : Type 0 where
  pub id : String
  pub blockchain : String
  pub fungible : Bool
  pub contract_type : String
  pub contract_address : String
  pub edition : ℕ
  pub edition_name : String
  pub minted_at : String
  pub balance : ℕ
  pub owner : String
  pub owners : List (String × ℕ)
  pub owners_array : List String
  pub asset_id : String
  pub origin_token_info : List GrpcBaseTokenInfo
  pub is_demo : Bool
  pub index_id : String
  pub source : String
  pub swapped : Bool
  pub swapped_from : String
  pub swapped_to : String
  pub burned : Bool
  pub provenances : List GrpcProvenance
  pub last_activity_time : String
  pub last_refreshed_time : String

pub record GrpcAccountToken : Type 0 where
  pub id : String
  pub blockchain : String
  pub fungible : Bool
  pub contract_type : String
  pub contract_address : String
  pub index_id : String
  pub owner_account : String
  pub balance : ℕ
  pub last_activity_time : String
  pub last_refreshed_time : String
  pub last_pending_time : List String
  pub last_updated_at : String
  pub pending_txs : List String

pub record GrpcAssetConfiguration : Type 0 where
  pub scaling : String
  pub background_color : String
  pub margin_left : ℕ
  pub margin_right : ℕ
  pub margin_bottom : ℕ
  pub margin_top : ℕ
  pub auto_play : Bool
  pub looping : Bool
  pub interactable : Bool
  pub overridable : Bool

pub record GrpcAssetAttributes : Type 0 where
  pub configuration : Option GrpcAssetConfiguration

pub record GrpcArtist : Type 0 where
  pub artist_id : String
  pub artist_name : String
  pub artist_url : String

pub record GrpcProjectMetadata : Type 0 where
  pub artist_id : String
  pub artist_name : String
  pub artist_url : String
  pub asset_id : String
  pub title : String
  pub description : String
  pub mime_type : String
  pub medium : String
  pub max_edition : ℕ
  pub base_currency : String
  pub base_price : ℕ
  pub source : String
  pub source_url : String
  pub preview_url : String
  pub thumbnail_url : String
  pub gallery_thumbnail_url : String
  pub asset_data : String
  pub asset_url : String
  pub attributes : Option GrpcAssetAttributes
  pub artwork_metadata : String
  pub last_updated_at : String
  pub initial_sale_model : String
  pub original_file_url : String
  pub artists : List GrpcArtist

pub record GrpcVersionedProjectMetadata : Type 0 where
  pub origin : GrpcProjectMetadata
  pub latest : GrpcProjectMetadata

pub record GrpcDetailedToken : Type 0 where
  pub token : GrpcToken
  pub thumbnail_id : String
  pub ipfs_pinned : Bool
  pub attributes : Option GrpcAssetAttributes
  pub project_metadata : GrpcVersionedProjectMetadata

pub record GrpcSaleTimeSeriesRecord : Type 0 where
  pub timestamp : String
  pub metadata : Fields
  pub values : List (String × String)
  pub shares : List (String × String)

-- `timestamppb.Timestamp` is a number here, like a time.
pub record GrpcSaleTimeSeries : Type 0 where
  pub timestamp : ℕ
  pub metadata : String
  pub shares : String
  pub net_value : String
  pub payment_amount : String
  pub platform_fee : String
  pub usd_quote : String
  pub price : String

pub record GrpcExchangeRateResponse : Type 0 where
  pub timestamp : ℕ
  pub price : ℕ
  pub currency_pair : String
