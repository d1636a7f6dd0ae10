-- ===== src/Catalog/Samples.antt =====
-- A token, metadata of a project, a collection and a store for the tests.
use ff_indexer.Prelude.{[], ◌∷◌, true, false, none}
use ff_indexer.Catalog.{BaseTokenInfo, Token, ProjectMetadata, CollectionDocument, Store}

abbrev pub sample_base : BaseTokenInfo
sample_base = record {
  id = "7";
  blockchain = "ethereum";
  fungible = false;
  contract_type = "erc721";
  contract_address = "0xc";
}

abbrev pub sample_token : Token
sample_token = record {
  base = sample_base;
  edition = 1;
  edition_name = "#1";
  minted_at = 10;
  owner = "0xa";
  owners = ("0xa", 1) ∷ [];
  owners_array = "0xa" ∷ [];
  asset_id = "a1";
  origin_token_info = [];
  is_demo = false;
  index_id = "eth-0xc-7";
  source = "opensea";
  swapped = false;
  swapped_from = none;
  swapped_to = none;
  burned = false;
  provenances = [];
  last_activity_time = 50;
  last_refreshed_time = 60;
}

abbrev pub sample_store : Store
sample_store = record {
  assets = [];
  tokens = sample_token ∷ [];
  account_tokens = [];
  collection_assets = [];
  collections = [];
}

abbrev pub sample_metadata : ProjectMetadata
sample_metadata = record {
  artist_id = "0xa";
  artist_name = "Ann";
  artist_url = "";
  artists = record { id = "0xa"; name = "Ann"; url = "" } ∷ [];
  asset_id = "a1";
  title = "Work";
  description = "";
  mime_type = "image/png";
  medium = "image";
  max_edition = 1;
  base_currency = "";
  base_price = 0;
  source = "opensea";
  source_url = "";
  preview_url = "p";
  thumbnail_url = "t";
  gallery_thumbnail_url = "";
  asset_data = "";
  asset_url = "";
  attributes = none;
  artwork_metadata = none;
  last_updated_at = 0;
  initial_sale_model = "";
  original_file_url = "";
}

abbrev pub sample_collection : CollectionDocument
sample_collection = record {
  id = "c1";
  external_id = "1";
  creators = "0xa" ∷ [];
  name = "Works";
  description = "";
  items = 1;
  image_url = "";
  contracts = record { erc721 = "0xc" ∷ []; erc1155 = []; fa2 = [] };
  published = true;
  source = "SeriesRegistry";
  external_url = "";
  metadata = none;
  last_updated_time = 5;
  created_at = 5;
}
