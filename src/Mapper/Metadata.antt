-- ===== src/Mapper/Metadata.antt =====
-- sdk/grpc-gateway/mapper.go: metadata of projects, and tokens with their metadata.
pub mod RoundTrip
use ff_indexer.Prelude.{String, Bool, List, Option, none, some, map}
use ff_indexer.Exec.{Result, ok, err}
use ff_indexer.Json.{Fields}
use ff_indexer.Catalog.{
  AssetConfiguration, AssetAttributes, Artist, ProjectMetadata, VersionedProjectMetadata,
}
use ff_indexer.Mapper.{HeldToken, map_grpc_token, map_indexer_token}
use ff_indexer.Mapper.Wire.{
  GrpcAssetConfiguration, GrpcAssetAttributes, GrpcArtist, GrpcProjectMetadata, GrpcDetailedToken,
}
use ff_indexer.Mapper.Formats.{Codec, ◌>>=◌}

-- structs.go: `DetailedToken`
pub record DetailedToken : Type 0 where
  pub token : HeldToken
  pub thumbnail_id : String
  pub ipfs_pinned : Bool
  pub attributes : Option AssetAttributes
  pub project_metadata : VersionedProjectMetadata

-- `MapGrpcAssetConfigurationToIndexerAssetConfiguration`
unfoldable pub map_grpc_configuration : Option GrpcAssetConfiguration → Option AssetConfiguration
map_grpc_configuration none = none
map_grpc_configuration (some c) = some (record {
  scaling = c.scaling;
  background_color = c.background_color;
  margin_left = c.margin_left;
  margin_right = c.margin_right;
  margin_top = c.margin_top;
  margin_bottom = c.margin_bottom;
  auto_play = c.auto_play;
  looping = c.looping;
  interactable = c.interactable;
  overridable = c.overridable;
})

-- `MapIndexerAssetConfigurationToGrpcAssetConfiguration`
unfoldable pub map_indexer_configuration : Option AssetConfiguration → Option GrpcAssetConfiguration
map_indexer_configuration none = none
map_indexer_configuration (some c) = some (record {
  scaling = c.scaling;
  background_color = c.background_color;
  margin_left = c.margin_left;
  margin_right = c.margin_right;
  margin_bottom = c.margin_bottom;
  margin_top = c.margin_top;
  auto_play = c.auto_play;
  looping = c.looping;
  interactable = c.interactable;
  overridable = c.overridable;
})

-- `MapIndexerAttributesToGRPCAttributes`
unfoldable pub map_indexer_attributes : Option AssetAttributes → Option GrpcAssetAttributes
map_indexer_attributes none = none
map_indexer_attributes (some a) =
    some (record { configuration = map_indexer_configuration a.configuration })

-- `MapGrpcAttributesToIndexerAttributes`
unfoldable pub map_grpc_attributes : Option GrpcAssetAttributes → Option AssetAttributes
map_grpc_attributes none = none
map_grpc_attributes (some a) =
    some (record { configuration = map_grpc_configuration a.configuration })

abbrev pub map_indexer_artist : Artist → GrpcArtist
map_indexer_artist i = record { artist_id = i.id; artist_name = i.name; artist_url = i.url }

abbrev pub map_grpc_artist : GrpcArtist → Artist
map_grpc_artist a = record { id = a.artist_id; name = a.artist_name; url = a.artist_url }

abbrev pub or_empty : Result String → String
or_empty (ok s) = s
or_empty (err e) = ""

abbrev pub or_nil : Result (Option Fields) → Option Fields
or_nil (ok m) = m
or_nil (err e) = none

module _ (c : Codec) where
  open c use {format_time, parse_time, marshal, unmarshal}

  -- `MapIndexerArtworkMetadataToGRPCArtworkMetadata`
  abbrev pub map_indexer_artwork_metadata : Option Fields → String
  map_indexer_artwork_metadata m = or_empty (marshal m)

  -- `MapGrpcArtworkMetadataToIndexerArtworkMetadata`
  abbrev pub map_grpc_artwork_metadata : String → Option Fields
  map_grpc_artwork_metadata s = or_nil (unmarshal s)

  -- `MapIndexerProjectMetadataToGRPCProjectMetadata`
  unfoldable pub map_indexer_project_metadata : ProjectMetadata → GrpcProjectMetadata
  map_indexer_project_metadata m = record {
    artist_id = m.artist_id;
    artist_name = m.artist_name;
    artist_url = m.artist_url;
    asset_id = m.asset_id;
    title = m.title;
    description = m.description;
    mime_type = m.mime_type;
    medium = m.medium;
    max_edition = m.max_edition;
    base_currency = m.base_currency;
    base_price = m.base_price;
    source = m.source;
    source_url = m.source_url;
    preview_url = m.preview_url;
    thumbnail_url = m.thumbnail_url;
    gallery_thumbnail_url = m.gallery_thumbnail_url;
    asset_data = m.asset_data;
    asset_url = m.asset_url;
    attributes = map_indexer_attributes m.attributes;
    artwork_metadata = map_indexer_artwork_metadata m.artwork_metadata;
    last_updated_at = format_time m.last_updated_at;
    initial_sale_model = m.initial_sale_model;
    original_file_url = m.original_file_url;
    artists = map map_indexer_artist m.artists;
  }

  -- `MapGrpcProjectMetadataToIndexerProjectMetadata`
  unfoldable pub map_grpc_project_metadata : GrpcProjectMetadata → Result ProjectMetadata
  map_grpc_project_metadata m = do
    last_updated_at ← parse_time m.last_updated_at
    ok (record {
      artist_id = m.artist_id;
      artist_name = m.artist_name;
      artist_url = m.artist_url;
      artists = map map_grpc_artist m.artists;
      asset_id = m.asset_id;
      title = m.title;
      description = m.description;
      mime_type = m.mime_type;
      medium = m.medium;
      max_edition = m.max_edition;
      base_currency = m.base_currency;
      base_price = m.base_price;
      source = m.source;
      source_url = m.source_url;
      preview_url = m.preview_url;
      thumbnail_url = m.thumbnail_url;
      gallery_thumbnail_url = m.gallery_thumbnail_url;
      asset_data = m.asset_data;
      asset_url = m.asset_url;
      attributes = map_grpc_attributes m.attributes;
      artwork_metadata = map_grpc_artwork_metadata m.artwork_metadata;
      last_updated_at = last_updated_at;
      initial_sale_model = m.initial_sale_model;
      original_file_url = m.original_file_url;
    })

  -- `MapIndexerDetailedTokenToGRPCDetailedToken`
  unfoldable pub map_indexer_detailed_token : DetailedToken → GrpcDetailedToken
  map_indexer_detailed_token t = record {
    token = map_indexer_token c t.token;
    thumbnail_id = t.thumbnail_id;
    ipfs_pinned = t.ipfs_pinned;
    attributes = map_indexer_attributes t.attributes;
    project_metadata = record {
      origin = map_indexer_project_metadata t.project_metadata.origin;
      latest = map_indexer_project_metadata t.project_metadata.latest;
    };
  }

  -- `MapGrpcDetailedTokenToIndexerDetailedToken`
  unfoldable pub map_grpc_detailed_token : GrpcDetailedToken → Result DetailedToken
  map_grpc_detailed_token t = do
    origin ← map_grpc_project_metadata t.project_metadata.origin
    latest ← map_grpc_project_metadata t.project_metadata.latest
    token ← map_grpc_token c t.token
    ok (record {
      token = token;
      thumbnail_id = t.thumbnail_id;
      ipfs_pinned = t.ipfs_pinned;
      attributes = map_grpc_attributes t.attributes;
      project_metadata = record { origin = origin; latest = latest };
    })
