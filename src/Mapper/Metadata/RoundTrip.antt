-- ===== src/Mapper/Metadata/RoundTrip.antt =====
-- sdk/grpc-gateway/mapper.go: tokens with their metadata that travel to the client and back.
use ff_indexer.Prelude.{List, [], ◌∷◌, Option, none, some, map, ◌≡◌, refl, ap}
use ff_indexer.Exec.{ok}
use ff_indexer.Json.{Fields}
use ff_indexer.Catalog.{AssetConfiguration, AssetAttributes, Artist, ProjectMetadata}
use ff_indexer.Mapper.RoundTrip.{received_held, map_grpc_token-map_indexer_token}
use ff_indexer.Mapper.Formats.{Codec}
use ff_indexer.Mapper.Metadata.{
  DetailedToken, map_grpc_configuration, map_indexer_configuration, map_grpc_attributes,
  map_indexer_attributes, map_grpc_artist, map_indexer_artist, map_indexer_artwork_metadata,
  map_grpc_artwork_metadata, map_indexer_project_metadata, map_grpc_project_metadata,
  map_indexer_detailed_token, map_grpc_detailed_token,
}

-- A detailed token as the client has it.
unfoldable pub received_detailed_token : DetailedToken → DetailedToken
received_detailed_token t = record t { token = received_held t.token }

configuration_round_trip :
    (o : Option AssetConfiguration) → map_grpc_configuration (map_indexer_configuration o) ≡ o
unfolding map_grpc_configuration map_indexer_configuration
configuration_round_trip none = refl
configuration_round_trip (some c) = refl

attributes_round_trip :
    (o : Option AssetAttributes) → map_grpc_attributes (map_indexer_attributes o) ≡ o
unfolding map_grpc_attributes map_indexer_attributes
attributes_round_trip none = refl
attributes_round_trip (some a) =
    ap (λ o. some (record { configuration = o })) (configuration_round_trip a.configuration)

artists_round_trip : (l : List Artist) → map map_grpc_artist (map map_indexer_artist l) ≡ l
artists_round_trip [] = refl
artists_round_trip (a ∷ l) = ap (λ r. a ∷ r) (artists_round_trip l)

module _ (c : Codec) where
  open c use {marshal, parse_time-format_time, unmarshal-marshal}

  -- Whether the metadata of an artwork can be written.
  abbrev pub IsWritable : Option Fields → Type 0
  IsWritable m = (s : _) × (marshal m ≡ ok s)

  artwork_metadata_round_trip :
      (m : Option Fields)
      → IsWritable m
      → map_grpc_artwork_metadata c (map_indexer_artwork_metadata c m) ≡ m
  artwork_metadata_round_trip m (s, writes) = rw (writes, unmarshal-marshal m s writes)

  pub project_metadata_round_trip :
      (m : ProjectMetadata)
      → IsWritable m.artwork_metadata
      → map_grpc_project_metadata c (map_indexer_project_metadata c m) ≡ ok m
  unfolding map_grpc_project_metadata map_indexer_project_metadata
  project_metadata_round_trip m w = rw (
    parse_time-format_time m.last_updated_at,
    attributes_round_trip m.attributes,
    artists_round_trip m.artists,
    artwork_metadata_round_trip m.artwork_metadata w,
  )

  -- Take a detailed token whose two maps of artwork metadata can be written as JSON. When it is
  -- mapped to a message and back, the client has the token, but an activity time that is the
  -- refresh time, and the empty text for each absent text: of the swaps, and of the former owner
  -- of a provenance.
  pub map_grpc_detailed_token-map_indexer_detailed_token :
      (t : DetailedToken)
      → IsWritable t.project_metadata.origin.artwork_metadata
      → IsWritable t.project_metadata.latest.artwork_metadata
      → map_grpc_detailed_token c (map_indexer_detailed_token c t) ≡ ok (received_detailed_token t)
  unfolding map_grpc_detailed_token map_indexer_detailed_token received_detailed_token
  map_grpc_detailed_token-map_indexer_detailed_token t w v = rw (
    project_metadata_round_trip t.project_metadata.origin w,
    project_metadata_round_trip t.project_metadata.latest v,
    map_grpc_token-map_indexer_token c t.token,
    attributes_round_trip t.attributes,
  )
