-- ===== src/Registry/Examples.antt =====
-- Witnesses for the handlers of the events of the series registry.
use ff_indexer.Prelude.{String, [], ◌∷◌, none, some, ◌≡◌, refl, exists, one_of, find_first, length}
use ff_indexer.Exec.{ok, calm}
use ff_indexer.Json.{text_value, end, field}
use ff_indexer.Catalog.{CollectionDocument, Store}
use ff_indexer.Catalog.Samples.{sample_store}
use ff_indexer.Collections.{has_collection_id}
use ff_indexer.IndexId.Samples.{chains}
use ff_indexer.Series.{SeriesEvent}
use ff_indexer.Registry.{
  Outside, Told, TokenRegistry, SeriesMetadata, told_by, read_data_uri, read_from_gateways,
  text_field, collection_id, index_collection_event, met, met_in_contracts,
}
use ff_indexer.Registry.Members.{is_row, after_workflows}
use ff_indexer.Registry.Index.{live_of, index_ids, index_collection_event-members}

abbrev event : SeriesEvent
event = record {
  id = "e1";
  type = "register_series";
  contract = "0xr";
  tx_id = "0x1";
  event_index = 0;
  tx_time = 5;
  json_data = "{}";
  stage = "stage_1_init";
  status = "created";
  created_at = 9;
}

abbrev series_metadata : SeriesMetadata
series_metadata = record {
  name = "Works";
  description = "";
  image = "";
  external_url = "";
  metadata = none;
}

abbrev token_data : TokenRegistry
token_data = record { erc721 = ("0xc", "7" ∷ "8" ∷ []) ∷ []; erc1155 = []; fa2 = [] }

abbrev outside : Outside
outside = record {
  unmarshal = λ s. ok (field "series_id" (text_value "1") end);
  unmarshal_metadata = λ s. ok series_metadata;
  unmarshal_token_data = λ s. ok token_data;
  parse_int = λ s. some 1;
  parse_url = λ s. some ("Qm", "");
  new_contract = ok tt;
  get_series_metadata_uri = λ n. ok "ipfs://Qm";
  get_series_token_data_uri = λ n. ok "https://h/t";
  get_series_artist_addresses = λ n. ok ("0xa" ∷ []);
  read_from_url = λ s. ok "";
  ipfs_gateways = "ipfs.io" ∷ [];
  index_token_workflow = λ contract id s. s;
}

abbrev told : Told
told = record {
  series_id = "1";
  metadata = series_metadata;
  token_data = token_data;
  artists = "0xa" ∷ [];
}

told_by-event : told_by outside event ≡ ok told
unfolding told_by text_field read_data_uri read_from_gateways
told_by-event = refl

index_collection_event-members_example :
    (s' : Store) × (index_collection_event chains outside 10 "r1" event (calm sample_store)
      ≡ (ok tt, calm s'))
    × ((id : String)
        → exists (is_row (collection_id "1") id) s'.collection_assets
          ≡ one_of (live_of s' (index_ids chains token_data)) id)
    × ((d : CollectionDocument) × (find_first (has_collection_id (collection_id "1")) s'.collections
          ≡ some d)
        × (d.items ≡ length (live_of s' (index_ids chains token_data))))
unfolding after_workflows met met_in_contracts exists
index_collection_event-members_example =
    index_collection_event-members chains outside 10 "r1" event told sample_store told_by-event refl
