-- ===== src/Sales/Examples.antt =====
-- Witnesses for `WriteTimeSeriesData` of store.go.
use Prim.Native.String.{String}
use ff_indexer.Prelude.{List, [], ◌∷◌, ◌++◌, some, ◌≡◌, refl, remove_all, find_first, exists}
use ff_indexer.Exec.{ok, err, calm, wrong_format}
use ff_indexer.Json.{text_value, array, item, nil, end, field}
use ff_indexer.Mongo.{select}
use ff_indexer.Mapper.Sales.{GenericSalesTimeSeries}
use ff_indexer.Sales.{
  SaleDocument, Tools, has_unique_id, write_time_series_data, key_of, document_of, decimals_of,
  value_of, tokens_of_fields, texts_of, join_commas,
}
use ff_indexer.Sales.Documents.{documents_of, covers}
use ff_indexer.Sales.Stored.{or_stored, write_time_series_data_lem}
use ff_indexer.Sales.Lost.{write_time_series_data-refused}

abbrev tools : Tools
tools = record {
  parse_time = λ s. ok 5;
  parse_decimal128 = λ s. ok 7;
  sort_strings = λ l. l;
  hex_sha1 = λ s. s;
}

abbrev good : GenericSalesTimeSeries
good = record {
  timestamp = "2024-01-01T00:00:00Z";
  metadata = some (field "transactionIDs" (array (item (text_value "0x1") nil)) end);
  values = ("price", "7") ∷ [];
  shares = ("0xa", "7") ∷ [];
}

abbrev bad : GenericSalesTimeSeries
bad = record good { metadata = some end }

abbrev written : SaleDocument
written = record {
  timestamp = 5;
  unique_id = "0x1|";
  metadata = good.metadata;
  values = ("price", 7) ∷ [];
  shares = ("0xa", 7) ∷ [];
}

good_is_valid : documents_of tools (good ∷ []) [] ≡ ok (written ∷ [])
unfolding documents_of key_of document_of decimals_of value_of tokens_of_fields texts_of join_commas
    exists
good_is_valid = refl

write_time_series_data_lem_example :
    (s' : List SaleDocument) × (write_time_series_data tools (good ∷ []) (calm (written ∷ []))
      ≡ (ok tt, calm s'))
    × ((id : String)
        → select (has_unique_id tools id) s'
          ≡ or_stored tools (written ∷ []) id (find_first (has_unique_id tools id) (written ∷ [])))
write_time_series_data_lem_example =
    write_time_series_data_lem tools (good ∷ []) (written ∷ []) good_is_valid

bad_is_refused : key_of tools bad ≡ err wrong_format
unfolding key_of tokens_of_fields value_of
bad_is_refused = refl

write_time_series_data-refused_example :
    write_time_series_data tools ((good ∷ []) ++ bad ∷ []) (calm (written ∷ []))
    ≡ (err wrong_format, calm (remove_all (covers (written ∷ [])) (written ∷ [])))
write_time_series_data-refused_example =
    write_time_series_data-refused tools (good ∷ []) bad [] (written ∷ []) good_is_valid
      bad_is_refused
