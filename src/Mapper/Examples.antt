-- ===== src/Mapper/Examples.antt =====
-- Witnesses for sdk/grpc-gateway/mapper.go.
use ff_indexer.Prelude.{[], ◌∷◌, false, none, some, ◌≡◌, refl, map}
use ff_indexer.Exec.{ok}
use ff_indexer.Json.{end}
use ff_indexer.Catalog.Samples.{sample_base, sample_token, sample_metadata}
use ff_indexer.Mapper.{HeldToken, PendingAccountToken, map_grpc_token, map_indexer_token}
use ff_indexer.Mapper.RoundTrip.{received_held, map_grpc_token-map_indexer_token}
use ff_indexer.Mapper.Metadata.{DetailedToken, map_grpc_detailed_token, map_indexer_detailed_token}
use ff_indexer.Mapper.Metadata.RoundTrip.{
  received_detailed_token, map_grpc_detailed_token-map_indexer_detailed_token,
}
use ff_indexer.Mapper.Sales.{
  SaleTimeSeries, decimal_value, share_fields, map_grpc_sales, map_to_grpc_sales,
}
use ff_indexer.Mapper.Sales.RoundTrip.{received_sale, map_grpc_sales-map_to_grpc_sales}
use ff_indexer.Mapper.Wire.{GrpcSaleTimeSeries}
use ff_indexer.Mapper.Samples.{tally_codec, tally, count}
use ff_indexer.Mapper.Formats.{convert_each}

abbrev held : HeldToken
held = record { document = sample_token; balance = 2 }

map_grpc_token-map_indexer_token_example :
    map_grpc_token tally_codec (map_indexer_token tally_codec held) ≡ ok (received_held held)
map_grpc_token-map_indexer_token_example = map_grpc_token-map_indexer_token tally_codec held

abbrev pending : PendingAccountToken
pending = record {
  account = record {
    base = sample_base;
    index_id = "eth-0xc-7";
    owner_account = "0xa";
    balance = 1;
    last_activity_time = 5;
    last_refreshed_time = 6;
  };
  last_pending_time = 3 ∷ 4 ∷ [];
  pending_txs = "0x1" ∷ "0x2" ∷ [];
}

abbrev detailed : DetailedToken
detailed = record {
  token = held;
  thumbnail_id = "th";
  ipfs_pinned = false;
  attributes = none;
  project_metadata = record { origin = sample_metadata; latest = sample_metadata };
}

map_grpc_detailed_token-map_indexer_detailed_token_example :
    map_grpc_detailed_token tally_codec (map_indexer_detailed_token tally_codec detailed)
    ≡ ok (received_detailed_token detailed)
unfolding tally_codec
map_grpc_detailed_token-map_indexer_detailed_token_example =
    map_grpc_detailed_token-map_indexer_detailed_token tally_codec detailed ("null", refl)
      ("null", refl)

abbrev sale : SaleTimeSeries
sale = record {
  timestamp = 9;
  metadata = some end;
  shares = some (("0xa", decimal_value 4) ∷ []);
  net_value = 3;
  payment_amount = 4;
  platform_fee = 1;
  usd_quote = 2;
  price = 4;
}

abbrev sent_sale : GrpcSaleTimeSeries
sent_sale = record {
  timestamp = 9;
  metadata = "{}";
  shares = "{0xa:tttt}";
  net_value = "ttt";
  payment_amount = "tttt";
  platform_fee = "t";
  usd_quote = "tt";
  price = "tttt";
}

map_grpc_sales-map_to_grpc_sales_example :
    map_grpc_sales tally_codec (some (sent_sale ∷ []))
    ≡ ok (map (received_sale tally_codec) (sale ∷ []))
unfolding tally_codec share_fields map_to_grpc_sales tally count convert_each
map_grpc_sales-map_to_grpc_sales_example =
    map_grpc_sales-map_to_grpc_sales tally_codec (sale ∷ []) (sent_sale ∷ []) ((refl, refl), tt)
      refl
