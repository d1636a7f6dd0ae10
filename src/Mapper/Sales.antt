-- ===== src/Mapper/Sales.antt =====
-- sdk/grpc-gateway/mapper.go: sales, revenues and exchange rates.
pub mod RoundTrip
use mathlib.Core.Option
use ff_indexer.Prelude.{ℕ, String, List, [], ◌∷◌, Option, none, some, map, All, ◌≡◌, refl, ap}
use ff_indexer.Exec.{Result, ok, err}
use ff_indexer.Json.{Json, text_value, Fields, end, field}
use ff_indexer.Mapper.Wire.{GrpcSaleTimeSeriesRecord, GrpcSaleTimeSeries, GrpcExchangeRateResponse}
use ff_indexer.Mapper.Formats.{Codec, convert_each, ◌>>=◌}

-- structs.go: `GenericSalesTimeSeries`; the values and shares are the entries of maps.
pub record GenericSalesTimeSeries : Type 0 where
  pub timestamp : String
  pub metadata : Option Fields
  pub values : List (String × String)
  pub shares : List (String × String)

-- The values of the map of shares, which is decoded from BSON or from JSON: a `Decimal128` by its
-- bits, or a value that JSON has too.
pub data ShareValue : Type 0 where
  json_value : Json → ShareValue
  decimal_value : ℕ → ShareValue

-- structs.go: `SaleTimeSeries`; the numbers are the bits of decimals, and the shares the entries of
-- the map, if it is not nil.
pub record SaleTimeSeries : Type 0 where
  pub timestamp : ℕ
  pub metadata : Option Fields
  pub shares : Option (List (String × ShareValue))
  pub net_value : ℕ
  pub payment_amount : ℕ
  pub platform_fee : ℕ
  pub usd_quote : ℕ
  pub price : ℕ

pub record ExchangeRate : Type 0 where
  pub timestamp : ℕ
  pub price : ℕ
  pub currency_pair : String

-- `MapToExchangeRateResponse`
abbrev pub map_to_exchange_rate_response : ExchangeRate → GrpcExchangeRateResponse
map_to_exchange_rate_response r = record {
  timestamp = r.timestamp;
  price = r.price;
  currency_pair = r.currency_pair;
}

-- `MapGrpcExchangeRateResponseToIndexerExchangeRate`
abbrev pub map_grpc_exchange_rate_response : GrpcExchangeRateResponse → ExchangeRate
map_grpc_exchange_rate_response r = record {
  timestamp = r.timestamp;
  price = r.price;
  currency_pair = r.currency_pair;
}

unfoldable pub shares_of : Fields → List (String × ShareValue)
shares_of end = []
shares_of (field name value rest) = (name, json_value value) ∷ shares_of rest

module _ (c : Codec) where
  open c use {marshal, unmarshal, decimal_string, parse_decimal128, new_struct, as_map}

  -- What `json.Marshal` writes of a share: a `Decimal128` as the text of its `MarshalJSON`.
  abbrev pub share_json : ShareValue → Json
  share_json (json_value j) = j
  share_json (decimal_value d) = text_value (decimal_string d)

  unfoldable pub share_fields : List (String × ShareValue) → Fields
  share_fields [] = end
  share_fields ((name, share) ∷ rest) = field name (share_json share) (share_fields rest)

  -- `MapToJson` of the shares
  abbrev pub write_shares : Option (List (String × ShareValue)) → Result String
  write_shares shares = marshal (Option.map share_fields shares)

  -- `json.Unmarshal` into the shares
  abbrev pub read_shares : String → Result (Option (List (String × ShareValue)))
  read_shares s = unmarshal s >>= λ m. ok (Option.map shares_of m)

  abbrev pub map_to_grpc_sale : SaleTimeSeries → Result GrpcSaleTimeSeries
  map_to_grpc_sale s = do
    metadata ← marshal s.metadata
    shares ← write_shares s.shares
    ok (record {
      timestamp = s.timestamp;
      metadata = metadata;
      shares = shares;
      net_value = decimal_string s.net_value;
      payment_amount = decimal_string s.payment_amount;
      platform_fee = decimal_string s.platform_fee;
      usd_quote = decimal_string s.usd_quote;
      price = decimal_string s.price;
    })

  -- `MapToGrpcSaleTimeSeriesListResponse`
  unfoldable pub map_to_grpc_sales : List SaleTimeSeries → Result (List GrpcSaleTimeSeries)
  map_to_grpc_sales sales = convert_each map_to_grpc_sale sales

  -- `MapToGrpcSaleRevenuesResponse`, on the entries of the map
  unfoldable pub map_to_grpc_sale_revenues : List (String × ℕ) → List (String × String)
  map_to_grpc_sale_revenues revenues = map (λ e. (e.0, decimal_string e.1)) revenues

  abbrev pub map_grpc_sale : GrpcSaleTimeSeries → Result SaleTimeSeries
  map_grpc_sale s = do
    net_value ← parse_decimal128 s.net_value
    payment_amount ← parse_decimal128 s.payment_amount
    platform_fee ← parse_decimal128 s.payment_amount
    usd_quote ← parse_decimal128 s.payment_amount
    price ← parse_decimal128 s.payment_amount
    metadata ← unmarshal s.metadata
    shares ← read_shares s.shares
    ok (record {
      timestamp = s.timestamp;
      metadata = metadata;
      shares = shares;
      net_value = net_value;
      payment_amount = payment_amount;
      platform_fee = platform_fee;
      usd_quote = usd_quote;
      price = price;
    })

  -- `MapGrpcSaleTimeSeriesListResponseToIndexerSaleTimeSeries`
  unfoldable pub map_grpc_sales : Option (List GrpcSaleTimeSeries) → Result (List SaleTimeSeries)
  map_grpc_sales none = ok []
  map_grpc_sales (some sales) = convert_each map_grpc_sale sales

  abbrev pub map_generic_sale : GenericSalesTimeSeries → Result GrpcSaleTimeSeriesRecord
  map_generic_sale v = do
    metadata ← new_struct v.metadata
    ok (record {
      timestamp = v.timestamp;
      metadata = metadata;
      values = v.values;
      shares = v.shares;
    })

  abbrev pub or_no_records :
      Result (List GrpcSaleTimeSeriesRecord) → Option (List GrpcSaleTimeSeriesRecord)
  or_no_records (ok records) = some records
  or_no_records (err e) = none

  -- `MapGenericSaleTimeSeries`, where the slice is not nil
  unfoldable pub map_generic_sales :
      List GenericSalesTimeSeries → Option (List GrpcSaleTimeSeriesRecord)
  map_generic_sales s = or_no_records (convert_each map_generic_sale s)

  abbrev pub map_grpc_sale_record : GrpcSaleTimeSeriesRecord → GenericSalesTimeSeries
  map_grpc_sale_record v = record {
    timestamp = v.timestamp;
    metadata = some (as_map v.metadata);
    values = v.values;
    shares = v.shares;
  }

  -- `MapGrpcSaleTimeSeriesRecords`
  unfoldable pub map_grpc_sale_records :
      Option (List GrpcSaleTimeSeriesRecord) → List GenericSalesTimeSeries
  map_grpc_sale_records none = []
  map_grpc_sale_records (some records) = map map_grpc_sale_record records
