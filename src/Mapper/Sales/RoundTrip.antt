-- ===== src/Mapper/Sales/RoundTrip.antt =====
-- sdk/grpc-gateway/mapper.go: sales that travel to the client.
use mathlib.Core.Option
use ff_indexer.Prelude.{String, List, [], ◌∷◌, Option, none, some, ap, map, All, ◌≡◌, refl}
use ff_indexer.Exec.{ok}
use ff_indexer.Json.{text_value}
use ff_indexer.Exec.Success.{ok_injective}
use ff_indexer.Mapper.Wire.{GrpcSaleTimeSeries}
use ff_indexer.Mapper.Formats.{Codec, convert_each, bind-ok}
use ff_indexer.Mapper.Sales.{
  SaleTimeSeries, ShareValue, json_value, decimal_value, shares_of, share_fields, write_shares,
  read_shares, map_to_grpc_sale, map_to_grpc_sales, map_grpc_sale, map_grpc_sales,
}

module _ (c : Codec) where
  open c use {unmarshal-marshal, decimal_string, parse_decimal128}

  -- A share as the client has it: a decimal has become its text.
  abbrev pub received_value : ShareValue → ShareValue
  received_value (json_value j) = json_value j
  received_value (decimal_value d) = json_value (text_value (decimal_string d))

  abbrev pub received_share : String × ShareValue → String × ShareValue
  received_share e = (e.0, received_value e.1)

  -- A sale as the client has it.
  unfoldable pub received_sale : SaleTimeSeries → SaleTimeSeries
  received_sale s = record s {
    shares = Option.map (map received_share) s.shares;
    platform_fee = s.payment_amount;
    usd_quote = s.payment_amount;
    price = s.payment_amount;
  }

  -- The two amounts that the client reads are read back.
  abbrev pub IsReadBack : SaleTimeSeries → Type 0
  IsReadBack s =
      (parse_decimal128 (decimal_string s.net_value) ≡ ok s.net_value)
      × (parse_decimal128 (decimal_string s.payment_amount) ≡ ok s.payment_amount)

  -- The values of the shares are written one by one.
  shares_of-share_fields :
      (l : List (String × ShareValue)) → shares_of (share_fields c l) ≡ map received_share l
  unfolding shares_of share_fields
  shares_of-share_fields [] = refl
  shares_of-share_fields ((name, json_value j) ∷ l) =
      ap (λ rest. (name, json_value j) ∷ rest) (shares_of-share_fields l)
  shares_of-share_fields ((name, decimal_value d) ∷ l) =
      ap (λ rest. (name, json_value (text_value (decimal_string d))) ∷ rest)
        (shares_of-share_fields l)

  read_shares-write_shares :
      (shares : Option (List (String × ShareValue))) (s : String)
      → write_shares c shares ≡ ok s
      → read_shares c s ≡ ok (Option.map (map received_share) shares)
  read_shares-write_shares none s writes = rw (unmarshal-marshal none s writes) refl
  read_shares-write_shares (some l) s writes =
      rw (unmarshal-marshal (some (share_fields c l)) s writes, shares_of-share_fields l) refl

  sale_round_trip :
      (s : SaleTimeSeries) (g : GrpcSaleTimeSeries)
      → IsReadBack s
      → map_to_grpc_sale c s ≡ ok g
      → map_grpc_sale c g ≡ ok (received_sale s)
  unfolding received_sale
  sale_round_trip s g (net, payment) sent =
      let (metadata, writes_metadata, later) = bind-ok _ _ sent in
      let (shares, writes_shares, last) = bind-ok _ _ later in
      rw (
        ← ok_injective _ _ last,
        net,
        payment,
        unmarshal-marshal s.metadata metadata writes_metadata,
        read_shares-write_shares s.shares shares writes_shares,
      )

  each_round_trip :
      (l : List SaleTimeSeries) (g : List GrpcSaleTimeSeries)
      → All IsReadBack l
      → convert_each (map_to_grpc_sale c) l ≡ ok g
      → convert_each (map_grpc_sale c) g ≡ ok (map received_sale l)
  unfolding convert_each
  each_round_trip [] g readable sent = rw (← ok_injective _ _ sent) refl
  each_round_trip (s ∷ l) g (first, rest) sent =
      let (g₀, sends, later) = bind-ok _ _ sent in
      let (gs, sends_rest, last) = bind-ok _ _ later in
      rw (
        ← ok_injective _ _ last,
        sale_round_trip s g₀ first sends,
        each_round_trip l gs rest sends_rest,
      )

  -- If sales can be mapped to messages, and the decimal parser reads their net values and payment
  -- amounts back, then the messages map back to sales with the same times, metadata, net values
  -- and payment amounts, with each decimal among the shares turned into its text and the other
  -- shares as they were, and with the fee, the quote and the price of each sale replaced by its
  -- payment amount.
  pub map_grpc_sales-map_to_grpc_sales :
      (l : List SaleTimeSeries) (g : List GrpcSaleTimeSeries)
      → All IsReadBack l
      → map_to_grpc_sales c l ≡ ok g
      → map_grpc_sales c (some g) ≡ ok (map received_sale l)
  unfolding map_grpc_sales map_to_grpc_sales
  map_grpc_sales-map_to_grpc_sales l g = each_round_trip l g
