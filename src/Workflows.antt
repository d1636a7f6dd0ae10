-- ===== src/Workflows.antt =====
-- background/worker: the workflows that index token sales (workflows_detector.go,
-- workflows_indexer.go) and the activities that they execute (activities.go). The time an activity
-- takes, its retries, and the queues of Cadence are left out; an activity that fails for good
-- fails here.
pub mod Once
pub mod Blocks
mod Examples
use ff_indexer.Prelude.{
  ℕ, String, List, [], ◌∷◌, Bool, true, false, not, ◌&&◌, ◌==◌, Option, none, some, map, exists,
  if◌then◌else◌,
}
use ff_indexer.Exec.{Result, ok, err, Exec, perform, pure, ◌>>=◌}
use ff_indexer.Json.{Json, Items, Fields, text_value, array, object, nil, item, end, field}
use ff_indexer.IndexId.{Chains, token_index_id}
use ff_indexer.Mapper.Sales.{GenericSalesTimeSeries}
use ff_indexer.Sales.{SaleDocument, Tools, lift, of_metadata, write_time_series_data}
use ff_indexer.Detector.{Shares}
use ff_indexer.Detector.Integers.{ℤ}
use ff_indexer.Detector.Ethereum.{TokenSaleInfo, TokenSale}
use ff_indexer.Detector.Transfers.{TokenSources, is_of_feralfile}

-- `Format(time.RFC3339Nano)` and `big.Int.String`.
pub record Texts : Type 0 where
  pub format_time : ℕ → String
  pub integer_text : ℤ → String

abbrev pub text_entry : Texts → String × ℤ → String × String
text_entry f entry = (entry.0, f.integer_text entry.1)

-- `mapstructure.Decode` of a `TokenSaleInfo`
abbrev pub token_info : TokenSaleInfo → Json
token_info i = object (
    field "contractAddress" (text_value i.contract_address) (
      field "tokenID" (text_value i.token_id) (
        field "sellerAddress" (text_value i.seller_address)
          (field "buyerAddress" (text_value i.buyer_address) end))))

abbrev pub token_infos : List TokenSaleInfo → Items
token_infos [] = nil
token_infos (i ∷ is) = item (token_info i) (token_infos is)

abbrev pub sale_metadata : TokenSale → Fields
sale_metadata s = field "blockchain" (text_value s.blockchain) (
    field "marketplace" (text_value s.marketplace) (
      field "paymentCurrency" (text_value s.currency) (
        field "paymentMethod" (text_value "crypto") (
          field "pricingCurrency" (text_value s.currency) (
            field "revenueCurrency" (text_value s.currency) (
              field "saleType" (text_value "secondary") (
                field "transactionIDs" (array (item (text_value s.tx_id) nil))
                  (field "bundleTokenInfo" (array (token_infos s.bundle_token_info)) end))))))))

-- `ParseTokenSaleToGenericSalesTimeSeries`
abbrev pub generic_sales_time_series : Texts → TokenSale → GenericSalesTimeSeries
generic_sales_time_series f s = record {
  timestamp = f.format_time s.timestamp;
  metadata = some (sale_metadata s);
  values =
      ("price", f.integer_text s.price)
      ∷ ("platformFee", f.integer_text s.platform_fee)
      ∷ ("netRevenue", f.integer_text s.net_revenue)
      ∷ ("paymentAmount", f.integer_text s.payment_amount)
      ∷ ("exchangeRate", "1")
      ∷ [];
  shares = map (text_entry f) s.shares;
}

abbrev pub is_text : String → Json → Bool
is_text s (text_value t) = t == s
is_text s other = false

-- A query for a value matches it and the lists that have it.
unfoldable pub some_text : String → Items → Bool
some_text s nil = false
some_text s (item j js) = let rest = some_text s js in if is_text s j then true else rest

abbrev pub matches_text : String → Json → Bool
matches_text s (array js) = some_text s js
matches_text s (text_value t) = t == s
matches_text s other = false

abbrev pub is_sale_of : String → String → SaleDocument → Bool
is_sale_of tx_id blockchain d =
    matches_text tx_id (of_metadata "transactionIDs" d.metadata)
    && matches_text blockchain (of_metadata "blockchain" d.metadata)

-- `SaleTimeSeriesDataExists`, which `IndexedSaleTx` calls.
unfoldable pub indexed_sale_tx : String → String → Exec (List SaleDocument) Bool
indexed_sale_tx tx_id blockchain = perform λ s. (ok (exists (is_sale_of tx_id blockchain) s), s)

abbrev pub source_then : Result (Option String) → Result Bool → Result Bool
source_then (err e) rest = err e
source_then (ok source) rest = if is_of_feralfile source then rest else ok false

-- Whether Feral File published all tokens of a sale.
unfoldable pub all_of_feralfile : Chains → TokenSources → List TokenSaleInfo → Result Bool
all_of_feralfile c source_of [] = ok true
all_of_feralfile c source_of (i ∷ is) =
    let rest = all_of_feralfile c source_of is in
    source_then (source_of (token_index_id c c.tezos i.contract_address i.token_id)) rest

abbrev pub unless_indexed :
    Exec (List SaleDocument) (Unit {0}) → Bool → Exec (List SaleDocument) (Unit {0})
unless_indexed m true = pure tt
unless_indexed m false = m

abbrev pub check_indexed :
    Bool
    → String
    → String
    → Exec (List SaleDocument) (Unit {0})
    → Exec (List SaleDocument) (Unit {0})
check_indexed false tx_id blockchain m = m
check_indexed true tx_id blockchain m = indexed_sale_tx tx_id blockchain >>= unless_indexed m

module _ (o : Tools) (f : Texts) (c : Chains) where
  -- "Index token sale"
  abbrev pub record_sale : TokenSale → Exec (List SaleDocument) (Unit {0})
  record_sale sale = write_time_series_data o (generic_sales_time_series f sale ∷ [])

  abbrev pub record_if_sold : Option TokenSale → Exec (List SaleDocument) (Unit {0})
  record_if_sold none = pure tt
  record_if_sold (some sale) = record_sale sale

  -- `IndexEthereumTokenSale`, with what `ParseEthereumTokenSale` returns of a transaction.
  unfoldable pub index_ethereum_token_sale :
      (String → Result (Option TokenSale)) → String → Bool → Exec (List SaleDocument) (Unit {0})
  index_ethereum_token_sale parse tx_id skip_indexed =
      check_indexed skip_indexed tx_id c.ethereum (lift o (parse tx_id) >>= record_if_sold)

  abbrev pub record_if : TokenSale → Bool → Exec (List SaleDocument) (Unit {0})
  record_if sale true = record_sale sale
  record_if sale false = pure tt

  abbrev pub record_if_published :
      TokenSources → Option TokenSale → Exec (List SaleDocument) (Unit {0})
  record_if_published source_of none = pure tt
  record_if_published source_of (some sale) =
      lift o (all_of_feralfile c source_of sale.bundle_token_info) >>= record_if sale

  -- `IndexTezosObjktTokenSale`, with what `ParseTezosObjktTokenSale` returns of a transaction.
  unfoldable pub index_tezos_objkt_token_sale :
      TokenSources
      → (String → Result (Option TokenSale))
      → String
      → Bool
      → Exec (List SaleDocument) (Unit {0})
  index_tezos_objkt_token_sale source_of parse hash skip_indexed =
      check_indexed skip_indexed hash c.tezos
        (lift o (parse hash) >>= record_if_published source_of)
