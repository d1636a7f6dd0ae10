-- ===== src/Detector/Objkt.antt =====
-- background/worker/activities.go: `ParseTezosObjktTokenSale` and how it decodes the parameters of a
-- transfer.
use ff_indexer.Prelude.{
  ℕ, String, List, [], ◌∷◌, ◌++◌, Bool, true, false, not, ◌==◌, Option, none, some, one_of,
  if◌then◌else◌,
}
use ff_indexer.Exec.{Result, ok, err, wrong_format}
use ff_indexer.Json.{Json, Items, Fields, text_value, array, object, nil, item, end, field}
use ff_indexer.Sales.{after, value_of}
use ff_indexer.Detector.{PayTransferData, Sums, entry_of, accumulate_share, deduct_share, is_empty}
use ff_indexer.Detector.Integers.{pos, ◌+ℤ◌, ◌-ℤ◌}
use ff_indexer.Detector.Ethereum.{TokenSaleInfo, TokenSale}

-- `parseArraryMapInterface`
unfoldable pub maps_of_items : Items → Result (List Fields)
maps_of_items nil = ok []
maps_of_items (item (object m) js) = after (maps_of_items js) λ ms. ok (m ∷ ms)
maps_of_items (item other js) = err wrong_format

abbrev pub parse_array_map_interface : Json → Result (List Fields)
parse_array_map_interface (array js) = maps_of_items js
parse_array_map_interface other = err wrong_format

-- The fields `To` and `TokenID` of `tzkt.TxsFormat`; the amount is decoded and not used.
pub record TxsFormat : Type 0 where
  pub to : String
  pub token_id : String

pub record ParametersValue : Type 0 where
  pub from : String
  pub txs : List TxsFormat

abbrev pub text_in : Json → Result String
text_in (text_value s) = ok s
text_in other = err wrong_format

abbrev pub or_text_in : Result String → Json → Result String
or_text_in (ok s) j = ok s
or_text_in (err e) j = text_in j

abbrev pub txs_format : Fields → Result TxsFormat
txs_format tx = after (or_text_in (text_in (value_of "to_" tx)) (value_of "to" tx)) λ to.
    after (text_in (value_of "amount" tx)) λ amount.
      after (text_in (value_of "token_id" tx))
        λ token_id. ok (record { to = to; token_id = token_id })

unfoldable pub txs_formats : List Fields → Result (List TxsFormat)
txs_formats [] = ok []
txs_formats (tx ∷ txs) = after (txs_format tx) λ t. after (txs_formats txs) λ ts. ok (t ∷ ts)

-- The two values of a map are the transfers and the sender, in any order.
abbrev pub transfers_and_sender : Result (List Fields) → Json → Json → Result (List Fields × String)
transfers_and_sender (ok txs) first second = after (text_in second) λ from. ok (txs, from)
transfers_and_sender (err e) first second =
    after (parse_array_map_interface second) λ txs. after (text_in first) λ from. ok (txs, from)

abbrev pub split_values : Fields → Result (List Fields × String)
split_values (field name first (field name' second end)) =
    transfers_and_sender (parse_array_map_interface first) first second
split_values other = err wrong_format

abbrev pub parameters_value : Fields → Result ParametersValue
parameters_value m =
    after (split_values m)
      λ parts. after (txs_formats parts.0) λ txs. ok (record { from = parts.1; txs = txs })

unfoldable pub parameters_values : List Fields → Result (List ParametersValue)
parameters_values [] = ok []
parameters_values (m ∷ ms) =
    after (parameters_value m) λ p. after (parameters_values ms) λ ps. ok (p ∷ ps)

-- `decodeParametersValue`
abbrev pub decode_parameters_value : Json → Result (List ParametersValue)
decode_parameters_value input = after (parse_array_map_interface input) parameters_values

-- `tzkt.DetailedTransaction`; the fields that the code reads.
pub record Parameter : Type 0 where
  pub entry_point : String
  pub value : Json

pub record DetailedTransaction : Type 0 where
  pub status : String
  pub timestamp : ℕ
  pub sender : String
  pub target : String
  pub amount : ℕ
  pub parameter : Option Parameter

-- `OBJKTSaleEntrypoints` and `TezosOBJKTTreasuryProxyAddress`
abbrev pub objkt_sale_entrypoints : List String
objkt_sale_entrypoints = "fulfill_ask" ∷ "fulfill_offer" ∷ []

abbrev pub treasury_proxy_address : String
treasury_proxy_address = "KT19kCpYFxrNPegMBYKKH44szaqv8offqBRz"

-- What the loop over the transactions has found so far.
pub record ObjktSale : Type 0 where
  pub is_valid_objkt_sale_operation : Bool
  pub bundle_token_info : List TokenSaleInfo
  pub sums : Sums

abbrev pub infos_of_txs : String → String → List TxsFormat → List TokenSaleInfo
infos_of_txs contract from [] = []
infos_of_txs contract from (t ∷ ts) =
    record {
      contract_address = contract;
      token_id = t.token_id;
      seller_address = from;
      buyer_address = t.to;
    }
    ∷ infos_of_txs contract from ts

abbrev pub infos_of : String → List ParametersValue → List TokenSaleInfo
infos_of contract [] = []
infos_of contract (p ∷ ps) = infos_of_txs contract p.from p.txs ++ infos_of contract ps

abbrev pub is_objkt : Option String → Bool
is_objkt none = false
is_objkt (some name) = name == "Objkt"

-- `ToLower` and `marketplace.fee_wallets`
pub record ObjktSettings : Type 0 where
  pub to_lower : String → String
  pub platform_fee_wallets : List (String × String)

module _ (o : ObjktSettings) where
  abbrev pub accumulate_objkt_fee : PayTransferData → Sums → Sums
  accumulate_objkt_fee tx s =
      if is_objkt (entry_of (o.to_lower tx.to_address) o.platform_fee_wallets)
      then record { shares = s.shares; price = s.price; platform_fee = s.platform_fee +ℤ tx.amount }
      else s

  abbrev pub payment_of : DetailedTransaction → PayTransferData
  payment_of tx = record {
    from_address = tx.sender;
    to_address = tx.target;
    amount = pos tx.amount;
  }

  -- "process revenue shares transfers"
  abbrev pub add_revenue : PayTransferData → Sums → Sums
  add_revenue tx s =
      if tx.to_address == treasury_proxy_address
      then s
      else accumulate_objkt_fee tx (deduct_share tx (accumulate_share tx s))

  abbrev pub with_parameter : DetailedTransaction → ObjktSale → Option Parameter → Result ObjktSale
  with_parameter tx s none = ok (record s { sums = add_revenue (payment_of tx) s.sums })
  with_parameter tx s (some p) =
      if one_of objkt_sale_entrypoints p.entry_point
      then ok (record s { is_valid_objkt_sale_operation = true })
      else if p.entry_point == "transfer"
      then (after (decode_parameters_value p.value) λ values.
          ok (record s { bundle_token_info = s.bundle_token_info ++ infos_of tx.target values }))
      else ok s

  -- The loop; none for a transaction that was not applied.
  unfoldable pub objkt_sale : List DetailedTransaction → ObjktSale → Result (Option ObjktSale)
  objkt_sale [] s = ok (some s)
  objkt_sale (tx ∷ txs) s =
      let rest = after (with_parameter tx s tx.parameter) (objkt_sale txs) in
      if tx.status == "applied" then rest else ok none

  abbrev pub no_objkt_sale : ObjktSale
  no_objkt_sale = record {
    is_valid_objkt_sale_operation = false;
    bundle_token_info = [];
    sums = record { shares = []; price = pos 0; platform_fee = pos 0 };
  }

  abbrev pub objkt_token_sale : String → ℕ → ObjktSale → TokenSale
  objkt_token_sale hash time s = record {
    timestamp = time;
    bundle_token_info = s.bundle_token_info;
    price = s.sums.price;
    marketplace = "Objkt";
    blockchain = "tezos";
    currency = "XTZ";
    tx_id = hash;
    platform_fee = s.sums.platform_fee;
    net_revenue = s.sums.price -ℤ s.sums.platform_fee;
    payment_amount = s.sums.price;
    shares = s.sums.shares;
  }

  abbrev pub checked : String → ℕ → Option ObjktSale → Result (Option TokenSale)
  checked hash time none = ok none
  checked hash time (some s) =
      if not s.is_valid_objkt_sale_operation
      then err wrong_format
      else if is_empty s.bundle_token_info
      then err wrong_format
      else ok (some (objkt_token_sale hash time s))

  abbrev pub of_transactions : String → List DetailedTransaction → Result (Option TokenSale)
  of_transactions hash (tx ∷ tx' ∷ txs) =
      after (objkt_sale (tx ∷ tx' ∷ txs) no_objkt_sale) (checked hash tx.timestamp)
  of_transactions hash txs = err wrong_format

  -- `ParseTezosObjktTokenSale`, from what `GetTzktTransactionsByHash` returns.
  unfoldable pub parse_tezos_objkt_token_sale :
      String → Result (List DetailedTransaction) → Result (Option TokenSale)
  parse_tezos_objkt_token_sale hash txs = after txs (of_transactions hash)
