-- ===== src/Detector/Scenarios.antt =====
-- Witnesses for `ParseEthereumTokenSale`: a token that goes from a seller by a marketplace to a
-- buyer.
use ff_indexer.Prelude.{
  String, List, [], ◌∷◌, ◌==◌, none, some, ◌≡◌, refl, if◌then◌else◌, find_first,
}
use ff_indexer.Exec.{ok}
use ff_indexer.IndexId.Samples.{chains}
use ff_indexer.Detector.{entry_of, put, add_payments, marketplace_of_payments, sale_amounts}
use ff_indexer.Sales.{value_of}
use ff_indexer.Detector.Integers.{pos, ◌+ℤ◌, ◌-ℤ◌}
use ff_indexer.Detector.Logs.{Log, transfer_event_signature, classify_tx_logs, classify_logs}
use ff_indexer.Detector.Transfers.{Digits, TokenTransferData, TokenTxs, hex_to_dec, token_txs_of}
use ff_indexer.Detector.Bundle.{find_last, token_txs_of_lem}
use ff_indexer.Detector.Ethereum.{
  TokenSale, Config, Activities, internal_payments, erc20_payments, parse_ethereum_token_sale,
}
use ff_indexer.Json.{Json, text_value, array, object, nil, item, end, field}
use ff_indexer.Detector.Objkt.{
  ObjktSettings, DetailedTransaction, maps_of_items, txs_formats, parameters_values, objkt_sale,
  parse_tezos_objkt_token_sale,
}
use ff_indexer.Detector.ObjktSold.{IsObjktSaleOf, parse_tezos_objkt_token_sale-IsObjktSaleOf}
use ff_indexer.Detector.Sold.{IsSaleOf, parse_ethereum_token_sale-IsSaleOf}

abbrev pub digits : Digits
digits = record {
  address_of = λ s. s;
  trim_0x = λ s. s;
  parse_hex = λ s. if s == "7" then some 7 else none;
  parse_decimal = λ s. none;
  decimal_text = λ n. "7";
  hex_of_bytes = λ n. "7";
}

abbrev transfer_log : String → String → Log
transfer_log from to = record {
  address = "0xart";
  topics = transfer_event_signature ∷ from ∷ to ∷ "7" ∷ [];
  data_bytes = [];
}

abbrev moved_token : String → String → TokenTransferData
moved_token from to = record { from = from; to = to; token_id = "7"; contract = "0xart" }

abbrev by_market : List Log
by_market = transfer_log "0xseller" "0xmarket" ∷ transfer_log "0xmarket" "0xbuyer" ∷ []

token_txs_of_lem_example :
    (r : TokenTxs) × (token_txs_of digits chains (λ id. ok (some "feralfile")) by_market []
      ≡ ok (some r))
    × (entry_of "0xart-7" r ≡ some (moved_token "0xseller" "0xbuyer"))
unfolding hex_to_dec find_first find_last
token_txs_of_lem_example =
    token_txs_of_lem digits chains (λ id. ok (some "feralfile")) "0xart-7" by_market
      (moved_token "0xseller" "0xmarket" ∷ moved_token "0xmarket" "0xbuyer" ∷ []) (refl, (refl, tt))
      (refl, (refl, tt)) refl refl

abbrev config : Config
config = record {
  settings = record {
    to_lower = λ s. s;
    marketplace_contracts = ("0xmarket", "OpenSea") ∷ [];
    platform_fee_wallets = ("0xfees", "OpenSea") ∷ [];
    open_sea_old_fee_wallet = "0xold";
    fixed_fee = λ price. pos 0;
  };
  erc20_contracts = [];
  digits = digits;
  parse_integer = λ s. some (if s == "90" then pos 90 else pos 10);
}

abbrev activities : Activities
activities = record {
  get_ethereum_tx_receipt = λ tx. ok (
      some (record {
        status = 1;
        logs = some (transfer_log "0xseller" "0xbuyer") ∷ [];
        block_hash = "0xblock";
      }));
  get_ethereum_tx = λ tx. ok (record { to = some "0xmarket"; value = 100 });
  get_ethereum_internal_txs = λ tx. ok (
      record { from = "0xmarket"; to = "0xseller"; value = "90" }
      ∷ record { from = "0xmarket"; to = "0xfees"; value = "10" }
      ∷ []);
  get_ethereum_block_header_hash = λ hash. ok (some 1000);
  token_source = λ id. ok (some "feralfile");
}

abbrev sale : TokenSale
sale = record {
  timestamp = 1000;
  bundle_token_info =
      record {
        contract_address = "0xart";
        token_id = "7";
        seller_address = "0xseller";
        buyer_address = "0xbuyer";
      }
      ∷ [];
  price = pos 100;
  marketplace = "OpenSea";
  blockchain = "ethereum";
  currency = "ETH";
  tx_id = "0xtx";
  platform_fee = pos 10;
  net_revenue = pos 90;
  payment_amount = pos 100;
  shares = ("0xseller", pos 90) ∷ ("0xfees", pos 10) ∷ [];
}

is_sold : parse_ethereum_token_sale config chains activities "0xtx" ≡ ok (some sale)
unfolding parse_ethereum_token_sale classify_tx_logs classify_logs token_txs_of entry_of put
    sale_amounts add_payments marketplace_of_payments internal_payments erc20_payments ◌+ℤ◌ ◌-ℤ◌
    hex_to_dec
is_sold = refl

parse_ethereum_token_sale-IsSaleOf_example : IsSaleOf config chains activities "0xtx" sale
parse_ethereum_token_sale-IsSaleOf_example =
    parse_ethereum_token_sale-IsSaleOf config chains activities "0xtx" is_sold

abbrev objkt : ObjktSettings
objkt = record { to_lower = λ s. s; platform_fee_wallets = ("tz1fees", "Objkt") ∷ [] }

abbrev applied : DetailedTransaction
applied = record {
  status = "applied";
  timestamp = 1000;
  sender = "tz1buyer";
  target = "KT1market";
  amount = 100;
  parameter = none;
}

-- The parameter of a transfer of token 7.
abbrev transfer_value : Json
transfer_value = array (
    item
      (object (
        field "from_" (text_value "tz1seller") (
          field "txs"
            (array (
              item
                (object (
                  field "to_" (text_value "tz1buyer")
                    (field "amount" (text_value "1") (field "token_id" (text_value "7") end))))
                nil))
            end)))
      nil)

abbrev objkt_transactions : List DetailedTransaction
objkt_transactions =
    record applied { parameter = some (record { entry_point = "fulfill_ask"; value = array nil }) }
    ∷ record applied { sender = "KT1market"; target = "tz1fees"; amount = 10 }
    ∷ record applied { sender = "KT1market"; target = "tz1seller"; amount = 90 }
    ∷ record applied {
      target = "KT1art";
      parameter = some (record { entry_point = "transfer"; value = transfer_value });
    }
    ∷ []

abbrev objkt_sale_found : TokenSale
objkt_sale_found = record {
  timestamp = 1000;
  bundle_token_info =
      record {
        contract_address = "KT1art";
        token_id = "7";
        seller_address = "tz1seller";
        buyer_address = "tz1buyer";
      }
      ∷ [];
  price = pos 100;
  marketplace = "Objkt";
  blockchain = "tezos";
  currency = "XTZ";
  tx_id = "oohash";
  platform_fee = pos 10;
  net_revenue = pos 90;
  payment_amount = pos 100;
  shares = ("tz1fees", pos 10) ∷ ("tz1seller", pos 90) ∷ [];
}

is_objkt_sale :
    parse_tezos_objkt_token_sale objkt "oohash" (ok objkt_transactions) ≡ ok (some objkt_sale_found)
unfolding parse_tezos_objkt_token_sale objkt_sale maps_of_items txs_formats parameters_values
    entry_of put ◌+ℤ◌ ◌-ℤ◌ value_of
is_objkt_sale = refl

parse_tezos_objkt_token_sale-IsObjktSaleOf_example : IsObjktSaleOf "oohash" objkt_sale_found
parse_tezos_objkt_token_sale-IsObjktSaleOf_example =
    parse_tezos_objkt_token_sale-IsObjktSaleOf objkt "oohash" (ok objkt_transactions) is_objkt_sale
