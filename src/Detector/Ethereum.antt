-- ===== src/Detector/Ethereum.antt =====
-- `ParseEthereumTokenSale` of background/worker/workflows_detector.go. What its activities return is
-- given: the receipt, the transaction and its internal transactions, the block, and the sources of
-- tokens.
use ff_indexer.Prelude.{
  ℕ, String, List, [], ◌∷◌, ◌++◌, Bool, true, false, not, ◌&&◌, ◌==◌, Option, none, some, eqb, ltb,
  map, if◌then◌else◌,
}
use ff_indexer.Exec.{Result, ok, err, no_documents, bad_decimal, panicked, unset}
use ff_indexer.IndexId.{Chains}
use ff_indexer.Sales.{after}
use ff_indexer.Detector.{
  PayTransferData, Settings, Shares, SaleAmounts, entry_of, is_empty, sale_amounts,
}
use ff_indexer.Detector.Integers.{ℤ, pos}
use ff_indexer.Detector.Logs.{Log, TxLogs, classify_tx_logs}
use ff_indexer.Detector.Transfers.{
  Digits, TokenTransferData, TokenTxs, TokenSources, number_of_bytes, then_sale, token_txs_of,
}

-- `TokenSaleInfo`
pub record TokenSaleInfo : Type 0 where
  pub contract_address : String
  pub token_id : String
  pub seller_address : String
  pub buyer_address : String

-- `TokenSale`
pub record TokenSale : Type 0 where
  pub timestamp : ℕ
  pub bundle_token_info : List TokenSaleInfo
  pub price : ℤ
  pub marketplace : String
  pub blockchain : String
  pub currency : String
  pub tx_id : String
  pub platform_fee : ℤ
  pub net_revenue : ℤ
  pub payment_amount : ℤ
  pub shares : Shares

-- `types.Receipt`, `types.Transaction` and `etherscan.Transaction`; the fields that the code reads.
pub record Receipt : Type 0 where
  pub status : ℕ
  pub logs : List (Option Log)
  pub block_hash : String

pub record Transaction : Type 0 where
  pub to : Option String
  pub value : ℕ

pub record InternalTransaction : Type 0 where
  pub from : String
  pub to : String
  pub value : String

-- The activities that `ParseEthereumTokenSale` executes. A block is read as its time.
pub record Activities : Type 0 where
  pub get_ethereum_tx_receipt : String → Result (Option Receipt)
  pub get_ethereum_tx : String → Result Transaction
  pub get_ethereum_internal_txs : String → Result (List InternalTransaction)
  pub get_ethereum_block_header_hash : String → Result (Option ℕ)
  pub token_source : TokenSources

-- The configuration: of payments, and `ethereum.erc20`, the currencies by contract. And the
-- integers of decimal texts, `SetString(s, 10)`.
pub record Config : Type 0 where
  pub settings : Settings
  pub erc20_contracts : List (String × String)
  pub digits : Digits
  pub parse_integer : String → Option ℤ

abbrev pub or_currency : Option String → String → String
or_currency none currency = currency
or_currency (some c) currency = c

abbrev pub flattened : List (String × List Log) → List Log
flattened [] = []
flattened (entry ∷ entries) = entry.1 ++ flattened entries

-- "Assume the currency is ETH if not paid by ERC20 tokens and there are internal txs"
abbrev pub currency_of : String → List InternalTransaction → String
currency_of currency itxs = if not (is_empty itxs) && currency == "" then "ETH" else currency

abbrev pub info_of : String × TokenTransferData → TokenSaleInfo
info_of entry = record {
  contract_address = entry.1.contract;
  token_id = entry.1.token_id;
  seller_address = entry.1.from;
  buyer_address = entry.1.to;
}

abbrev pub token_sale : String → String → TokenTxs → SaleAmounts → ℕ → TokenSale
token_sale tx_id currency txs a time = record {
  timestamp = time;
  bundle_token_info = map info_of txs;
  price = a.price;
  marketplace = a.marketplace;
  blockchain = "ethereum";
  currency = currency;
  tx_id = tx_id;
  platform_fee = a.platform_fee;
  net_revenue = a.net_revenue;
  payment_amount = a.payment_amount;
  shares = a.shares;
}

abbrev pub coin_of : Transaction → String
coin_of tx = if ltb 0 tx.value then "ETH" else ""

abbrev pub has_two : {A : Type 0} → List A → Bool
has_two (a ∷ b ∷ rest) = true
has_two other = false

module _ (o : Config) where
  abbrev pub sides : Log → List String → Result PayTransferData
  sides l (topic0 ∷ topic1 ∷ topic2 ∷ topics) = ok (record {
    from_address = o.digits.address_of topic1;
    to_address = o.digits.address_of topic2;
    amount = pos (number_of_bytes 0 l.data_bytes);
  })
  sides l topics = err panicked

  -- The loop over the ERC20 transfers: the currency and the payments.
  unfoldable pub erc20_payments : List Log → String → Result (String × List PayTransferData)
  erc20_payments [] currency = ok (currency, [])
  erc20_payments (l ∷ logs) currency = after (sides l l.topics) λ payment.
      after
        (erc20_payments logs
          (or_currency (entry_of (o.settings.to_lower l.address) o.erc20_contracts) currency))
        λ rest. ok (rest.0, payment ∷ rest.1)

  -- The payments in ERC20 tokens, if there are any.
  abbrev pub paid_by_erc20 : TxLogs → String → Result (String × List PayTransferData)
  paid_by_erc20 logs currency =
      if is_empty logs.erc20_transfers
      then ok (currency, [])
      else if is_empty o.erc20_contracts
      then err unset
      else erc20_payments (flattened logs.erc20_transfers) currency

  abbrev pub internal_payment : InternalTransaction → Option ℤ → Result PayTransferData
  internal_payment itx none = err bad_decimal
  internal_payment itx (some amount) = ok (record {
    from_address = o.digits.address_of itx.from;
    to_address = o.digits.address_of itx.to;
    amount = amount;
  })

  unfoldable pub internal_payments : List InternalTransaction → Result (List PayTransferData)
  internal_payments [] = ok []
  internal_payments (itx ∷ itxs) =
      after (internal_payment itx (o.parse_integer itx.value))
        λ p. after (internal_payments itxs) λ payments. ok (p ∷ payments)

abbrev pub or_no_block : Option ℕ → Result ℕ
or_no_block none = err no_documents
or_no_block (some time) = ok time

module _ (o : Config) (c : Chains) (w : Activities) where
  -- From the payments and the tokens to the sale.
  abbrev pub concluded :
      String
      → Receipt
      → String
      → String
      → TokenTxs
      → List PayTransferData
      → Result (Option TokenSale)
  concluded tx_id receipt tx_to currency txs payments =
      then_sale (ok (sale_amounts o.settings tx_to payments)) λ amounts.
        after (w.get_ethereum_block_header_hash receipt.block_hash) λ header.
          after (or_no_block header) λ time. ok (some (token_sale tx_id currency txs amounts time))

  -- The payments of a transaction with its classified logs.
  abbrev pub with_payments :
      String → Receipt → String → String → TxLogs → TokenTxs → Result (Option TokenSale)
  with_payments tx_id receipt tx_to coin logs txs = after (paid_by_erc20 o logs coin) λ paid.
      after (w.get_ethereum_internal_txs tx_id) λ itxs.
        after (internal_payments o itxs) λ internal.
          concluded tx_id receipt tx_to (currency_of paid.0 itxs) txs (paid.1 ++ internal)

  abbrev pub with_logs : String → Receipt → String → String → TxLogs → Result (Option TokenSale)
  with_logs tx_id receipt tx_to coin logs =
      if coin == "ETH" && not (is_empty logs.erc20_transfers)
      then ok none
      else if has_two logs.erc20_transfers
      then ok none
      else then_sale (token_txs_of o.digits c w.token_source logs.token_transfers [])
          (with_payments tx_id receipt tx_to coin logs)

  abbrev pub with_receipt : String → Receipt → Result (Option TokenSale)
  with_receipt tx_id receipt =
      if eqb receipt.status 0
      then ok none
      else after (w.get_ethereum_tx tx_id) λ tx.
        then_sale (ok tx.to) λ tx_to.
          after (classify_tx_logs receipt.logs) (with_logs tx_id receipt tx_to (coin_of tx))

  -- `ParseEthereumTokenSale`: none for a transaction that is no sale.
  unfoldable pub parse_ethereum_token_sale : String → Result (Option TokenSale)
  parse_ethereum_token_sale tx_id = then_sale (w.get_ethereum_tx_receipt tx_id) (with_receipt tx_id)
