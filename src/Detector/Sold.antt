-- ===== src/Detector/Sold.antt =====
-- `ParseEthereumTokenSale` of workflows_detector.go: what holds of every sale that it finds.
use ff_indexer.Prelude.{
  String, List, [], ◌∷◌, Bool, true, false, ◌==◌, Option, none, some, ◌≡◌, inl, inr, refl,
  if◌then◌else◌, All, Bool-cases, map, ◌++◌, ◌&&◌, not, eqb,
}
use mathlib.Core.Option.{some-injective}
use mathlib.Core.Path.{subst}
use ff_indexer.Exec.{Result, ok, err}
use ff_indexer.Exec.Success.{ok_injective}
use ff_indexer.IndexId.{Chains, token_index_id}
use ff_indexer.Sales.Documents.{after-ok}
use ff_indexer.Detector.{PayTransferData, entry_of, put, is_empty, sale_amounts}
use ff_indexer.Detector.Integers.{◌+ℤ◌}
use ff_indexer.Detector.Balanced.{total, sale_amounts-AddsUp}
use ff_indexer.Detector.Logs.{Log, classify_tx_logs}
use ff_indexer.Detector.Transfers.{
  Digits, TokenTransferData, TokenTxs, TokenSources, token_transfer_of, token_tx_map_key,
  joined_transfer, add_transfer, index_id_of, is_of_feralfile, then_sale, token_txs_of,
}
use ff_indexer.Detector.Ethereum.{
  TokenSale, Receipt, Config, Activities, info_of, token_sale, or_no_block, concluded, coin_of,
  has_two, paid_by_erc20, internal_payments, currency_of, parse_ethereum_token_sale,
}

then_sale-some :
    {A B : Type 0} (r : Result (Option A)) (f : A → Result (Option B)) {b : B}
    → then_sale r f ≡ ok (some b)
    → (a : A) × (r ≡ ok (some a)) × (f a ≡ ok (some b))
then_sale-some (ok (some a)) f h = (a, refl, h)
then_sale-some (ok none) f h = cc
then_sale-some (err e) f h = cc

unless_none :
    {A : Type 0} (b : Bool) (r : Result (Option A)) {a : A}
    → (if b then ok none else r) ≡ ok (some a)
    → r ≡ ok (some a)
unless_none true r h = cc
unless_none false r h = h

if_some :
    {A : Type 0} (b : Bool) (r : Result (Option A)) {a : A}
    → (if b then r else ok none) ≡ ok (some a)
    → (b ≡ true) × (r ≡ ok (some a))
if_some true r h = (refl, h)
if_some false r h = cc

module _ (c : Chains) (source_of : TokenSources) where
  -- The token of an entry is found, and its source is Feral File.
  abbrev pub IsPublished : String → String → Type 0
  IsPublished contract id =
      (source : Option String) × (source_of (token_index_id c c.ethereum contract id) ≡ ok source)
      × (is_of_feralfile source ≡ true)

  abbrev EntryIsPublished : String × TokenTransferData → Type 0
  EntryIsPublished entry = IsPublished entry.1.contract entry.1.token_id

  All-put :
      (key : String) (t : TokenTransferData) (txs : TokenTxs)
      → IsPublished t.contract t.token_id
      → All EntryIsPublished txs
      → All EntryIsPublished (put key t txs)
  unfolding put
  All-put key t [] h all = (h, tt)
  All-put key t (entry ∷ txs) h all = elim (Bool-cases (entry.0 == key)) [
    | inl e ↦ rw e (h, all.1)
    | inr e ↦ rw e (all.0, All-put key t txs h all.1)
  ]

  joined-IsPublished :
      (old : Option TokenTransferData) (t : TokenTransferData)
      → IsPublished t.contract t.token_id
      → IsPublished (joined_transfer old t).contract (joined_transfer old t).token_id
  joined-IsPublished none t h = h
  joined-IsPublished (some first) t h = h

  token_txs_of-IsPublished :
      (o : Digits) (logs : List Log) (txs : TokenTxs) {r : TokenTxs}
      → token_txs_of o c source_of logs txs ≡ ok (some r)
      → All EntryIsPublished txs
      → All EntryIsPublished r
  unfolding token_txs_of
  token_txs_of-IsPublished o [] txs {r} h all =
      subst (All EntryIsPublished) (some-injective txs r (ok_injective (some txs) (some r) h)) all
  token_txs_of-IsPublished o (l ∷ logs) txs {r} h all =
      let (t, is_transfer, later) = then_sale-some (token_transfer_of o l) _ h in
      let (source, found, rest) = after-ok (source_of (index_id_of o c source_of t)) _ later in
      let (published, next) = if_some (is_of_feralfile source) _ rest in
      let sold : IsPublished t.contract t.token_id = (source, found, published) in
      token_txs_of-IsPublished o logs (add_transfer t txs) next (
        All-put (token_tx_map_key t) (joined_transfer (entry_of (token_tx_map_key t) txs) t) txs
          (joined-IsPublished (entry_of (token_tx_map_key t) txs) t sold) all)

  All-info_of :
      (txs : TokenTxs)
      → All EntryIsPublished txs
      → All (λ info. IsPublished info.contract_address info.token_id) (map info_of txs)
  All-info_of [] all = tt
  All-info_of (entry ∷ txs) all = (all.0, All-info_of txs all.1)

-- What holds of a sale of a transaction.
pub record IsSaleOf (o : Config) (c : Chains) (w : Activities) (tx_id : String) (sale : TokenSale)
    : Type 0 where
  pub same_tx : sale.tx_id ≡ tx_id
  pub shares_add_up : total sale.shares ≡ sale.price
  pub revenue_adds_up : sale.net_revenue +ℤ sale.platform_fee ≡ sale.price
  pub price_is_paid : sale.payment_amount ≡ sale.price
  pub are_published :
      All
        (λ info. IsPublished c w.token_source info.contract_address info.token_id)
        sale.bundle_token_info

module _ (o : Config) (c : Chains) (w : Activities) (tx_id : String) where
  concluded-IsSaleOf :
      (receipt : Receipt) (tx_to currency : String) (txs : TokenTxs)
      (payments : List PayTransferData) {sale : TokenSale}
      → All (EntryIsPublished c w.token_source) txs
      → concluded o c w tx_id receipt tx_to currency txs payments ≡ ok (some sale)
      → IsSaleOf o c w tx_id sale
  concluded-IsSaleOf receipt tx_to currency txs payments {sale} published h =
      let (amounts, told, later) =
        then_sale-some (ok (sale_amounts o.settings tx_to payments)) _ h in
      let (header, read, later') =
        after-ok (w.get_ethereum_block_header_hash receipt.block_hash) _ later in
      let (time, dated, made) = after-ok (or_no_block header) _ later' in
      let sums =
        sale_amounts-AddsUp o.settings tx_to payments
          (ok_injective (sale_amounts o.settings tx_to payments) (some amounts) told) in
      subst (IsSaleOf o c w tx_id)
        (some-injective (token_sale tx_id currency txs amounts time) sale
          (ok_injective (some (token_sale tx_id currency txs amounts time)) (some sale) made))
        (record {
          same_tx = refl;
          shares_add_up = sums.0;
          revenue_adds_up = sums.1;
          price_is_paid = sums.2;
          are_published = All-info_of c w.token_source txs published;
        })

  -- Every sale that ParseEthereumTokenSale returns has the id of the transaction; its shares add
  -- up to its price, and so do its net revenue and the platform fee; the payment amount is the
  -- price; and each of its tokens is found with Feral File as its source.
  pub parse_ethereum_token_sale-IsSaleOf :
      {sale : TokenSale}
      → parse_ethereum_token_sale o c w tx_id ≡ ok (some sale)
      → IsSaleOf o c w tx_id sale
  unfolding parse_ethereum_token_sale
  parse_ethereum_token_sale-IsSaleOf h =
      let (receipt, r1, h1) = then_sale-some (w.get_ethereum_tx_receipt tx_id) _ h in
      let h2 = unless_none (eqb receipt.status 0) _ h1 in
      let (tx, r3, h3) = after-ok (w.get_ethereum_tx tx_id) _ h2 in
      let (tx_to, r4, h4) = then_sale-some (ok tx.to) _ h3 in
      let (logs, r5, h5) = after-ok (classify_tx_logs receipt.logs) _ h4 in
      let h6 = unless_none (coin_of tx == "ETH" && not (is_empty logs.erc20_transfers)) _ h5 in
      let h7 = unless_none (has_two logs.erc20_transfers) _ h6 in
      let (txs, r8, h8) =
        then_sale-some (token_txs_of o.digits c w.token_source logs.token_transfers []) _ h7 in
      let (paid, r9, h9) = after-ok (paid_by_erc20 o logs (coin_of tx)) _ h8 in
      let (itxs, r10, h10) = after-ok (w.get_ethereum_internal_txs tx_id) _ h9 in
      let (internal, r11, h11) = after-ok (internal_payments o itxs) _ h10 in
      concluded-IsSaleOf receipt tx_to (currency_of paid.0 itxs) txs (paid.1 ++ internal)
        (token_txs_of-IsPublished c w.token_source o.digits logs.token_transfers [] r8 tt) h11
