-- ===== src/Workflows/Once.antt =====
-- `IndexEthereumTokenSale` of background/worker/workflows_detector.go with what it calls of store.go:
-- a sale is stored, once.
use Prim.Native.String as String
use ff_indexer.Prelude.{
  ℕ, ◌<◌, String, List, [], ◌∷◌, ◌++◌, Bool, true, false, Option, some, ◌≡◌, inl, inr, refl, arith,
  All, map, exists, remove_all, Bool-cases, eq_refl,
}
use mathlib.Core.Path.{subst}
use ff_indexer.Exec.{Result, ok, Exec, calm, perform, pure}
use ff_indexer.IndexId.{Chains}
use ff_indexer.Mapper.Sales.{GenericSalesTimeSeries}
use ff_indexer.Sales.{
  SaleDocument, Tools, value_of, is_reserved, unique_id, tokens_of_items, tokens_of_fields,
  texts_of, key_of, document_of, decimals_of,
}
use ff_indexer.Sales.Documents.{documents_of, covers, exists-append_one}
use ff_indexer.Sales.Stored.{run-write_time_series_data}
use ff_indexer.Detector.{Shares}
use ff_indexer.Detector.Integers.{ℤ, pos_part, neg_part}
use ff_indexer.Detector.Ethereum.{TokenSaleInfo, TokenSale}
use ff_indexer.Workflows.{
  Texts, text_entry, token_infos, sale_metadata, generic_sales_time_series, is_sale_of, some_text,
  indexed_sale_tx, index_ethereum_token_sale,
}

-- A decimal of 128 bits has 34 digits.
abbrev pub IsExact : ℤ → Type 0
IsExact z =
    (pos_part z < 10000000000000000000000000000000000)
    × (neg_part z < 10000000000000000000000000000000000)

-- What is relied on of the texts of times and decimals: those that are written are read, if they
-- are short enough.
pub record AreReadable (o : Tools) (f : Texts) : Type 0 where
  pub time_of : ℕ → ℕ
  pub time_of_text : (t : ℕ) → o.parse_time (f.format_time t) ≡ ok (time_of t)
  pub decimal : ℤ → ℕ
  pub decimal_of_integer :
      (z : ℤ) → IsExact z → o.parse_decimal128 (f.integer_text z) ≡ ok (decimal z)
  pub one : ℕ
  pub decimal_of_one : o.parse_decimal128 "1" ≡ ok one

-- No address that got a share is the name of a field of the documents, and the shares are exact.
abbrev pub AreStorable : Shares → Type 0
AreStorable = All (λ share. (is_reserved share.0 ≡ false) × IsExact share.1)

abbrev pub IsStorable : TokenSale → Type 0
IsStorable s =
    (IsExact s.price × IsExact s.platform_fee × IsExact s.net_revenue × IsExact s.payment_amount)
    × AreStorable s.shares

module _ (o : Tools) (f : Texts) (readable : AreReadable o f) where
  tokens-token_infos :
      (sale : TokenSale) (is : List TokenSaleInfo)
      → (tokens : List String) × (tokens_of_items (some (sale_metadata sale)) (token_infos is)
          ≡ ok tokens)
  unfolding tokens_of_items value_of
  tokens-token_infos sale [] = ([], refl)
  tokens-token_infos sale (i ∷ is) =
      let (tokens, h) = tokens-token_infos sale is in
      (
        String.◌++◌ sale.blockchain
              (String.◌++◌ "-" (String.◌++◌ i.contract_address (String.◌++◌ "-" i.token_id)))
            ∷ tokens,
        rw h refl,
      )

  decimals-shares :
      (shares : Shares)
      → AreStorable shares
      → (decimals : List (String × ℕ)) × (decimals_of o (map (text_entry f) shares) ≡ ok decimals)
  unfolding decimals_of
  decimals-shares [] plain = ([], refl)
  decimals-shares (share ∷ shares) plain =
      let (decimals, h) = decimals-shares shares plain.1 in
      (
        (share.0, readable.decimal share.1) ∷ decimals,
        rw (plain.0.0, readable.decimal_of_integer share.1 plain.0.1, h) refl,
      )

  abbrev series : TokenSale → GenericSalesTimeSeries
  series = generic_sales_time_series f

  key_of_sale : (sale : TokenSale) → (key : ℕ × String) × (key_of o (series sale) ≡ ok key)
  unfolding key_of tokens_of_fields texts_of value_of
  key_of_sale sale =
      let (tokens, h) = tokens-token_infos sale sale.bundle_token_info in
      (
        (readable.time_of sale.timestamp, unique_id o (sale.tx_id ∷ []) (tokens ++ [])),
        rw (readable.time_of_text sale.timestamp, h) refl,
      )

  document :
      (sale : TokenSale) (key : ℕ × String)
      → IsStorable sale
      → (d : SaleDocument) × (document_of o key (series sale) ≡ ok d)
        × (d.metadata ≡ some (sale_metadata sale))
  unfolding document_of decimals_of
  document sale key ((price, fee, revenue, paid), plain) =
      let (shares, h) = decimals-shares sale.shares plain in
      (
        record {
          timestamp = key.0;
          unique_id = key.1;
          metadata = some (sale_metadata sale);
          values =
              ("price", readable.decimal sale.price)
              ∷ ("platformFee", readable.decimal sale.platform_fee)
              ∷ ("netRevenue", readable.decimal sale.net_revenue)
              ∷ ("paymentAmount", readable.decimal sale.payment_amount)
              ∷ ("exchangeRate", readable.one)
              ∷ [];
          shares = shares;
        },
        rw
            (
              readable.decimal_of_integer sale.price price,
              readable.decimal_of_integer sale.platform_fee fee,
              readable.decimal_of_integer sale.net_revenue revenue,
              readable.decimal_of_integer sale.payment_amount paid,
              readable.decimal_of_one,
              h,
            )
            refl,
        refl,
      )

  documents :
      (sale : TokenSale)
      → IsStorable sale
      → (d : SaleDocument) × (documents_of o (series sale ∷ []) [] ≡ ok (d ∷ []))
        × (d.metadata ≡ some (sale_metadata sale))
  unfolding documents_of exists
  documents sale plain =
      let (k, is_key) = key_of_sale sale in
      let (d, made, same) = document sale k plain in (d, rw (is_key, made) refl, same)

  -- The stored sale is one of its transaction.
  is_sale_of-document :
      (sale : TokenSale) (d : SaleDocument)
      → d.metadata ≡ some (sale_metadata sale)
      → is_sale_of sale.tx_id sale.blockchain d ≡ true
  unfolding value_of some_text
  is_sale_of-document sale d h = rw (h, eq_refl sale.tx_id, eq_refl sale.blockchain) refl

  exists-last :
      (p : SaleDocument → Bool) (l : List SaleDocument) (d : SaleDocument)
      → p d ≡ true
      → exists p (l ++ d ∷ []) ≡ true
  exists-last p l d h = rw (exists-append_one p l d, h) (ground arith)

  module _ (c : Chains) (parse : String → Result (Option TokenSale)) (tx_id : String) where
    abbrev pub index : Exec (List SaleDocument) (Unit {0})
    index = index_ethereum_token_sale o f c parse tx_id true

    index-indexed :
        (stored : List SaleDocument)
        → exists (is_sale_of tx_id c.ethereum) stored ≡ true
        → index (calm stored) ≡ (ok tt, calm stored)
    unfolding index_ethereum_token_sale indexed_sale_tx perform pure
    index-indexed stored h = rw h refl

    -- Take a transaction whose parsing gives a sale of it on Ethereum, no share of which is for a
    -- reserved name and whose amounts have at most 34 digits, and texts of times and amounts that
    -- are read back. With no failing call, IndexEthereumTokenSale that skips indexed transactions
    -- succeeds, the transaction is then stored, and a second run succeeds and changes nothing.
    pub index_ethereum_token_sale_once :
        (stored : List SaleDocument) {sale : TokenSale}
        → parse tx_id ≡ ok (some sale)
        → sale.tx_id ≡ tx_id
        → sale.blockchain ≡ c.ethereum
        → IsStorable sale
        → (s' : List SaleDocument) × (index (calm stored) ≡ (ok tt, calm s'))
          × (exists (is_sale_of tx_id c.ethereum) s' ≡ true)
          × (index (calm s') ≡ (ok tt, calm s'))
    unfolding index_ethereum_token_sale indexed_sale_tx perform pure
    index_ethereum_token_sale_once stored {sale} parsed same_tx on_chain plain =
        elim (Bool-cases (exists (is_sale_of tx_id c.ethereum) stored)) [
          | inl old ↦ (stored, index-indexed stored old, old, index-indexed stored old)
          | inr new ↦
              let (d, valid, same) = documents sale plain in
              let s' = remove_all (covers (d ∷ [])) stored ++ d ∷ [] in
              let is_stored : exists (is_sale_of tx_id c.ethereum) s' ≡ true =
                exists-last (is_sale_of tx_id c.ethereum) (remove_all (covers (d ∷ [])) stored) d
                  (is_sale tx_id c.ethereum same_tx on_chain d same) in
              (
                s',
                rw (new, parsed) (run-write_time_series_data o (series sale ∷ []) stored valid),
                is_stored,
                index-indexed s' is_stored,
              )
        ]
      where
        is_sale :
            (t b : String)
            → sale.tx_id ≡ t
            → sale.blockchain ≡ b
            → (d : SaleDocument) → d.metadata ≡ some (sale_metadata sale)
            → is_sale_of t b d ≡ true
        is_sale t b e e' d same =
            subst (λ t. is_sale_of t b d ≡ true) e
              (subst (λ b. is_sale_of sale.tx_id b d ≡ true) e' (is_sale_of-document sale d same))
