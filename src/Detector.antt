-- ===== src/Detector.antt =====
-- background/worker/workflows_detector.go: what a token sale is paid with, from its payments.
-- Entries of a map stand in the order in which their keys were first put.
pub mod Integers
pub mod Balanced
pub mod Logs
pub mod Entries
pub mod Classes
pub mod Transfers
pub mod Bundle
pub mod Ethereum
pub mod Sold
pub mod Objkt
pub mod ObjktSold
mod Scenarios
mod Examples
use ff_indexer.Prelude.{
  ℕ, String, List, [], ◌∷◌, Bool, true, false, ◌&&◌, ◌==◌, Option, none, some, if◌then◌else◌,
}
use ff_indexer.Detector.Integers.{ℤ, pos, ◌+ℤ◌, ◌-ℤ◌, is_zero}

-- `payTransferData`
pub record PayTransferData : Type 0 where
  pub from_address : String
  pub to_address : String
  pub amount : ℤ

-- The configuration, `strings.ToLower`, and 2.5% of a price as `big.Float` computes it.
pub record Settings : Type 0 where
  pub to_lower : String → String
  pub marketplace_contracts : List (String × String)
  pub platform_fee_wallets : List (String × String)
  pub open_sea_old_fee_wallet : String
  pub fixed_fee : ℤ → ℤ

-- What a map holds for a key.
unfoldable pub entry_of {ℓ} : {A : Type ℓ} → String → List (String × A) → Option A
entry_of key [] = none
entry_of key (entry ∷ entries) =
    let rest = entry_of key entries in if entry.0 == key then some entry.1 else rest

unfoldable pub put {ℓ} : {A : Type ℓ} → String → A → List (String × A) → List (String × A)
put key value [] = (key, value) ∷ []
put key value (entry ∷ entries) =
    let rest = put key value entries in
    if entry.0 == key then (key, value) ∷ entries else entry ∷ rest

abbrev pub is_some : {A : Type 0} → Option A → Bool
is_some none = false
is_some (some a) = true

abbrev pub Shares : Type 0
Shares = List (String × ℤ)

-- What the loop over the payments adds up.
pub record Sums : Type 0 where
  pub shares : Shares
  pub price : ℤ
  pub platform_fee : ℤ

abbrev pub added : Option ℤ → ℤ → ℤ
added none amount = amount
added (some share) amount = share +ℤ amount

-- "Accumulate share"
abbrev pub accumulate_share : PayTransferData → Sums → Sums
accumulate_share tx s = record {
  shares = put tx.to_address (added (entry_of tx.to_address s.shares) tx.amount) s.shares;
  price = s.price +ℤ tx.amount;
  platform_fee = s.platform_fee;
}

abbrev pub deducted : PayTransferData → Sums → Option ℤ → Sums
deducted tx s none = s
deducted tx s (some share) = record {
  shares = put tx.from_address (share -ℤ tx.amount) s.shares;
  price = s.price -ℤ tx.amount;
  platform_fee = s.platform_fee;
}

-- "Deduct share"
abbrev pub deduct_share : PayTransferData → Sums → Sums
deduct_share tx s = deducted tx s (entry_of tx.from_address s.shares)

module _ (o : Settings) where
  -- "Accumulate platform fee"
  abbrev pub accumulate_platform_fee : PayTransferData → Sums → Sums
  accumulate_platform_fee tx s =
      if is_some (entry_of (o.to_lower tx.to_address) o.platform_fee_wallets)
      then record { shares = s.shares; price = s.price; platform_fee = s.platform_fee +ℤ tx.amount }
      else s

  -- One round of the loop. A payment to a marketplace is passed over.
  abbrev pub add_payment : PayTransferData → Sums → Sums
  add_payment tx s =
      if is_some (entry_of (o.to_lower tx.to_address) o.marketplace_contracts)
      then s
      else accumulate_platform_fee tx (deduct_share tx (accumulate_share tx s))

  unfoldable pub add_payments : List PayTransferData → Sums → Sums
  add_payments [] s = s
  add_payments (tx ∷ pay_txs) s = add_payments pay_txs (add_payment tx s)

  abbrev pub or_next_marketplace : Option String → Option String → Option String
  or_next_marketplace none other = other
  or_next_marketplace (some m) other = some m

  -- The marketplace of the first payment that is to or from one.
  unfoldable pub marketplace_of_payments : List PayTransferData → Option String
  marketplace_of_payments [] = none
  marketplace_of_payments (tx ∷ pay_txs) =
      or_next_marketplace (entry_of (o.to_lower tx.to_address) o.marketplace_contracts) (
        or_next_marketplace (entry_of (o.to_lower tx.from_address) o.marketplace_contracts)
          (marketplace_of_payments pay_txs))

  -- `marketplace`: none stands for the empty string of a missing key.
  abbrev pub marketplace_of : String → List PayTransferData → Option String
  marketplace_of tx_to pay_txs =
      or_next_marketplace (entry_of (o.to_lower tx_to) o.marketplace_contracts)
        (marketplace_of_payments pay_txs)

  -- The fee of a sale whose fee wallets got none.
  abbrev pub platform_fee_of : Sums → ℤ
  platform_fee_of s =
      if is_zero s.platform_fee && is_some (entry_of o.open_sea_old_fee_wallet s.shares)
      then o.fixed_fee s.price
      else s.platform_fee

  abbrev pub no_sums : Sums
  no_sums = record { shares = []; price = pos 0; platform_fee = pos 0 }

-- The fields of `TokenSale` that the payments tell.
pub record SaleAmounts : Type 0 where
  pub price : ℤ
  pub marketplace : String
  pub platform_fee : ℤ
  pub net_revenue : ℤ
  pub payment_amount : ℤ
  pub shares : Shares

abbrev pub is_empty {ℓ} : {A : Type ℓ} → List A → Bool
is_empty [] = true
is_empty (a ∷ rest) = false

module _ (o : Settings) where
  abbrev pub amounts_of : String → Sums → SaleAmounts
  amounts_of marketplace s = record {
    price = s.price;
    marketplace = marketplace;
    platform_fee = platform_fee_of o s;
    net_revenue = s.price -ℤ platform_fee_of o s;
    payment_amount = s.price;
    shares = s.shares;
  }

  abbrev pub sale_on : List PayTransferData → Option String → Option SaleAmounts
  sale_on pay_txs none = none
  sale_on pay_txs (some marketplace) =
      if marketplace == ""
      then none
      else if is_empty pay_txs
      then none
      else if is_empty o.platform_fee_wallets
      then none
      else some (amounts_of marketplace (add_payments o pay_txs (no_sums o)))

  -- The part of `ParseEthereumTokenSale` after the payments are collected, with none for a
  -- transaction that is no sale.
  unfoldable pub sale_amounts : String → List PayTransferData → Option SaleAmounts
  sale_amounts tx_to pay_txs = sale_on pay_txs (marketplace_of o tx_to pay_txs)
