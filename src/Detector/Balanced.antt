-- ===== src/Detector/Balanced.antt =====
-- `ParseEthereumTokenSale` of workflows_detector.go: the price of a sale and its parts.
use ff_indexer.Prelude.{
  Bool, true, if◌then◌else◌, String, List, [], ◌∷◌, ◌==◌, Option, none, some, ◌≡◌, inl, inr, refl,
  ap, sym, ◌∙◌, Bool-cases, false,
}
use mathlib.Core.Option.{some-injective}
use mathlib.Core.Path.{subst}
use ff_indexer.Detector.Integers.{
  ℤ, pos, ◌+ℤ◌, ◌-ℤ◌, add_cons, add_swap, add_zero, zero_add, add_grown, add_lost, sub_add,
}
use ff_indexer.Detector.{
  PayTransferData, Settings, Shares, Sums, SaleAmounts, entry_of, put, added, deducted,
  accumulate_share, deduct_share, accumulate_platform_fee, add_payment, add_payments, no_sums,
  amounts_of, sale_on, sale_amounts, marketplace_of, is_some, is_empty,
}

-- What all shares add up to.
unfoldable pub total : Shares → ℤ
total [] = pos 0
total (share ∷ shares) = share.1 +ℤ total shares

abbrev share_or_zero : Option ℤ → ℤ
share_or_zero none = pos 0
share_or_zero (some share) = share

-- A new share takes the place of the old one in the total.
total-put :
    (key : String) (value : ℤ) (shares : Shares)
    → total (put key value shares) +ℤ share_or_zero (entry_of key shares) ≡ total shares +ℤ value
unfolding total put entry_of
total-put key value [] = add_zero (value +ℤ pos 0) ∙ add_zero value ∙ sym (zero_add value)
total-put key value (share ∷ shares) = elim (Bool-cases (share.0 == key)) [
  | inl e ↦ rw e (add_swap value (total shares) share.1)
  | inr e ↦ rw e (
      add_cons share.1 (total (put key value shares)) (share_or_zero (entry_of key shares))
        (total shares) value (total-put key value shares))
]

-- The price is what the shares add up to.
abbrev pub IsBalanced : Sums → Type 0
IsBalanced s = total s.shares ≡ s.price

total-put_found :
    (key : String) (value : ℤ) (shares : Shares) {found : Option ℤ}
    → entry_of key shares ≡ found
    → total (put key value shares) +ℤ share_or_zero found ≡ total shares +ℤ value
total-put_found key value shares e =
    ap (λ o. total (put key value shares) +ℤ share_or_zero o) (sym e) ∙ total-put key value shares

total-accumulate_share :
    (tx : PayTransferData) (s : Sums) (found : Option ℤ)
    → entry_of tx.to_address s.shares ≡ found
    → total (put tx.to_address (added found tx.amount) s.shares) ≡ total s.shares +ℤ tx.amount
total-accumulate_share tx s none e =
    sym (add_zero (total (put tx.to_address tx.amount s.shares)))
    ∙ total-put_found tx.to_address tx.amount s.shares e
total-accumulate_share tx s (some share) e =
    add_grown (total (put tx.to_address (share +ℤ tx.amount) s.shares)) share (total s.shares)
      tx.amount (total-put_found tx.to_address (share +ℤ tx.amount) s.shares e)

pub accumulate_share-IsBalanced :
    (tx : PayTransferData) (s : Sums) → IsBalanced s → IsBalanced (accumulate_share tx s)
accumulate_share-IsBalanced tx s h =
    total-accumulate_share tx s (entry_of tx.to_address s.shares) refl ∙ ap (λ t. t +ℤ tx.amount) h

pub deducted-IsBalanced :
    (tx : PayTransferData) (s : Sums) (found : Option ℤ)
    → entry_of tx.from_address s.shares ≡ found
    → IsBalanced s
    → IsBalanced (deducted tx s found)
deducted-IsBalanced tx s none e h = h
deducted-IsBalanced tx s (some share) e h =
    add_lost (total (put tx.from_address (share -ℤ tx.amount) s.shares)) share (total s.shares)
      tx.amount (total-put_found tx.from_address (share -ℤ tx.amount) s.shares e)
    ∙ ap (λ t. t -ℤ tx.amount) h

module _ (o : Settings) where
  accumulate_platform_fee-IsBalanced :
      (tx : PayTransferData) (s : Sums) → IsBalanced s → IsBalanced (accumulate_platform_fee o tx s)
  accumulate_platform_fee-IsBalanced tx s h =
      elim (Bool-cases (is_some (entry_of (o.to_lower tx.to_address) o.platform_fee_wallets))) [
        | inl e ↦ rw e h
        | inr e ↦ rw e h
      ]

  add_payment-IsBalanced :
      (tx : PayTransferData) (s : Sums) → IsBalanced s → IsBalanced (add_payment o tx s)
  add_payment-IsBalanced tx s h =
      elim (Bool-cases (is_some (entry_of (o.to_lower tx.to_address) o.marketplace_contracts))) [
        | inl e ↦ rw e h
        | inr e ↦ rw e (
            let paid = accumulate_share tx s in
            accumulate_platform_fee-IsBalanced tx (deduct_share tx paid) (
              deducted-IsBalanced tx paid (entry_of tx.from_address paid.shares) refl
                (accumulate_share-IsBalanced tx s h)))
      ]

  pub add_payments-IsBalanced :
      (pay_txs : List PayTransferData) (s : Sums)
      → IsBalanced s
      → IsBalanced (add_payments o pay_txs s)
  unfolding add_payments
  add_payments-IsBalanced [] s h = h
  add_payments-IsBalanced (tx ∷ pay_txs) s h =
      add_payments-IsBalanced pay_txs (add_payment o tx s) (add_payment-IsBalanced tx s h)

-- The shares of a sale and its revenue with its fee both add up to its price, which was paid.
abbrev pub AddsUp : SaleAmounts → Type 0
AddsUp sale =
    (total sale.shares ≡ sale.price)
    × (sale.net_revenue +ℤ sale.platform_fee ≡ sale.price)
    × (sale.payment_amount ≡ sale.price)

guarded :
    (b : Bool) (o : Option SaleAmounts) {sale : SaleAmounts}
    → (if b then none else o) ≡ some sale
    → o ≡ some sale
guarded true o h = cc
guarded false o h = h

-- Whenever the payments tell the amounts of a sale, these add up.
pub sale_amounts-AddsUp :
    (o : Settings) (tx_to : String) (pay_txs : List PayTransferData) {sale : SaleAmounts}
    → sale_amounts o tx_to pay_txs ≡ some sale
    → AddsUp sale
unfolding sale_amounts total
sale_amounts-AddsUp o tx_to pay_txs {sale} = on (marketplace_of o tx_to pay_txs)
  where
    adds_up : (m : String) → AddsUp (amounts_of o m (add_payments o pay_txs (no_sums o)))
    adds_up m =
        let a = amounts_of o m (add_payments o pay_txs (no_sums o)) in
        (add_payments-IsBalanced o pay_txs (no_sums o) refl, sub_add a.price a.platform_fee, refl)

    on : (m : Option String) → sale_on o pay_txs m ≡ some sale → AddsUp sale
    on none h = cc
    on (some m) h =
        subst AddsUp
          (some-injective _ sale (
            guarded (is_empty o.platform_fee_wallets) _
              (guarded (is_empty pay_txs) _ (guarded (m == "") _ h))))
          (adds_up m)
