-- ===== src/Detector/ObjktSold.antt =====
-- `ParseTezosObjktTokenSale` of background/worker/activities.go: what holds of every sale that it
-- finds.
use ff_indexer.Prelude.{
  ℕ, String, List, [], ◌∷◌, Bool, true, false, not, ◌==◌, Option, none, some, ◌≡◌, inl, inr, refl,
  ap, ◌∙◌, if◌then◌else◌, one_of, Bool-cases,
}
use mathlib.Core.Option.{some-injective}
use mathlib.Core.Path.{subst}
use ff_indexer.Exec.{Error, Result, ok, err, wrong_format}
use ff_indexer.Exec.Success.{ok_injective}
use ff_indexer.Sales.Documents.{after-ok}
use ff_indexer.Detector.{PayTransferData, Sums, entry_of, accumulate_share, deduct_share, is_empty}
use ff_indexer.Detector.Integers.{◌+ℤ◌, sub_add}
use ff_indexer.Detector.Balanced.{
  total, IsBalanced, accumulate_share-IsBalanced, deducted-IsBalanced,
}
use ff_indexer.Detector.Ethereum.{TokenSale}
use ff_indexer.Detector.Objkt.{
  DetailedTransaction, Parameter, ObjktSale, ObjktSettings, is_objkt, accumulate_objkt_fee,
  add_revenue, payment_of, objkt_sale_entrypoints, treasury_proxy_address, decode_parameters_value,
  with_parameter, objkt_sale, no_objkt_sale, objkt_token_sale, checked,
  parse_tezos_objkt_token_sale,
}

-- What holds of a sale of a transaction.
pub record IsObjktSaleOf (hash : String) (sale : TokenSale) : Type 0 where
  pub same_tx : sale.tx_id ≡ hash
  pub shares_add_up : total sale.shares ≡ sale.price
  pub revenue_adds_up : sale.net_revenue +ℤ sale.platform_fee ≡ sale.price
  pub has_tokens : is_empty sale.bundle_token_info ≡ false

refused :
    {A : Type 0} (b : Bool) (e : Error) (r : Result A) {a : A}
    → (if b then err e else r) ≡ ok a
    → (b ≡ false) × (r ≡ ok a)
refused true e r h = cc
refused false e r h = (refl, h)

module _ (o : ObjktSettings) where
  add_revenue-IsBalanced :
      (tx : PayTransferData) (s : Sums) → IsBalanced s → IsBalanced (add_revenue o tx s)
  add_revenue-IsBalanced tx s h = elim (Bool-cases (tx.to_address == treasury_proxy_address)) [
    | inl e ↦ rw e h
    | inr e ↦ rw e (
        let paid = accumulate_share tx s in
        fee (deduct_share tx paid) (
          deducted-IsBalanced tx paid (entry_of tx.from_address paid.shares) refl
            (accumulate_share-IsBalanced tx s h)))
  ]
    where
      fee : (s : Sums) → IsBalanced s → IsBalanced (accumulate_objkt_fee o tx s)
      fee s h =
          elim (Bool-cases
            (is_objkt (entry_of (o.to_lower tx.to_address) o.platform_fee_wallets))) [
              | inl e ↦ rw e h
              | inr e ↦ rw e h
            ]

  same_sums : (s s' : ObjktSale) → ok s ≡ ok s' → IsBalanced s.sums → IsBalanced s'.sums
  same_sums s s' h balanced = subst (λ r. IsBalanced r.sums) (ok_injective s s' h) balanced

  with_parameter-IsBalanced :
      (tx : DetailedTransaction) (s : ObjktSale) (p : Option Parameter) {s' : ObjktSale}
      → with_parameter o tx s p ≡ ok s'
      → IsBalanced s.sums
      → IsBalanced s'.sums
  with_parameter-IsBalanced tx s none {s'} h balanced =
      subst (λ s. IsBalanced s.sums)
        (ok_injective (record s { sums = add_revenue o (payment_of o tx) s.sums }) s' h)
        (add_revenue-IsBalanced (payment_of o tx) s.sums balanced)
  with_parameter-IsBalanced tx s (some p) {s'} h balanced =
      elim (Bool-cases (one_of objkt_sale_entrypoints p.entry_point)) [
        | inl e ↦
            same_sums (record s { is_valid_objkt_sale_operation = true }) s' (rw e at h) balanced
        | inr e ↦ elim (Bool-cases (p.entry_point == "transfer")) [
          | inl t ↦
              let (values, decoded, made) =
                after-ok (decode_parameters_value p.value) _ (rw (e, t) at h) in
              same_sums _ s' made balanced
          | inr t ↦ same_sums s s' (rw (e, t) at h) balanced
        ]
      ]

  objkt_sale-IsBalanced :
      (txs : List DetailedTransaction) (s : ObjktSale) {r : ObjktSale}
      → objkt_sale o txs s ≡ ok (some r)
      → IsBalanced s.sums
      → IsBalanced r.sums
  unfolding objkt_sale
  objkt_sale-IsBalanced [] s {r} h balanced =
      subst (λ s. IsBalanced s.sums) (some-injective s r (ok_injective (some s) (some r) h))
        balanced
  objkt_sale-IsBalanced (tx ∷ txs) s {r} h balanced =
      let (s', one, rest) =
        after-ok (with_parameter o tx s tx.parameter) _ (applied (tx.status == "applied") _ h) in
      objkt_sale-IsBalanced txs s' rest (with_parameter-IsBalanced tx s tx.parameter one balanced)
    where
      applied :
          (b : Bool) (rest : Result (Option ObjktSale))
          → (if b then rest else ok none) ≡ ok (some r)
          → rest ≡ ok (some r)
      applied true rest h = h
      applied false rest h = cc

  checked-IsObjktSaleOf :
      (hash : String) (time : ℕ) (found : Option ObjktSale) {sale : TokenSale}
      → ((s : ObjktSale) → found ≡ some s → IsBalanced s.sums)
      → checked o hash time found ≡ ok (some sale)
      → IsObjktSaleOf hash sale
  checked-IsObjktSaleOf hash time none balanced h = cc
  checked-IsObjktSaleOf hash time (some s) {sale} balanced h =
      let (valid, rest) = refused (not s.is_valid_objkt_sale_operation) wrong_format _ h in
      let (tokens, made) = refused (is_empty s.bundle_token_info) wrong_format _ rest in
      let t = objkt_token_sale o hash time s in
      subst (IsObjktSaleOf hash) (some-injective t sale (ok_injective (some t) (some sale) made))
        (record {
          same_tx = refl;
          shares_add_up = balanced s refl;
          revenue_adds_up = sub_add s.sums.price s.sums.platform_fee;
          has_tokens = tokens;
        })

  -- Every sale that ParseTezosObjktTokenSale returns has the hash that was asked for and a token,
  -- its shares add up to its price, and so do its net revenue and the platform fee.
  pub parse_tezos_objkt_token_sale-IsObjktSaleOf :
      (hash : String) (txs : Result (List DetailedTransaction)) {sale : TokenSale}
      → parse_tezos_objkt_token_sale o hash txs ≡ ok (some sale)
      → IsObjktSaleOf hash sale
  unfolding parse_tezos_objkt_token_sale total
  parse_tezos_objkt_token_sale-IsObjktSaleOf hash (err e) h = cc
  parse_tezos_objkt_token_sale-IsObjktSaleOf hash (ok []) h = cc
  parse_tezos_objkt_token_sale-IsObjktSaleOf hash (ok (tx ∷ [])) h = cc
  parse_tezos_objkt_token_sale-IsObjktSaleOf hash (ok (tx ∷ tx' ∷ txs)) h =
      let (found, looped, made) = after-ok (objkt_sale o (tx ∷ tx' ∷ txs) (no_objkt_sale o)) _ h in
      checked-IsObjktSaleOf hash tx.timestamp found
        (λ s e. objkt_sale-IsBalanced (tx ∷ tx' ∷ txs) (no_objkt_sale o) (looped ∙ ap ok e) refl)
        made
