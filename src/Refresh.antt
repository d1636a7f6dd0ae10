-- ===== src/Refresh.antt =====
-- background/worker/activities.go: `RefreshTokenProvenance` and `RefreshTokenOwnership`, over the
-- indexer's store.
pub mod Single
mod Examples
use ff_indexer.Prelude.{
  ℕ, ◌+◌, String, List, [], ◌∷◌, ◌++◌, Bool, true, false, not, ◌&&◌, ◌||◌, ◌==◌, Option, none, some,
  eqb, ltb, leb, if◌then◌else◌,
}
use ff_indexer.Exec.{Result, ok, err, Exec, perform, pure, fail, ◌>>=◌, ◌>>◌}
use ff_indexer.Catalog.{BaseTokenInfo, Token, Provenance, OwnerBalance, Store}
use ff_indexer.IndexId.{Chains}
use ff_indexer.Ownership.{get_tokens_by_index_ids, update_token_provenance, update_token_owners}
use ff_indexer.Accounts.{update_account_token_owners}
use ff_indexer.Sales.{after}

-- What the chains tell of a token, and `GetLatestActivityTimeByIndexIDs`, an aggregation.
pub record Fetches : Type 0 where
  pub fetch_bitmark_provenance : String → Result (List Provenance)
  pub fetch_ethereum_provenance : String → String → Result (List Provenance)
  pub fetch_tezos_provenance : String → String → Result (List Provenance)
  pub index_tezos_token_last_activity_time : String → String → Result ℕ
  pub index_eth_token_owners : String → String → Result (List OwnerBalance)
  pub index_tezos_token_owners : String → String → Result (List OwnerBalance)
  pub get_latest_activity_times : List String → Store → List (String × ℕ)

abbrev pub activity_of : String → List (String × ℕ) → ℕ → ℕ
activity_of id [] time = time
activity_of id (entry ∷ entries) time =
    if entry.0 == id then entry.1 else activity_of id entries time

abbrev pub is_up_to_date : Token → List Provenance → ℕ → Bool
is_up_to_date t [] last = false
is_up_to_date t (p ∷ ps) last =
    eqb p.timestamp t.last_activity_time && leb last t.last_activity_time

abbrev pub is_listed : List String → Bool
is_listed [] = false
is_listed (owner ∷ owners) = true

abbrev pub given : {A : Type 0} → Result A → Exec Store A
given (ok a) = pure a
given (err e) = fail e

module _ (o : Fetches) (c : Chains) (now : ℕ) where
  abbrev pub is_refreshed : ℕ → Token → Bool
  is_refreshed delay t = ltb now (t.last_refreshed_time + delay)

  abbrev pub fetched : BaseTokenInfo → Result (List Provenance)
  fetched i =
      if i.blockchain == c.bitmark
      then o.fetch_bitmark_provenance i.id
      else if i.blockchain == c.ethereum
      then o.fetch_ethereum_provenance i.id i.contract_address
      else if i.blockchain == c.tezos
      then o.fetch_tezos_provenance i.id i.contract_address
      else ok []

  -- "recursively fetch provenance records from migrated blockchains"
  unfoldable pub of_origins : List BaseTokenInfo → Result (List Provenance)
  of_origins [] = ok []
  of_origins (i ∷ is) = after (fetched i) λ ps. after (of_origins is) λ rest. ok (ps ++ rest)

  abbrev pub total_provenances : Token → Result (Option (List Provenance))
  total_provenances t =
      after (fetched t.base)
        λ ps. after (of_origins t.origin_token_info) λ rest. ok (some (ps ++ rest))

  -- None for a token that is left as it is.
  abbrev pub new_provenances : Token → Result (Option (List Provenance))
  new_provenances t =
      if t.blockchain == c.tezos
      then (after (o.index_tezos_token_last_activity_time t.contract_address t.id)
          λ last. if is_up_to_date t t.provenances last then ok none else total_provenances t)
      else total_provenances t

  abbrev pub set_balance : String → List Provenance → Exec Store (Unit {0})
  set_balance index_id [] = pure tt
  set_balance index_id (p ∷ ps) =
      update_account_token_owners now index_id
        (record { address = p.owner; balance = 1; last_time = p.timestamp } ∷ [])

  abbrev pub save_provenances : Token → Option (List Provenance) → Exec Store (Unit {0})
  save_provenances t none = pure tt
  save_provenances t (some ps) =
      update_token_provenance now t.index_id ps >> set_balance t.index_id ps

  unfoldable pub refresh_provenances : ℕ → List Token → Exec Store (Unit {0})
  refresh_provenances delay [] = pure tt
  refresh_provenances delay (t ∷ ts) =
      (if (ltb 0 delay && is_refreshed delay t) || t.fungible
        then pure tt
        else given (new_provenances t) >>= save_provenances t)
      >> refresh_provenances delay ts

  -- `RefreshTokenProvenance`
  unfoldable pub refresh_token_provenance : List String → ℕ → Exec Store (Unit {0})
  refresh_token_provenance ids delay = get_tokens_by_index_ids ids >>= refresh_provenances delay

  -- The time and the owners of a token; 0 is the zero time.
  abbrev pub new_owners : Token → ℕ → Result (Option (ℕ × List OwnerBalance))
  new_owners t activity =
      if t.blockchain == c.ethereum
      then (if leb now (t.last_activity_time + 86400) && is_listed t.owners_array
          then ok none
          else after (o.index_eth_token_owners t.contract_address t.id) λ bs. ok (some (0, bs)))
      else if t.blockchain == c.tezos
      then (after (o.index_tezos_token_last_activity_time t.contract_address t.id) λ last.
          if leb last activity
          then ok none
          else after (o.index_tezos_token_owners t.contract_address t.id)
              λ bs. ok (some (last, bs)))
      else ok (some (0, []))

  abbrev pub save_owners : Token → Option (ℕ × List OwnerBalance) → Exec Store (Unit {0})
  save_owners t none = pure tt
  save_owners t (some (time, bs)) =
      update_token_owners now t.index_id time bs >> update_account_token_owners now t.index_id bs

  unfoldable pub refresh_owners : ℕ → List (String × ℕ) → List Token → Exec Store (Unit {0})
  refresh_owners delay times [] = pure tt
  refresh_owners delay times (t ∷ ts) =
      (if is_refreshed delay t || not t.fungible
        then pure tt
        else given (new_owners t (activity_of t.index_id times t.last_activity_time))
          >>= save_owners t)
      >> refresh_owners delay times ts

  -- `RefreshTokenOwnership`
  unfoldable pub refresh_token_ownership : List String → ℕ → Exec Store (Unit {0})
  refresh_token_ownership ids delay =
      perform (λ s. (ok (o.get_latest_activity_times ids s), s)) >>= λ times.
      get_tokens_by_index_ids ids >>= refresh_owners delay times
