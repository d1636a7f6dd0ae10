-- ===== src/Readers.antt =====
-- store.go: methods of `MongodbIndexerStore` that read account tokens. `partition` stands for
-- gopart's `Partition` of a length into ranges of 25.
pub mod Source
mod Examples
use ff_indexer.Prelude.{
  ℕ, ◌+◌, ◌-◌, String, List, [], ◌∷◌, ◌++◌, Bool, true, false, ◌&&◌, ◌||◌, ◌==◌, Option, none, some,
  ltb, eqb, if◌then◌else◌, map, length, take, drop, one_of, exists,
}
use ff_indexer.Exec.{
  Result, ok, err, no_documents, call_failed, Exec, perform, pure, fail, caught, ◌>>=◌,
}
use ff_indexer.Mongo.{find_one, find, select}
use ff_indexer.Catalog.{
  Token, Asset, AccountToken, Store, token_collection, account_token_collection, asset_collection,
}

-- `$sum` of the balances
unfoldable pub sum_balances : List AccountToken → ℕ
sum_balances [] = 0
sum_balances (a ∷ accounts) = a.balance + sum_balances accounts

-- `GetTotalBalanceOfOwnerAccounts`
unfoldable pub get_total_balance_of_owner_accounts : List String → Exec Store ℕ
get_total_balance_of_owner_accounts addresses =
    perform
      λ s. (ok (sum_balances (select (λ a. one_of addresses a.owner_account) s.account_tokens)), s)

-- `GetOwnerAccountsByIndexIDs`
unfoldable pub get_owner_accounts_by_index_ids : List String → Exec Store (List String)
get_owner_accounts_by_index_ids index_ids = do
  found ← find account_token_collection (λ a. one_of index_ids a.index_id)
  pure (map (λ a. a.owner_account) found)

-- `Criteria`
pub record Criteria : Type 0 where
  pub index_id : String
  pub source : String

abbrev pub has_balance_of : String → AccountToken → Bool
has_balance_of address a = a.owner_account == address && ltb 0 a.balance

abbrev pub is_found : {A : Type 0} → Result A → Exec Store Bool
is_found (ok a) = pure true
is_found (err no_documents) = pure false
is_found (err e) = fail e

-- `checkAddressOwnTokenHasIndexID`
unfoldable pub check_address_own_token_has_index_id : String → String → Exec Store Bool
check_address_own_token_has_index_id address index_id =
    caught
      (find_one account_token_collection (λ a. has_balance_of address a && a.index_id == index_id))
      is_found

-- `indexIDs[low:high]`
abbrev pub slice_of : List String → ℕ × ℕ → List String
slice_of l range = drop range.0 (take range.1 l)

abbrev pub slices_of : List String → List (ℕ × ℕ) → List (List String)
slices_of l ranges = map (slice_of l) ranges

abbrev pub is_of_source : String → List String → Token → Bool
is_of_source source ids t = one_of ids t.index_id && t.source == source

-- The loop over the slices
abbrev pub found_or_next : Exec Store Bool → Result Token → Exec Store Bool
found_or_next next (ok t) = pure true
found_or_next next (err no_documents) = next
found_or_next next (err e) = fail e

unfoldable pub find_in_slices : String → List (List String) → Exec Store Bool
find_in_slices source [] = pure false
find_in_slices source (ids ∷ slices) =
    let next = find_in_slices source slices in
    caught (find_one token_collection (is_of_source source ids)) (found_or_next next)

module _ (partition : ℕ → List (ℕ × ℕ)) where
  -- `checkAddressOwnTokenInSource`
  unfoldable pub check_address_own_token_in_source : String → String → Exec Store Bool
  check_address_own_token_in_source address source =
      find account_token_collection (has_balance_of address) >>= λ owned.
      let ids = map (λ a. a.index_id) owned in
      if eqb (length ids) 0
      then pure false
      else find_in_slices source (slices_of ids (partition (length ids)))

  -- `CheckAddressOwnTokenByCriteria`
  unfoldable pub check_address_own_token_by_criteria : String → Criteria → Exec Store Bool
  check_address_own_token_by_criteria address criteria =
      if criteria.index_id == ""
      then (if criteria.source == ""
          then pure false
          else check_address_own_token_in_source address criteria.source)
      else check_address_own_token_has_index_id address criteria.index_id

-- A blockchain with contracts
abbrev pub is_of_contracts : String × List String → AccountToken → Bool
is_of_contracts (blockchain, contracts) a =
    a.base.blockchain == blockchain && one_of contracts a.base.contract_address

-- The owners in order, each once.
unfoldable pub distinct_owners : List AccountToken → List String → List String
distinct_owners [] owners = owners
distinct_owners (a ∷ accounts) owners =
    distinct_owners accounts
      (if one_of owners a.owner_account then owners else owners ++ a.owner_account ∷ [])

abbrev pub owners_of_contracts : List (String × List String) → Exec Store (List String)
owners_of_contracts [] = fail call_failed
owners_of_contracts (c ∷ cs) =
    find account_token_collection (λ a. exists (λ x. is_of_contracts x a) (c ∷ cs)) >>= λ found.
    pure (distinct_owners found [])

-- `GetOwnersByBlockchainContracts`: the database refuses an empty `$or`.
unfoldable pub get_owners_by_blockchain_contracts :
    List (String × List String) → Exec Store (List String)
get_owners_by_blockchain_contracts blockchain_contracts = owners_of_contracts blockchain_contracts

abbrev pub is_created_by : List String → List String → Asset → Bool
is_created_by ids creators a =
    one_of ids a.id && one_of creators a.project_metadata.latest.artist_id

-- `CheckAssetCreator`
unfoldable pub check_asset_creator : List String → List String → Exec Store Bool
check_asset_creator ids creators = find asset_collection (is_created_by ids creators) >>= λ found.
    pure (eqb (length found) (length ids))
