-- ===== src/Accounts.antt =====
-- store.go: the methods of `MongodbIndexerStore` that change account tokens, the balances that
-- accounts have of tokens. `now` is what `time.Now()` returns; a time counts seconds.
pub mod Monotone
pub mod Balances
mod Examples
use ff_indexer.Prelude.{
  ℕ, ◌+◌, String, List, [], ◌∷◌, ◌++◌, Bool, true, false, not, ◌&&◌, ◌||◌, ◌==◌, eqb, ltb,
  if◌then◌else◌, map, exists, update_first, one_of,
}
use ff_indexer.Exec.{
  Result, ok, err, unique_violation, no_record_updated, Exec, perform, pure, fail, caught, ◌>>=◌,
  ◌>>◌,
}
use ff_indexer.Mongo.{find_one, find, update_one, update_many, upsert_one, select}
use ff_indexer.Catalog.{
  Token, AccountToken, OwnerBalance, Store, has_duplicates, token_collection,
  account_token_collection, has_index_id,
}
use ff_indexer.Ownership.{put_owner, require_update}

-- An account token of this id and owner that is older by more than the margin of 15 seconds.
abbrev pub is_older_account : String → AccountToken → AccountToken → Bool
is_older_account owner t a =
    a.index_id == t.index_id
    && a.owner_account == owner
    && ltb (a.last_activity_time + 15) t.last_activity_time

abbrev pub upserted : String → AccountToken → List AccountToken → List AccountToken
upserted owner t accounts =
    if exists (is_older_account owner t) accounts
    then update_first (is_older_account owner t) (λ a. t) accounts
    else accounts ++ t ∷ []

-- The upsert, which the unique index refuses where it would give two rows for an account.
abbrev pub try_upsert : String → AccountToken → Store → Result (Unit {0}) × Store
try_upsert owner t s =
    let after = upserted owner t s.account_tokens in
    if has_duplicates after
    then (err unique_violation, s)
    else (ok tt, record s { account_tokens = after })

-- `continue` on a duplicate key
abbrev pub skip_duplicate : Result (Unit {0}) → Exec Store (Unit {0})
skip_duplicate (ok u) = pure tt
skip_duplicate (err unique_violation) = pure tt
skip_duplicate (err e) = fail e

unfoldable pub index_account_token : String → AccountToken → Exec Store (Unit {0})
index_account_token owner t = caught (perform (try_upsert owner t)) skip_duplicate

-- `IndexAccountTokens`
unfoldable pub index_account_tokens : String → List AccountToken → Exec Store (Unit {0})
index_account_tokens owner [] = pure tt
index_account_tokens owner (t ∷ ts) = do index_account_token owner t; index_account_tokens owner ts

-- `GetOwnedTokenIDsByOwner`
unfoldable pub get_owned_token_ids_by_owner : String → Exec Store (List String)
get_owned_token_ids_by_owner owner = do
  owned ← find account_token_collection (λ a. a.owner_account == owner && ltb 0 a.balance)
  pure (map (λ a. a.index_id) owned)

abbrev pub is_account : String → String → AccountToken → Bool
is_account index_id owner a = a.index_id == index_id && a.owner_account == owner

unfoldable pub account_of : ℕ → String → Token → OwnerBalance → AccountToken
account_of now index_id t b = record {
  base = t.base;
  index_id = index_id;
  owner_account = b.address;
  balance = b.balance;
  last_activity_time = b.last_time;
  last_refreshed_time = now;
}

abbrev pub put_balance : ℕ → String → Token → OwnerBalance → Exec Store (Unit {0})
put_balance now index_id t b =
    upsert_one account_token_collection (is_account index_id b.address)
      (λ a. account_of now index_id t b) (account_of now index_id t b)

-- The owner is listed if the upsert succeeds.
abbrev pub listed : String → List String → Result (Unit {0}) → List String
listed owner owners (ok u) = owners ++ owner ∷ []
listed owner owners (err e) = owners

-- The loop that fills `ownerList`.
unfoldable pub put_balances :
    ℕ → String → Token → List OwnerBalance → List String → Exec Store (List String)
put_balances now index_id t [] owners = pure owners
put_balances now index_id t (b ∷ bs) owners =
    caught (put_balance now index_id t b)
      λ r. put_balances now index_id t bs (listed b.address owners r)

unfoldable pub no_balance : ℕ → AccountToken → AccountToken
no_balance now a = record a { balance = 0; last_refreshed_time = now }

abbrev pub is_unlisted : String → List String → AccountToken → Bool
is_unlisted index_id owners a = a.index_id == index_id && not (one_of owners a.owner_account)

-- `UpdateAccountTokenOwners`
unfoldable pub update_account_token_owners : ℕ → String → List OwnerBalance → Exec Store (Unit {0})
update_account_token_owners now index_id bs =
    find_one token_collection (has_index_id index_id) >>= λ t.
    put_balances now index_id t bs [] >>= λ owners.
    update_many account_token_collection (is_unlisted index_id owners) (no_balance now)

-- `$addToSet`
abbrev pub add_to_set : String → List String → List String
add_to_set a accounts = if one_of accounts a then accounts else accounts ++ a ∷ []

-- `UpdateOwnerForFungibleToken`
unfoldable pub update_owner_for_fungible_token : String → ℕ → String → ℕ → Exec Store (Unit {0})
update_owner_for_fungible_token index_id locked_time to total =
    update_one token_collection
      (λ t. has_index_id index_id t && eqb t.last_refreshed_time locked_time)
      (λ t. record t {
        owners_array = add_to_set to t.owners_array;
        owners = put_owner to total t.owners;
      })
    >>= require_update

-- `MarkAccountTokenChanged`
unfoldable pub mark_account_token_changed : ℕ → List String → Exec Store (Unit {0})
mark_account_token_changed now ids =
    update_many account_token_collection (λ a. one_of ids a.index_id)
      (λ a. record a { last_refreshed_time = now })
