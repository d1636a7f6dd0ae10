-- ===== src/Accounts/Examples.antt =====
-- Witnesses for the account tokens.
use ff_indexer.Prelude.{[], ◌∷◌, true, false, ◌≡◌, refl, All, find_first}
use ff_indexer.Exec.{ok, World, perform, pure}
use ff_indexer.Mongo.{find_one, upsert_one, update_many}
use ff_indexer.Catalog.{AccountToken, OwnerBalance, Store}
use ff_indexer.Catalog.Samples.{sample_base, sample_store}
use ff_indexer.Accounts.{index_account_tokens, update_account_token_owners, put_balances}
use ff_indexer.Accounts.Monotone.{AccountsNewer, index_account_tokens-Newer}
use ff_indexer.Accounts.Balances.{IsSettled, update_account_token_owners-IsSettled}

abbrev account : AccountToken
account = record {
  base = sample_base;
  index_id = "eth-0xc-7";
  owner_account = "0xa";
  balance = 1;
  last_activity_time = 50;
  last_refreshed_time = 60;
}

abbrev with_account : Store
with_account = record sample_store { account_tokens = account ∷ [] }

abbrev later : AccountToken
later = record account { last_activity_time = 66 }

abbrev unlucky : World Store
unlucky = record { store = with_account; faults = false ∷ true ∷ [] }

index_account_tokens-Newer_example :
    AccountsNewer with_account (index_account_tokens "0xa" (later ∷ later ∷ []) unlucky).1.store
index_account_tokens-Newer_example = index_account_tokens-Newer "0xa" (later ∷ later ∷ []) unlucky

-- 15 seconds later is not late enough.
abbrev hardly_later : AccountToken
hardly_later = record account { balance = 2; last_activity_time = 65 }

abbrev sold : OwnerBalance
sold = record { address = "0xb"; balance = 1; last_time = 70 }

-- The second call, an upsert, fails and is passed over.
abbrev balance_fails : World Store
balance_fails = record { store = with_account; faults = false ∷ true ∷ [] }

goes_through : (update_account_token_owners 80 "eth-0xc-7" (sold ∷ []) balance_fails).0 ≡ ok tt
unfolding update_account_token_owners put_balances find_one upsert_one update_many perform pure
    find_first
goes_through = refl

update_account_token_owners-IsSettled_example :
    All
      (IsSettled "eth-0xc-7" (sold ∷ []))
      (update_account_token_owners 80 "eth-0xc-7" (sold ∷ []) balance_fails).1.store.account_tokens
update_account_token_owners-IsSettled_example =
    update_account_token_owners-IsSettled 80 "eth-0xc-7" (sold ∷ []) balance_fails goes_through
