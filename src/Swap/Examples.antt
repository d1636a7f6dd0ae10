-- ===== src/Swap/Examples.antt =====
-- Witnesses for the swap of a token.
use ff_indexer.Prelude.{
  [], ◌∷◌, true, false, some, ◌≡◌, ◌⊎◌, refl, find_first, exists, update_all, ne_of_test, ◌==◌,
}
use ff_indexer.Exec.{Error, err, ok, calm, World}
use ff_indexer.Catalog.{has_duplicates, Token, AccountToken, SwapUpdate, Store, has_index_id}
use ff_indexer.Catalog.Samples.{sample_token, sample_store, sample_base}
use ff_indexer.IndexId.{token_index_id, blockchain_alias}
use ff_indexer.IndexId.Samples.{chains}
use ff_indexer.Swap.{swap_token, move_account}
use ff_indexer.Swap.Atomic.{swap_token-all_or_nothing}
use ff_indexer.Swap.Effect.{swap_token_lem}

abbrev swap : SwapUpdate
swap = record {
  original_token_id = "7";
  original_blockchain = "ethereum";
  original_contract_address = "0xc";
  new_token_id = "3";
  new_blockchain = "tezos";
  new_contract_address = "KT1";
  new_contract_type = "fa2";
}

abbrev original : Token
original = record sample_token { index_id = "eth-0xC-7" }

abbrev account : AccountToken
account = record {
  base = sample_base;
  index_id = "eth-0xC-7";
  owner_account = "0xa";
  balance = 1;
  last_activity_time = 50;
  last_refreshed_time = 60;
}

abbrev before : Store
before = record sample_store { tokens = original ∷ []; account_tokens = account ∷ [] }

-- The fourth call fails: the second of the transaction.
abbrev unlucky : World Store
unlucky = record { store = before; faults = false ∷ false ∷ false ∷ true ∷ [] }

swap_token-all_or_nothing_example :
    ((e : Error) × ((swap_token chains 100 swap unlucky).0 ≡ err e)
      × ((swap_token chains 100 swap unlucky).1.store ≡ before))
    ⊎ (((swap_token chains 100 swap unlucky).0 ≡ (swap_token chains 100 swap (calm before)).0)
        × ((swap_token chains 100 swap unlucky).1.store
            ≡ (swap_token chains 100 swap (calm before)).1.store))
swap_token-all_or_nothing_example = swap_token-all_or_nothing chains 100 swap unlucky

swap_token_lem_example :
    let after = (swap_token chains 100 swap (calm before)).1.store in
    ((swap_token chains 100 swap (calm before)).0 ≡ ok "tez-KT1-3")
    × (find_first (has_index_id "eth-0xC-7") after.tokens
        ≡ some (record original { burned = true; swapped_to = some "tez-KT1-3" }))
    × (find_first (has_index_id "tez-KT1-3") after.tokens
        ≡ some (record original {
          base = record sample_base {
            id = "3";
            blockchain = "tezos";
            contract_address = "KT1";
            contract_type = "fa2";
          };
          index_id = "tez-KT1-3";
          swapped = true;
          swapped_from = some "eth-0xC-7";
          origin_token_info = sample_base ∷ original.origin_token_info;
        }))
    × (after.account_tokens
        ≡ record account {
          index_id = "tez-KT1-3";
          last_activity_time = 100;
          last_refreshed_time = 100;
        }
          ∷ [])
    × (exists (λ a. a.index_id == "eth-0xC-7") after.account_tokens ≡ false)
unfolding token_index_id blockchain_alias find_first update_all move_account has_duplicates exists
swap_token_lem_example =
    swap_token_lem chains 100 swap original before refl (ne_of_test "eth-0xC-7" "tez-KT1-3" refl)
      refl refl refl
