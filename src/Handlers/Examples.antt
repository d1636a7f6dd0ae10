-- ===== src/Handlers/Examples.antt =====
-- A witness for the handler of transfers.
use ff_indexer.Prelude.{[], ◌∷◌, inr, ◌≡◌, some, none, refl, find_first, exists, ne_of_test}
use ff_indexer.Exec.{calm}
use ff_indexer.Catalog.{Token, has_index_id}
use ff_indexer.Catalog.Samples.{sample_token, sample_store}
use ff_indexer.IndexId.{is_burn_address, token_index_id, blockchain_alias}
use ff_indexer.IndexId.Samples.{chains}
use ff_indexer.Ownership.{owned_by}
use ff_indexer.Events.{NftEvent, transfer, created}
use ff_indexer.Handlers.{Gateway, update_latest_owner, tx_url}
use ff_indexer.Handlers.Owner.{find-update_latest_owner}

abbrev known : Token
known = record sample_token { index_id = "eth-0xC-7" }

abbrev gateway : Gateway
gateway = record { indexer = record sample_store { tokens = known ∷ [] }; started = [] }

-- A transfer before the last activity of the token, at 50, that is received later.
abbrev late : NftEvent
late = record {
  id = "e1";
  type = transfer;
  blockchain = "ethereum";
  contract = "0xc";
  token_id = "7";
  from = "0xz";
  to = "0xb";
  tx_id = "0xt";
  event_index = 3;
  tx_time = 40;
  stage = "stage_1_init";
  status = created;
  created_at = 100;
}

-- A transfer after it.
abbrev in_time : NftEvent
in_time = record late { tx_time = 70 }

find-update_latest_owner_example :
    find_first
      (has_index_id "eth-0xC-7")
      (update_latest_owner chains "test" 110 in_time (calm gateway)).1.store.indexer.tokens
    ≡ some (record known {
      owner = "0xb";
      owners = ("0xb", 1) ∷ [];
      owners_array = "0xb" ∷ [];
      provenances =
          record {
            former_owner = none;
            type = transfer;
            owner = "0xb";
            blockchain = "ethereum";
            block_number = none;
            timestamp = 70;
            tx_id = "0xt";
            tx_url = "https://etherscan.io/tx/0xt";
          }
          ∷ known.provenances;
      last_activity_time = 70;
      last_refreshed_time = 110;
    })
unfolding token_index_id blockchain_alias find_first exists tx_url
find-update_latest_owner_example =
    find-update_latest_owner chains "test" 110 in_time gateway known (inr refl, tt) refl refl
      (ne_of_test "0xb" "" refl) refl

-- The token gets the owner of the earlier transfer.
late_owner :
    find_first
      (has_index_id "eth-0xC-7")
      (update_latest_owner chains "test" 110 late (calm gateway)).1.store.indexer.tokens
    ≡ some (owned_by "0xb" 100 110 known)
unfolding token_index_id blockchain_alias find_first exists is_burn_address
late_owner =
    find-update_latest_owner chains "test" 110 late gateway known (inr refl, tt) refl refl
      (ne_of_test "0xb" "" refl) refl
