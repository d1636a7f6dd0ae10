-- ===== src/Refresh/Examples.antt =====
-- Witnesses for the refreshes of tokens.
use ff_indexer.Prelude.{[], ◌∷◌, false, none, some, refl, inr}
use ff_indexer.Exec.{ok, calm}
use ff_indexer.Catalog.{Provenance}
use ff_indexer.Catalog.Samples.{sample_store}
use ff_indexer.IndexId.Samples.{chains}
use ff_indexer.Refresh.{Fetches, refresh_token_provenance, refresh_token_ownership}
use ff_indexer.Refresh.Single.{AreSingle, refresh-AreSingle}

abbrev bought : Provenance
bought = record {
  former_owner = none;
  type = "transfer";
  owner = "0xb";
  blockchain = "ethereum";
  block_number = some 5;
  timestamp = 70;
  tx_id = "0xt";
  tx_url = "";
}

abbrev fetches : Fetches
fetches = record {
  fetch_bitmark_provenance = λ id. ok [];
  fetch_ethereum_provenance = λ id contract. ok (bought ∷ []);
  fetch_tezos_provenance = λ contract id. ok [];
  index_tezos_token_last_activity_time = λ contract id. ok 70;
  index_eth_token_owners =
      λ contract id. ok (record { address = "0xb"; balance = 2; last_time = 70 } ∷ []);
  index_tezos_token_owners = λ contract id. ok [];
  get_latest_activity_times = λ ids s. [];
}

refresh-AreSingle_example :
    AreSingle
      (λ id. false)
      (refresh_token_provenance fetches chains 100 ("eth-0xc-7" ∷ []) 0 (calm sample_store)).1.store
    × AreSingle
        (λ id. false)
        (refresh_token_ownership fetches chains 100
          ("eth-0xc-7" ∷ [])
          0
          (calm sample_store)).1.store
refresh-AreSingle_example =
    refresh-AreSingle (λ id. false) fetches chains 100 ("eth-0xc-7" ∷ []) 0 (calm sample_store)
      ((refl, inr (refl, refl)), tt)
