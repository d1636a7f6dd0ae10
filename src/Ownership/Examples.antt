-- ===== src/Ownership/Examples.antt =====
-- Witnesses and tests for the changes of owners.
use ff_indexer.Prelude.{[], ◌∷◌, none, some, ◌≡◌, inr, refl, arith, All, exists, find_first}
use ff_indexer.Exec.{calm, ok, err, no_record_updated, perform, pure}
use ff_indexer.Mongo.{update_one}
use ff_indexer.Catalog.{Provenance, OwnerBalance}
use ff_indexer.Catalog.Samples.{sample_store}
use ff_indexer.Ownership.{push_provenance}
use ff_indexer.Ownership.Single.{
  IsSingle, run_calls, change_owner, append_provenance, run_calls-IsSingle,
}
use ff_indexer.Ownership.Race.{push_provenance_race}

abbrev bought : Provenance
bought = record {
  former_owner = some "0xa";
  type = "transfer";
  owner = "0xb";
  blockchain = "ethereum";
  block_number = none;
  timestamp = 70;
  tx_id = "0xt";
  tx_url = "";
}

run_calls-IsSingle_example :
    All IsSingle
      (run_calls
        (change_owner "test" 61 "eth-0xc-7" "0xd" 55
          ∷ append_provenance 80 "eth-0xc-7" 61 bought
          ∷ [])
        (calm sample_store)).store.tokens
run_calls-IsSingle_example =
    run_calls-IsSingle
      (change_owner "test" 61 "eth-0xc-7" "0xd" 55
        ∷ append_provenance 80 "eth-0xc-7" 61 bought
        ∷ [])
      (calm sample_store) (inr (refl, refl), tt)

-- The first push succeeds.
pushes : (push_provenance 80 "eth-0xc-7" 60 bought (calm sample_store)).0 ≡ ok tt
unfolding push_provenance update_one perform pure exists
pushes = refl

push_provenance_race_example :
    push_provenance 90 "eth-0xc-7" 60 bought
      (push_provenance 80 "eth-0xc-7" 60 bought (calm sample_store)).1
    ≡ (err no_record_updated, (push_provenance 80 "eth-0xc-7" 60 bought (calm sample_store)).1)
unfolding exists find_first
push_provenance_race_example =
    push_provenance_race 80 90 "eth-0xc-7" 60 bought bought sample_store (inr refl, tt)
      (ground arith) pushes (λ e. cc)

abbrev balances : OwnerBalance
balances = record { address = "0xa"; balance = 2; last_time = 0 }
