-- ===== src/Events/Examples.antt =====
-- Witnesses and tests for the event processor.
use ff_indexer.Prelude.{
  ℕ, String, List, ◌+◌, [], ◌∷◌, true, false, some, ◌≡◌, ◌⊎◌, inl, refl, arith, All, remove_all,
  update_all, length, exists,
}
use ff_indexer.Exec.{ok, err, call_failed, perform, pure, fail}
use ff_indexer.Events.{
  done, init, full_sync, nft_event_stages, transfer, burned, created, NftEvent, ArchivedNftEvent,
  Db,
}
use ff_indexer.Events.Store.{
  push_nft_event, create_nft_event, insert_nft_event, is_archived_as, same_key,
}
use ff_indexer.Events.Transaction.{
  oldest, oldest_of, get_nft_event_transaction, begin, rollback, commit, statement,
  update_nft_event, set_row, passes, archive_nft_event, archived_row, save_archived, delete_row,
}
use mathlib.Core.List.Memᴰ.{head, tail}
use ff_indexer.Events.Worker.{
  Processor, nft_filters, nft_workers, handle_nft_event, nft_event_round,
  update_latest_owner_worker,
}
use ff_indexer.Events.Selection.{IsAtomic, eligible, idle, round-IsAtomic}
use ff_indexer.Events.Conservation.{has_id, round_conserves, round_changes_one}
use ff_indexer.Events.Dedup.{quiet, push_twice}
use ff_indexer.Events.Failure
use ff_indexer.Events.Failure.{failed_is_stuck, failed_is_archived}
use ff_indexer.Events.History.{at_start, then_step, receive, work, ArchiveOk, History-ArchiveOk}
use ff_indexer.Events.Drain.{run_all_drains}
use ff_indexer.Events.Rounds.{run_all, at_rest}
use ff_indexer.Events.Pipeline.{moving, next_stage_by_workers, next_stage_by_workers-route}

abbrev sample : NftEvent
sample = record {
  id = "e1";
  type = transfer;
  blockchain = "ethereum";
  contract = "0xc";
  token_id = "7";
  from = "0xa";
  to = "0xb";
  tx_id = "0xt";
  event_index = 3;
  tx_time = 50;
  stage = nft_event_stages init;
  status = created;
  created_at = 100;
}

abbrev older : NftEvent
older = record sample { id = "e0"; token_id = "8"; created_at = 90 }

abbrev queue : Db
queue = record { events = sample ∷ older ∷ []; archive = [] }

abbrev archived_sample : ArchivedNftEvent
archived_sample = record {
  id = "a1";
  type = transfer;
  blockchain = "ethereum";
  contract = "0xc";
  token_id = "7";
  from = "0xa";
  to = "0xb";
  tx_id = "0xt";
  event_index = 0;
  tx_time = 50;
  stage = "";
  status = "processed";
  created_at = 100;
}

abbrev succeeds : Processor (Unit {0})
succeeds e x = (ok tt, x)

abbrev fails : Processor (Unit {0})
fails e x = (err call_failed, x)

-- The first round advances the older event.
round_advances :
    (nft_event_round update_latest_owner_worker 1000 [] "a1" succeeds
      (idle update_latest_owner_worker 1000 [] "a1" succeeds queue tt [])).1.store.db.events
    ≡ sample ∷ record older { stage = nft_event_stages full_sync } ∷ []
unfolding nft_event_round handle_nft_event get_nft_event_transaction begin perform rollback commit
    statement update_nft_event pure fail set_row update_all oldest oldest_of passes nft_filters
round_advances = refl

round-IsAtomic_example :
    IsAtomic update_latest_owner_worker 1000 [] "a1" succeeds queue tt
      (nft_event_round update_latest_owner_worker 1000 [] "a1" succeeds (
        idle update_latest_owner_worker 1000 [] "a1" succeeds queue tt
          (false ∷ false ∷ true ∷ []))).1.store.db
round-IsAtomic_example =
    round-IsAtomic update_latest_owner_worker 1000 [] "a1" succeeds queue tt
      (false ∷ false ∷ true ∷ [])

abbrev after_first_round : Db
after_first_round =
    (nft_event_round update_latest_owner_worker 1000 [] "a1" succeeds
      (idle update_latest_owner_worker 1000 [] "a1" succeeds queue tt [])).1.store.db

round_conserves_example : length after_first_round.events + length after_first_round.archive ≡ 2
unfolding exists
round_conserves_example =
    round_conserves update_latest_owner_worker 1000 [] "a1" succeeds queue tt [] (refl, (refl, tt))

round_changes_one_example :
    (after_first_round ≡ queue)
    ⊎ ((e : NftEvent) × (oldest (eligible update_latest_owner_worker 1000 []) queue.events ≡ some e)
        × (remove_all (has_id e.id) after_first_round.events
            ≡ remove_all (has_id e.id) queue.events))
round_changes_one_example =
    round_changes_one update_latest_owner_worker 1000 [] "a1" succeeds queue tt []

next_stage_by_workers-route_example : next_stage_by_workers 5 1000 sample ≡ some full_sync
next_stage_by_workers-route_example =
    next_stage_by_workers-route 5 1000 moving init sample refl refl (inl refl) (omega arith)
      (omega arith)

push_twice_example :
    let once =
      (push_nft_event "e2" 200 sample (quiet (record { events = []; archive = [] }))).1.store in
    push_nft_event "e3" 300 sample (quiet once) ≡ (ok tt, quiet once)
push_twice_example = push_twice "e2" "e3" 200 300 sample (record { events = []; archive = [] })

failed_is_stuck_example :
    All
      (λ r.
        (has_id "e1" r ≡ false) ⊎ All (λ k. passes (nft_filters k 1000) r ≡ false) (nft_workers 5))
      (Failure.after fails sample "a1" queue tt full_sync fails).events
failed_is_stuck_example = failed_is_stuck fails sample "a1" queue tt full_sync 5 1000 refl refl

failed_is_archived_example :
    Failure.after fails sample "a1" queue tt done fails
    ≡ record { events = older ∷ []; archive = archived_sample ∷ [] }
unfolding remove_all
failed_is_archived_example = failed_is_archived fails sample "a1" queue tt

-- A burned event is received, and two workers bring it to the archive.
abbrev burning : NftEvent
burning = record sample { type = burned }

abbrev empty : Db
empty = record { events = []; archive = [] }

abbrev queued : String → Db
queued stage = record empty {
  events = record burning { stage = stage; status = created; created_at = 100 } ∷ [];
}

abbrev buried : Db
buried = record empty { archive = record archived_sample { type = burned } ∷ [] }

History-ArchiveOk_example : ArchiveOk buried
unfolding push_nft_event create_nft_event insert_nft_event is_archived_as same_key exists perform
    pure fail nft_workers nft_event_round handle_nft_event get_nft_event_transaction begin rollback
    commit statement update_nft_event archive_nft_event archived_row save_archived delete_row
    set_row update_all remove_all oldest oldest_of passes nft_filters
History-ArchiveOk_example = History-ArchiveOk {X = Unit {0}} {delay = 5} {db = buried} (
    then_step {db = queued "stage_2_full_sync"} {db' = buried}
      (then_step {db = queued "stage_1_init"} {db' = queued "stage_2_full_sync"}
        (then_step {db = empty} {db' = queued "stage_1_init"} at_start
          (receive "e1" 100 burning [] empty))
        (work (tail (tail (head refl))) 1000 [] "a1" succeeds tt [] (queued "stage_1_init")))
      (work (tail (tail (tail (tail (head refl))))) 1010 [] "a1" fails tt []
        (queued "stage_2_full_sync")))

abbrev six_times : List ℕ
six_times = 1000 ∷ 1010 ∷ 1020 ∷ 1030 ∷ 1040 ∷ 1050 ∷ []

run_all_drains_example :
    All
      (λ k.
        exists
          (eligible k 2000 [])
          (run_all (λ k. succeeds) (λ now k. "a") 5 six_times (at_rest queue tt)).1.store.db.events
        ≡ false)
      (nft_workers 5)
unfolding exists
run_all_drains_example =
    run_all_drains (λ k. succeeds) (λ now k. "a") 5 1000 six_times queue tt
      (omega arith, (omega arith, (omega arith, (omega arith, (omega arith, (omega arith, tt))))))
      (refl, (refl, tt)) (omega arith, (omega arith, tt)) (omega arith) 2000 (omega arith)
