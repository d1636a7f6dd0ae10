-- ===== src/Events/Atomic.antt =====
-- What one handled event leaves in the tables, whichever calls of the database fail
-- (services/event-processor/server.go, the loop of `StartNftEventWorker`).
use ff_indexer.Prelude.{
  String, List, [], Bool, true, false, none, some, ◌≡◌, ◌⊎◌, ap, arith, if◌then◌else◌,
}
use ff_indexer.Exec.{Result, ok, err, World, perform, pure, fail}
use ff_indexer.Events.{Stage, done, nft_event_stages, is_done, failed, NftEvent, Db, Session}
use ff_indexer.Events.Transaction.{
  set_row, archived_row, save_archived, delete_row, statement, rollback, commit, update_nft_event,
  archive_nft_event,
}
use ff_indexer.Events.Worker.{Processor, handle_nft_event}

abbrev pub is_err : Result (Unit {0}) → Bool
is_err (ok u) = false
is_err (err x) = true

-- The tables after an event was handled with no failing call.
abbrev pub settled : Stage → String → Bool → NftEvent → Db → Db
settled next new_id bad e db =
    let marked = (if bad then set_row e.id "" failed db else db) in
    if is_done next
    then delete_row e.id (save_archived (archived_row new_id e) marked)
    else set_row e.id (nft_event_stages next) "" marked

module _ {X : Type 0} (f : Processor X) (e : NftEvent) (new_id : String) (db : Db) (x : X) where
  abbrev pub opened : List Bool → World (Session X)
  opened faults = record {
    store = record { db = db; tx = some (λ d. d); outside = x };
    faults = faults;
  }

  -- The session after the handling, with no failing call.
  abbrev pub handled : Stage → World (Session X)
  handled next = record {
    store = record {
      db = settled next new_id (is_err (f e x).0) e db;
      tx = none;
      outside = (f e x).1;
    };
    faults = [];
  }

  pub handle-calm : (next : Stage) → (handle_nft_event next new_id f e (opened [])).1 ≡ handled next
  unfolding handle_nft_event perform pure fail statement rollback commit update_nft_event
      archive_nft_event
  handle-calm done = ground arith
  handle-calm _ = ground arith

  pub handle-no_faults :
      (next : Stage)
      → (handle_nft_event next new_id f e (opened [])).1.store.db
        ≡ settled next new_id (is_err (f e x).0) e db
  handle-no_faults next = ap (λ w. w.store.db) (handle-calm next)

  pub handle-atomic :
      (next : Stage) (faults : List Bool)
      → ((handle_nft_event next new_id f e (opened faults)).1.store.db ≡ db)
        ⊎ ((handle_nft_event next new_id f e (opened faults)).1.store.db
            ≡ settled next new_id (is_err (f e x).0) e db)
  unfolding handle_nft_event perform pure fail statement rollback commit update_nft_event
      archive_nft_event
  handle-atomic done faults = ground arith
  handle-atomic _ faults = ground arith
