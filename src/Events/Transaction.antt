-- ===== src/Events/Transaction.antt =====
-- services/event-processor/store.go: `GetNftEventTransaction`, `NftEventTx` and its methods. What
-- a statement of a transaction does is kept until `Commit`, and a statement after `Commit` or
-- `Rollback` returns `sql.ErrTxDone`.
use ff_indexer.Prelude.{
  String, List, [], ◌∷◌, ◌++◌, Bool, true, not, ◌&&◌, Option, none, some, ◌==◌, leb, if◌then◌else◌,
  one_of, update_all, remove_all,
}
use ff_indexer.Exec.{
  Result, ok, err, Exec, perform, pure, fail, no_documents, nothing_to_update, tx_done, caught,
  ◌>>◌,
}
use ff_indexer.Events.{NftEvent, ArchivedNftEvent, Db, Session, processed}

-- `ORDER BY created_at ASC LIMIT 1`; rows of one time are kept in the order of their ids.
unfoldable pub oldest_of : NftEvent → Option NftEvent → NftEvent
oldest_of e none = e
oldest_of e (some o) = if leb e.created_at o.created_at then e else o

unfoldable pub oldest : (NftEvent → Bool) → List NftEvent → Option NftEvent
unfolding oldest_of
oldest p [] = none
oldest p (e ∷ es) = let rest = oldest p es in if p e then some (oldest_of e rest) else rest

-- All filters hold of a row.
unfoldable pub passes : List (NftEvent → Bool) → NftEvent → Bool
passes [] e = true
passes (f ∷ fs) e = f e && passes fs e

module _ {X : Type 0} where
  -- `Begin`
  unfoldable pub begin : Exec (Session X) (Unit {0})
  begin = perform λ s. (ok tt, record s { tx = some (λ db. db) })

  -- `Rollback`; its error is dropped by every caller.
  unfoldable pub rollback : Exec (Session X) (Unit {0})
  rollback w = (ok tt, record w { store = record (w.store) { tx = none } })

  abbrev commit_store : Session X → Option (Db → Db) → Result (Unit {0}) × Session X
  commit_store s none = (err tx_done, s)
  commit_store s (some f) = (ok tt, record s { db = f s.db; tx = none })

  -- `Commit`
  unfoldable pub commit : Exec (Session X) (Unit {0})
  commit = perform λ s. commit_store s s.tx

  abbrev run_statement : (Db → Db) → Session X → Option (Db → Db) → Result (Unit {0}) × Session X
  run_statement g s none = (err tx_done, s)
  run_statement g s (some f) = (ok tt, record s { tx = some (λ db. g (f db)) })

  -- A statement of the open transaction.
  unfoldable pub statement : (Db → Db) → Exec (Session X) (Unit {0})
  statement g = perform λ s. run_statement g s s.tx

  abbrev pick : Session X → Option NftEvent → Result NftEvent × Session X
  pick s none = (err no_documents, s)
  pick s (some e) = (ok e, s)

  abbrev rollback_on_error : Result NftEvent → Exec (Session X) NftEvent
  rollback_on_error (ok e) = pure e
  rollback_on_error (err x) = do rollback; fail x

  -- `SKIP LOCKED` leaves out the rows that another transaction has locked.
  unfoldable pub get_nft_event_transaction :
      List String → List (NftEvent → Bool) → Exec (Session X) NftEvent
  unfolding begin rollback
  get_nft_event_transaction locked filters = do
    begin
    caught
        (perform
          λ s. pick s (oldest (λ e. not (one_of locked e.id) && passes filters e) s.db.events))
        rollback_on_error

abbrev pub set_stage_and_status : String → String → NftEvent → NftEvent
set_stage_and_status stage status e = record e {
  stage = (if stage == "" then e.stage else stage);
  status = (if status == "" then e.status else status);
}

unfoldable pub set_row : String → String → String → Db → Db
set_row id stage status db = record db {
  events = update_all (λ r. r.id == id) (set_stage_and_status stage status) db.events;
}

-- The archived row of an event; the literal gives neither `EventIndex` nor `Stage`.
unfoldable pub archived_row : String → NftEvent → ArchivedNftEvent
archived_row new_id e = record {
  id = new_id;
  type = e.type;
  blockchain = e.blockchain;
  contract = e.contract;
  token_id = e.token_id;
  from = e.from;
  to = e.to;
  tx_id = e.tx_id;
  event_index = 0;
  tx_time = e.tx_time;
  stage = "";
  status = processed;
  created_at = e.created_at;
}

unfoldable pub save_archived : ArchivedNftEvent → Db → Db
save_archived a db = record db { archive = db.archive ++ a ∷ [] }

unfoldable pub delete_row : String → Db → Db
delete_row id db = record db { events = remove_all (λ r. r.id == id) db.events }

module _ {X : Type 0} where
  -- An empty `stage` or `status` is left as it is.
  unfoldable pub update_nft_event : NftEvent → String → String → Exec (Session X) (Unit {0})
  update_nft_event e stage status =
      if stage == "" && status == ""
      then fail nothing_to_update
      else statement (set_row e.id stage status)

  unfoldable pub archive_nft_event : String → NftEvent → Exec (Session X) (Unit {0})
  archive_nft_event new_id e = do
    statement (save_archived (archived_row new_id e))
    statement (delete_row e.id)
