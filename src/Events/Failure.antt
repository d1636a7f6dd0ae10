-- ===== src/Events/Failure.antt =====
-- What becomes of an event whose handler returned an error (services/event-processor/server.go):
-- the loop of `StartNftEventWorker` marks it failed and then goes on as after a success.
use ff_indexer.Prelude.{
  ℕ, String, List, [], ◌∷◌, true, false, ◌≡◌, ◌⊎◌, refl, ◌∙◌, inl, inr, All, All-map, ◌++◌,
  update_all, remove_all, Bool-cases,
}
use ff_indexer.Events.{Stage, done, is_done, nft_event_stages, failed, NftEvent, Db}
use ff_indexer.Events.Transaction.{
  passes, set_row, set_stage_and_status, archived_row, save_archived, delete_row,
}
use ff_indexer.Events.Worker.{Processor, nft_filters, nft_workers, handle_nft_event}
use ff_indexer.Events.Atomic.{settled, opened, is_err, handle-no_faults}
use ff_indexer.Events.Pipeline.{failed-passes_not}
use ff_indexer.Events.Conservation.{has_id, settled-done}

abbrev pub IsFailed : String → NftEvent → Type 0
IsFailed i r = has_id i r ≡ true → r.status ≡ failed

IsFailed-set_stage :
    (i stage : String) (rs : List NftEvent)
    → All (IsFailed i) rs
    → All (IsFailed i) (update_all (has_id i) (set_stage_and_status stage "") rs)
unfolding update_all
IsFailed-set_stage i stage [] h = tt
IsFailed-set_stage i stage (r ∷ rs) h = elim (Bool-cases (has_id i r)) [
  | inl e ↦ rw e ((λ _. h.0 e), IsFailed-set_stage i stage rs h.1)
  | inr e ↦ rw e (h.0, IsFailed-set_stage i stage rs h.1)
]

IsFailed-mark :
    (i : String) (rs : List NftEvent)
    → All (IsFailed i) (update_all (has_id i) (set_stage_and_status "" failed) rs)
unfolding update_all
IsFailed-mark i [] = tt
IsFailed-mark i (r ∷ rs) = elim (Bool-cases (has_id i r)) [
  | inl e ↦ rw e ((λ _. refl), IsFailed-mark i rs)
  | inr e ↦ rw e ((λ h. cc), IsFailed-mark i rs)
]

settled-IsFailed :
    (next : Stage) (new_id : String) (e : NftEvent) (db : Db)
    → is_done next ≡ false
    → All (IsFailed e.id) (settled next new_id true e db).events
unfolding set_row
settled-IsFailed done new_id e db h = cc
settled-IsFailed s new_id e db h =
    IsFailed-set_stage e.id (nft_event_stages s)
      (update_all (has_id e.id) (set_stage_and_status "" failed) db.events)
      (IsFailed-mark e.id db.events)

untaken :
    (delay now : ℕ) (i : String) (r : NftEvent)
    → IsFailed i r
    → (has_id i r ≡ false) ⊎ All (λ k. passes (nft_filters k now) r ≡ false) (nft_workers delay)
untaken delay now i r h = elim (Bool-cases (has_id i r)) [
  | inl here ↦ inr (failed-passes_not delay now r (h here))
  | inr other ↦ inl other
]

module _ {X : Type 0} (f : Processor X) (e : NftEvent) (new_id : String) (db : Db) (x : X) where
  abbrev pub after : Stage → Processor X → Db
  after next g = (handle_nft_event next new_id g e (opened g e new_id db x [])).1.store.db

  -- If the handler fails, no call of the database does, and there is a next stage, then afterwards
  -- no worker takes a row with the id of the event, at any time, whatever the delay of
  -- RefreshTokenData.
  pub failed_is_stuck :
      (next : Stage) (delay now : ℕ)
      → is_done next ≡ false
      → is_err (f e x).0 ≡ true
      → All
          (λ r.
            (has_id e.id r ≡ false)
            ⊎ All (λ k. passes (nft_filters k now) r ≡ false) (nft_workers delay))
          (after next f).events
  failed_is_stuck next delay now n h =
      rw (handle-no_faults f e new_id db x next, h)
        (All-map _ _ (untaken delay now e.id) _ (settled-IsFailed next new_id e db n))

  -- Where no call of the database fails and there is no next stage, then whatever the handler
  -- returned, an error or not, the rows with the event's id leave the queue, and the archive gets
  -- one row, with the fields of the event, the new id, the status processed, the event index 0 and
  -- no stage.
  pub failed_is_archived : after done f ≡ record {
    events = remove_all (has_id e.id) db.events;
    archive =
        db.archive
        ++ record {
          id = new_id;
          type = e.type;
          blockchain = e.blockchain;
          contract = e.contract;
          token_id = e.token_id;
          from = e.from;
          to = e.to;
          tx_id = e.tx_id;
          event_index = 0;
          tx_time = e.tx_time;
          stage = "";
          status = "processed";
          created_at = e.created_at;
        }
          ∷ [];
  }
  unfolding archived_row save_archived delete_row
  failed_is_archived =
      handle-no_faults f e new_id db x done ∙ settled-done new_id (is_err (f e x).0) e db
