-- ===== src/Events/Worker.antt =====
-- services/event-processor/server.go: one round of the loop of `StartNftEventWorker`, and the
-- workers that `ProcessEvents` starts, with their stages and event types
-- (services/event-processor/token_event_processor.go and token_update.go). Sleeping between
-- rounds and logging are left out.
use ff_indexer.Prelude.{
  ℕ, ◌-◌, String, List, [], ◌∷◌, Bool, Option, none, some, ◌==◌, ltb, if◌then◌else◌, one_of,
}
use ff_indexer.Exec.{Result, ok, err, Exec, pure, caught, ◌>>◌}
use ff_indexer.Events.{
  Stage, done, init, full_sync, token_sale_indexing, double_sync, nft_event_stages, is_done, mint,
  burned, transfer, token_updated, created, processing, failed, NftEvent, Session,
}
use ff_indexer.Events.Transaction.{
  get_nft_event_transaction, rollback, commit, update_nft_event, archive_nft_event,
}

-- The arguments of `StartNftEventWorker` that choose events; the handler is given apart.
pub record NftWorker : Type 0 where
  pub current_stage : Stage
  pub next_stage : Stage
  pub types : List String
  pub defer_second : ℕ

-- `created_at < now - deferSecond`, added only if the worker defers.
abbrev pub deferred : ℕ → ℕ → List (NftEvent → Bool)
deferred now defer = if ltb 0 defer then (λ e. ltb e.created_at (now - defer)) ∷ [] else []

unfoldable pub nft_filters : NftWorker → ℕ → List (NftEvent → Bool)
nft_filters k now =
    (λ e. one_of k.types e.type)
    ∷ (λ e. one_of (created ∷ processing ∷ []) e.status)
    ∷ (λ e. e.stage == nft_event_stages k.current_stage)
    ∷ deferred now k.defer_second

-- A handler of events: it works on what is outside the event tables, and may return an error.
abbrev pub Processor : Type 0 → Type 0
Processor X = NftEvent → X → Result (Unit {0}) × X

module _ {X : Type 0} where
  unfoldable pub process : Processor X → NftEvent → Exec (Session X) (Unit {0})
  process f e w =
      let (r, x) = f e w.store.outside in (r, record w { store = record (w.store) { outside = x } })

  abbrev pub rollback_on_failure : Result (Unit {0}) → Exec (Session X) (Unit {0})
  rollback_on_failure (ok u) = pure u
  rollback_on_failure (err x) = rollback

  abbrev pub mark_failed : NftEvent → Result (Unit {0}) → Exec (Session X) (Unit {0})
  mark_failed e (ok u) = pure u
  mark_failed e (err x) = caught (update_nft_event e "" failed) rollback_on_failure

  unfoldable pub move_on : Stage → String → NftEvent → Exec (Session X) (Unit {0})
  move_on next new_id e =
      caught
        (if is_done next
          then archive_nft_event new_id e
          else update_nft_event e (nft_event_stages next) "")
        rollback_on_failure

  -- What the loop does with an event that it was given.
  unfoldable pub handle_nft_event :
      Stage → String → Processor X → NftEvent → Exec (Session X) (Unit {0})
  unfolding process move_on
  handle_nft_event next new_id f e = do
    caught (process f e) (mark_failed e)
    move_on next new_id e
    caught commit (λ _. pure tt)

  abbrev pub after_query :
      Stage → String → Processor X → Result NftEvent → Exec (Session X) (Option NftEvent)
  after_query next new_id f (err x) = pure none
  after_query next new_id f (ok e) = do handle_nft_event next new_id f e; pure (some e)

  -- One round: the event that was handled, if the query gave one.
  unfoldable pub nft_event_round :
      NftWorker → ℕ → List String → String → Processor X → Exec (Session X) (Option NftEvent)
  nft_event_round k now locked new_id f =
      caught (get_nft_event_transaction locked (nft_filters k now))
        (after_query k.next_stage new_id f)

-- `UpdateLatestOwner`
abbrev pub update_latest_owner_worker : NftWorker
update_latest_owner_worker = record {
  current_stage = init;
  next_stage = full_sync;
  types = transfer ∷ mint ∷ burned ∷ [];
  defer_second = 0;
}

-- `UpdateOwnerAndProvenance`
abbrev pub update_owner_and_provenance_worker : NftWorker
update_owner_and_provenance_worker = record {
  current_stage = full_sync;
  next_stage = token_sale_indexing;
  types = transfer ∷ mint ∷ [];
  defer_second = 0;
}

-- `UpdateOwnerAndProvenanceForBurnedToken`
abbrev pub burned_token_worker : NftWorker
burned_token_worker = record {
  current_stage = full_sync;
  next_stage = done;
  types = burned ∷ [];
  defer_second = 0;
}

-- `IndexTokenSale`
abbrev pub index_token_sale_worker : NftWorker
index_token_sale_worker = record {
  current_stage = token_sale_indexing;
  next_stage = done;
  types = transfer ∷ [];
  defer_second = 0;
}

-- `RefreshTokenData`, with the delay that the configuration gives.
abbrev pub refresh_token_data_worker : ℕ → NftWorker
refresh_token_data_worker delay = record {
  current_stage = init;
  next_stage = double_sync;
  types = token_updated ∷ [];
  defer_second = delay;
}

-- `DoubleSyncTokenData`
abbrev pub double_sync_worker : NftWorker
double_sync_worker = record {
  current_stage = double_sync;
  next_stage = done;
  types = token_updated ∷ [];
  defer_second = 60;
}

-- The NFT event workers of `ProcessEvents`, in the order of the source.
unfoldable pub nft_workers : ℕ → List NftWorker
nft_workers delay =
    refresh_token_data_worker delay
    ∷ double_sync_worker
    ∷ update_latest_owner_worker
    ∷ update_owner_and_provenance_worker
    ∷ burned_token_worker
    ∷ index_token_sale_worker
    ∷ []
