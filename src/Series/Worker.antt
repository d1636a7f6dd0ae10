-- ===== src/Series/Worker.antt =====
-- services/event-processor: the transaction of a series event (store.go), one round of the loop of
-- `StartSeriesRegistryEventWorker` (server.go), and its workers
-- (series_registry_event_processor.go).
use ff_indexer.Prelude.{
  String, List, [], ◌∷◌, ◌++◌, Bool, not, ◌&&◌, Option, none, some, ◌==◌, if◌then◌else◌, one_of,
  update_all,
}
use ff_indexer.Exec.{
  Result, ok, err, no_documents, nothing_to_update, tx_done, Exec, perform, pure, fail, caught,
  ◌>>=◌, ◌>>◌,
}
use ff_indexer.Series.{
  SeriesEvent, SeriesSession, series_processing, series_processed, series_failed, oldest_series,
  series_filter, set_series,
}

abbrev pub SeriesProcessor : Type 0 → Type 0
SeriesProcessor X = SeriesEvent → X → Result (Unit {0}) × X

module _ {X : Type 0} where
  abbrev pick_series : SeriesSession X → Option SeriesEvent → Result SeriesEvent × SeriesSession X
  pick_series s none = (err no_documents, s)
  pick_series s (some e) = (ok e, s)

  unfoldable pub rollback_series : Exec (SeriesSession X) (Unit {0})
  rollback_series w = (ok tt, record w { store = record (w.store) { open_tx = none } })

  abbrev rollback_series_on_error : Result SeriesEvent → Exec (SeriesSession X) SeriesEvent
  rollback_series_on_error (ok e) = pure e
  rollback_series_on_error (err x) = do rollback_series; fail x

  -- `GetSeriesRegistryEventTransaction`; `SKIP LOCKED` leaves out the rows that others hold.
  unfoldable pub get_series_registry_event_transaction :
      List String → (SeriesEvent → Bool) → Exec (SeriesSession X) SeriesEvent
  get_series_registry_event_transaction locked p =
      perform (λ s. (ok tt, record s { open_tx = some (λ rows. rows) })) >>= λ (u : Unit {0}).
      caught
        (perform λ s.
          pick_series s (oldest_series (λ e. not (one_of (s.held ++ locked) e.id) && p e) s.rows))
        rollback_series_on_error

  abbrev run_series :
      (List SeriesEvent → List SeriesEvent)
      → SeriesSession X
      → Option (List SeriesEvent → List SeriesEvent)
      → Result (Unit {0}) × SeriesSession X
  run_series g s none = (err tx_done, s)
  run_series g s (some f) = (ok tt, record s { open_tx = some (λ rows. g (f rows)) })

  -- `UpdateSeriesRegistryEvent`
  unfoldable pub update_series_registry_event :
      SeriesEvent → String → String → Exec (SeriesSession X) (Unit {0})
  update_series_registry_event e stage status =
      if stage == "" && status == ""
      then fail nothing_to_update
      else perform
          λ s. run_series (update_all (λ r. r.id == e.id) (set_series stage status)) s s.open_tx

  abbrev commit_rows :
      SeriesSession X
      → Option (List SeriesEvent → List SeriesEvent)
      → Result (Unit {0}) × SeriesSession X
  commit_rows s none = (err tx_done, s)
  commit_rows s (some f) = (ok tt, record s { rows = f s.rows; open_tx = none })

  unfoldable pub commit_series : Exec (SeriesSession X) (Unit {0})
  commit_series = perform λ s. commit_rows s s.open_tx

  abbrev pub or_rollback : Result (Unit {0}) → Exec (SeriesSession X) (Unit {0})
  or_rollback (ok u) = pure tt
  or_rollback (err x) = rollback_series

  -- `continue` with the transaction open: it is never ended, and holds the row for good.
  abbrev held_after :
      String → SeriesSession X → Option (List SeriesEvent → List SeriesEvent) → SeriesSession X
  held_after id s none = s
  held_after id s (some f) = record s { open_tx = none; held = id ∷ s.held }

  unfoldable pub abandon : SeriesEvent → Exec (SeriesSession X) (Unit {0})
  abandon e w = (ok tt, record w { store = held_after e.id w.store w.store.open_tx })

  abbrev pub finish_series : String → SeriesEvent → Exec (SeriesSession X) (Unit {0})
  finish_series next_stage e =
      caught
        (if next_stage == ""
          then update_series_registry_event e "" series_processed
          else update_series_registry_event e next_stage "")
        or_rollback
      >> caught commit_series (λ (r : Result (Unit {0})). pure tt)

  abbrev pub after_processing :
      String → SeriesEvent → Result (Unit {0}) → Exec (SeriesSession X) (Unit {0})
  after_processing next_stage e (ok u) = finish_series next_stage e
  after_processing next_stage e (err x) =
      caught (update_series_registry_event e "" series_failed) or_rollback >> abandon e

  unfoldable pub process_series :
      SeriesProcessor X → SeriesEvent → Exec (SeriesSession X) (Unit {0})
  process_series f e w =
      let (r, x) = f e w.store.outside in (r, record w { store = record (w.store) { outside = x } })

  unfoldable pub handle_series_event :
      String → SeriesProcessor X → SeriesEvent → Exec (SeriesSession X) (Unit {0})
  handle_series_event next_stage f e =
      caught (update_series_registry_event e "" series_processing) or_rollback
      >> caught (process_series f e) (after_processing next_stage e)

  abbrev pub after_series_query :
      String → SeriesProcessor X → Result SeriesEvent → Exec (SeriesSession X) (Option SeriesEvent)
  after_series_query next_stage f (err x) = pure none
  after_series_query next_stage f (ok e) = handle_series_event next_stage f e >> pure (some e)

  -- One round: the event that was handled, if the query gave one.
  unfoldable pub series_event_round :
      List String
      → String
      → List String
      → SeriesProcessor X
      → Exec (SeriesSession X) (Option SeriesEvent)
  series_event_round types next_stage locked f =
      caught (get_series_registry_event_transaction locked (series_filter types))
        (after_series_query next_stage f)

-- The event types of the workers `IndexCollection`, `DeleteCollection`,
-- `ReplaceCollectionCreator` and `UpdateCollectionCreators`; none has a next stage.
abbrev pub series_workers : List (List String)
series_workers =
    ("register_series" ∷ "update_series" ∷ [])
    ∷ ("delete_series" ∷ [])
    ∷ ("update_artist_address" ∷ "assign_series" ∷ [])
    ∷ ("opt_in_collaboration" ∷ "opt_out_series" ∷ [])
    ∷ []
