-- ===== src/Series.antt =====
-- services/event-processor: the events of the series registry, their table (store.go) and how they
-- are received (grpc.go). A time is a number.
pub mod Worker
pub mod Abandon
pub mod Stuck
mod Examples
use ff_indexer.Prelude.{
  ℕ, ◌-◌, String, List, [], ◌∷◌, ◌++◌, Bool, true, false, not, ◌&&◌, ◌||◌, Option, none, some, ◌==◌,
  eqb, ltb, leb, if◌then◌else◌, exists, one_of, update_all, remove_all,
}
use ff_indexer.Exec.{
  Result, ok, err, no_documents, nothing_to_update, tx_done, unique_violation, Exec, perform, pure,
  fail, caught, ◌>>=◌, ◌>>◌,
}

pub record SeriesEvent : Type 0 where
  pub id : String
  pub type : String
  pub contract : String
  pub tx_id : String
  pub event_index : ℕ
  pub tx_time : ℕ
  pub json_data : String
  pub stage : String
  pub status : String
  pub created_at : ℕ

-- The committed rows, the effect of the open transaction, the rows that transactions hold which
-- were never ended, and what the handlers work on.
pub record SeriesSession (X : Type 0) : Type 0 where
  pub rows : List SeriesEvent
  pub open_tx : Option (List SeriesEvent → List SeriesEvent)
  pub held : List String
  pub outside : X

-- `SeriesEventStages` and `SeriesRegistryEventStatus`
abbrev pub series_init : String
series_init = "stage_1_init"

abbrev pub series_created : String
series_created = "created"

abbrev pub series_processing : String
series_processing = "processing"

abbrev pub series_processed : String
series_processed = "processed"

abbrev pub series_failed : String
series_failed = "failed"

abbrev pub same_series_key : SeriesEvent → SeriesEvent → Bool
same_series_key a b =
    a.type == b.type
    && a.contract == b.contract
    && a.tx_id == b.tx_id
    && eqb a.event_index b.event_index

-- `PushSeriesRegistryEvent` of grpc.go: the row, with the id and the time that the database gives.
abbrev pub series_received : String → ℕ → SeriesEvent → SeriesEvent
series_received new_id now e = record e {
  id = new_id;
  created_at = now;
  stage = series_init;
  status = series_created;
}

module _ {X : Type 0} where
  -- `CreateSeriesRegistryEvent`
  unfoldable pub create_series_registry_event :
      String → ℕ → SeriesEvent → Exec (SeriesSession X) (Unit {0})
  create_series_registry_event new_id now e = perform λ s. (
    ok tt,
    record s {
      rows =
          (if exists (same_series_key e) s.rows
            then s.rows
            else s.rows ++ series_received new_id now e ∷ []);
    },
  )

  -- `DeleteSeriesRegistryEvents`
  unfoldable pub delete_series_registry_events : ℕ → ℕ → Exec (SeriesSession X) (Unit {0})
  delete_series_registry_events now duration =
      perform
        λ s. (ok tt, record s { rows = remove_all (λ e. ltb e.created_at (now - duration)) s.rows })

-- `ORDER BY created_at ASC LIMIT 1`
abbrev pub older_series : SeriesEvent → Option SeriesEvent → SeriesEvent
older_series e none = e
older_series e (some o) = if leb e.created_at o.created_at then e else o

unfoldable pub oldest_series : (SeriesEvent → Bool) → List SeriesEvent → Option SeriesEvent
oldest_series p [] = none
oldest_series p (e ∷ es) =
    let rest = oldest_series p es in if p e then some (older_series e rest) else rest

-- The filters of a worker, which never defers.
abbrev pub series_filter : List String → SeriesEvent → Bool
series_filter types e =
    one_of types e.type
    && one_of (series_created ∷ series_processing ∷ []) e.status
    && e.stage == series_init

abbrev pub set_series : String → String → SeriesEvent → SeriesEvent
set_series stage status e = record e {
  stage = (if stage == "" then e.stage else stage);
  status = (if status == "" then e.status else status);
}
