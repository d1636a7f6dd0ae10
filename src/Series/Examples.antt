-- ===== src/Series/Examples.antt =====
-- Witnesses for the events of the series registry.
use ff_indexer.Prelude.{
  List, Option, update_all, exists, find_first, false, [], ◌∷◌, none, some, ◌≡◌, refl,
}
use ff_indexer.Exec.{World, Result, fail, ok, err, call_failed, calm, perform, pure}
use ff_indexer.Series.{SeriesEvent, SeriesSession, series_init, series_created, oldest_series}
use ff_indexer.Series.Worker.{
  SeriesProcessor, series_event_round, get_series_registry_event_transaction, handle_series_event,
  process_series, update_series_registry_event, commit_series, abandon, rollback_series,
}
use ff_indexer.Series.Stuck.{Round, run_rounds, is_of, has_id, series_failure-stuck}

abbrev registered : SeriesEvent
registered = record {
  id = "s1";
  type = "register_series";
  contract = "0xc";
  tx_id = "0xt";
  event_index = 0;
  tx_time = 10;
  json_data = "{}";
  stage = series_init;
  status = series_created;
  created_at = 20;
}

abbrev other : SeriesEvent
other = record registered { id = "s2"; tx_id = "0xu"; created_at = 30 }

abbrev fails : SeriesProcessor (Unit {0})
fails e x = (err call_failed, x)

abbrev succeeds : SeriesProcessor (Unit {0})
succeeds e x = (ok tt, x)

abbrev both : SeriesSession (Unit {0})
both = record { rows = registered ∷ other ∷ []; open_tx = none; held = []; outside = tt }

abbrev again : Round (Unit {0})
again = record {
  types = "register_series" ∷ [];
  next_stage = "";
  locked = [];
  processor = succeeds;
}

abbrev after_failure : List (Result (Option SeriesEvent)) × World (SeriesSession (Unit {0}))
after_failure =
    run_rounds (again ∷ again ∷ [])
      (series_event_round ("register_series" ∷ []) "" [] fails (calm both)).1

series_failure-stuck_example :
    ((series_event_round ("register_series" ∷ []) "" [] fails (calm both)).0 ≡ ok (some registered))
    × (exists (is_of "s1") after_failure.0 ≡ false)
    × (find_first (has_id "s1") after_failure.1.store.rows
        ≡ find_first (has_id "s1") (registered ∷ other ∷ []))
unfolding oldest_series
series_failure-stuck_example =
    series_failure-stuck ("register_series" ∷ []) "" [] fails both registered call_failed
      (again ∷ again ∷ []) refl refl

-- The first of the later rounds handles the other event, the second none.
test_after_failure : after_failure.0 ≡ ok (some other) ∷ ok none ∷ []
unfolding run_rounds series_event_round get_series_registry_event_transaction handle_series_event
    process_series update_series_registry_event commit_series abandon rollback_series perform pure
    fail oldest_series update_all
test_after_failure = refl

abbrev s1_held : SeriesSession (Unit {0})
s1_held = record { rows = registered ∷ other ∷ []; open_tx = none; held = "s1" ∷ []; outside = tt }

other_handled :
    (series_event_round ("register_series" ∷ []) "" [] succeeds (calm s1_held)).0 ≡ ok (some other)
unfolding series_event_round get_series_registry_event_transaction handle_series_event
    process_series update_series_registry_event commit_series perform pure oldest_series
other_handled = refl
