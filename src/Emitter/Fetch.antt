-- ===== src/Emitter/Fetch.antt =====
-- services/ethereum-event-emitter/service.go: the logs of the series registry, and how logs are
-- fetched again after a stop.
use ff_indexer.Prelude.{
  ℕ, zero, suc, ◌+◌, ◌-◌, String, List, [], ◌∷◌, Bool, true, false, ◌==◌, Option, none, some,
  if◌then◌else◌,
}
use ff_indexer.Exec.{Result, ok, err, no_documents, Exec, perform, pure, caught, ◌>>=◌, ◌>>◌}
use ff_indexer.Series.{SeriesEvent, create_series_registry_event}
use ff_indexer.Detector.Logs.{first_topic}
use ff_indexer.Emitter.{
  EthLog, EmitterState, Node, get_eth_block_time, on_series, given, advance_if,
  process_nft_transfer_log,
}

module _ (o : Node) where
  -- The types of the registry's events by signature, and whether their data is an id.
  abbrev pub series_type_of : String → Option (String × Bool)
  series_type_of topic =
      if topic == "0x55d82c1e0fbf557aad06476685a2e64309e639e7b9763ffc3cffce16cb33f689"
      then some ("register_series", true)
      else if topic == "0x799805152d6bdc2303ac0dbac07df8ecbd5946b3f66426ab316f5f3670876096"
      then some ("update_series", true)
      else if topic == "0xd1cb5d9dfefdfe2dda1152786a83292f2b48e6c71981358d0f8b9eb7dd92d6f4"
      then some ("delete_series", true)
      else if topic == "0x4908f8df298e29e82b08d2367b89cc9e0a041d1fa94df05fb14872975cd56597"
      then some ("update_artist_address", false)
      else if topic == "0xf1be82cf03ce2483decce6c97c3580b7298a5d3ba618b98bc41e7c208007f22f"
      then some ("opt_in_collaboration", true)
      else if topic == "0xea7a51899c6e1e1b64a73aba8ff9ce974a129f879f83343326f6c09d42834620"
      then some ("opt_out_series", true)
      else if topic == "0x848e74caa538f5af05a1af3c186cca1e9d0c6f0c25995648face20eea1e930c7"
      then some ("assign_series", false)
      else none

  abbrev pub id_data : Result String → Result (List (String × String))
  id_data (err e) = err e
  id_data (ok id) = ok (("series_id", id) ∷ [])

  abbrev pub address_data : Result (String × String) → Result (List (String × String))
  address_data (err e) = err e
  address_data (ok (old, new)) = ok (("old_address", old) ∷ ("new_address", new) ∷ [])

  abbrev pub series_data : EthLog → String × Bool → Result (List (String × String))
  series_data l (type, true) = id_data (o.registry.parse_series_id type l)
  series_data l (type, false) = address_data (o.registry.parse_addresses type l)

  abbrev pub series_event : EthLog → String → ℕ → List (String × String) → SeriesEvent
  series_event l type time fields = record {
    id = "";
    type = type;
    contract = o.chains.checksum l.log.address;
    tx_id = l.tx_hash;
    event_index = l.index;
    tx_time = time;
    json_data = o.registry.json_of fields;
    stage = "";
    status = "";
    created_at = 0;
  }

  -- The database's choice of the id and the time of the row of a log.
  module _ (new_id : EthLog → String) (now : EthLog → ℕ) where
    abbrev pub submit_series :
        EthLog → String → ℕ → Result (List (String × String)) → Exec EmitterState (Unit {0})
    submit_series l type time (err e) = pure tt
    submit_series l type time (ok fields) =
        caught
          (on_series
            (create_series_registry_event (new_id l) (now l) (series_event l type time fields)))
          (advance_if o l)

    abbrev pub typed_by : EthLog → ℕ → Option (String × Bool) → Exec EmitterState (Unit {0})
    typed_by l time none = pure tt
    typed_by l time (some kind) = submit_series l kind.0 time (series_data l kind)

    abbrev pub at_block_time : EthLog → Result ℕ → Exec EmitterState (Unit {0})
    at_block_time l (err e) = pure tt
    at_block_time l (ok time) =
        given (first_topic l.log.topics) >>= λ topic. typed_by l time (series_type_of topic)

    abbrev pub with_contract : EthLog → Result (Unit {0}) → Exec EmitterState (Unit {0})
    with_contract l (err e) = pure tt
    with_contract l (ok u) = at_block_time l (get_eth_block_time o l.block_hash)

    -- `processSeriesRegistryLog`
    unfoldable pub process_series_registry_log : EthLog → Exec EmitterState (Unit {0})
    process_series_registry_log l = with_contract l o.registry.new_series_registry

    unfoldable pub process_all :
        (EthLog → Exec EmitterState (Unit {0})) → List EthLog → Exec EmitterState (Unit {0})
    process_all process [] = pure tt
    process_all process (l ∷ ls) = process l >> process_all process ls

    -- An error of the node is logged, and ends the loop.
    abbrev pub if_found :
        {A : Type 0} → Result A → (A → Exec EmitterState (Unit {0})) → Exec EmitterState (Unit {0})
    if_found (err e) f = pure tt
    if_found (ok a) f = f a

    -- "iterate every block to avoid heavy response"
    unfoldable pub fetch_blocks : ℕ → ℕ → Exec EmitterState (Unit {0})
    fetch_blocks zero i = pure tt
    fetch_blocks (suc n) i = if_found (o.nft_logs i) λ logs.
        process_all (process_nft_transfer_log o new_id now) logs
        >> if_found (o.series_logs i)
            λ series. process_all process_series_registry_log series >> fetch_blocks n (suc i)

    -- `fetchLogsFromLastStoppedBlock`
    unfoldable pub fetch_logs_from_last_stopped_block : ℕ → Exec EmitterState (Unit {0})
    fetch_logs_from_last_stopped_block last =
        if_found o.block_number λ latest. fetch_blocks (latest + 1 - last) last

    abbrev pub last_stopped_block : EmitterState → Result String
    last_stopped_block s = elim s.last_block [ none ↦ err no_documents | some text ↦ ok text ]

    abbrev pub from_parsed : Option ℕ → Exec EmitterState (Unit {0})
    from_parsed none = pure tt
    from_parsed (some last) = fetch_logs_from_last_stopped_block last

    -- `processLogsSinceLastStoppedBlock`
    unfoldable pub process_logs_since_last_stopped_block : Exec EmitterState (Unit {0})
    process_logs_since_last_stopped_block =
        caught (perform λ s. (last_stopped_block s, s))
          λ text. if_found text λ text. from_parsed (o.parse_uint text)
