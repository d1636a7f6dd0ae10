-- ===== src/Emitter/Examples.antt =====
-- Witnesses for the emitter of Ethereum events.
use mathlib.Core.List.{Memᴰ}
use ff_indexer.Prelude.{ℕ, ◌≤◌, List, [], ◌∷◌, true, none, some, ◌≡◌, refl, exists}
use ff_indexer.Exec.{ok, err, call_failed, calm, perform, pure, fail}
use ff_indexer.IndexId.Samples.{chains}
use ff_indexer.Events.Store.{
  push_nft_event, create_nft_event, insert_nft_event, is_archived_as, same_key,
}
use ff_indexer.Detector.Logs.{transfer_event_signature}
use ff_indexer.Emitter.{
  EthLog, EmitterState, Node, heard_of, advance, on_queue, process_nft_transfer_log,
}
use ff_indexer.Emitter.Fetch.{fetch_logs_from_last_stopped_block}
use ff_indexer.Emitter.Effects.{Knows}
use ff_indexer.Emitter.Recovery.{fetch_logs_from_last_stopped_block_lem}

abbrev minted : EthLog
minted = record {
  log = record {
    address = "0xart";
    topics = transfer_event_signature ∷ "0x0" ∷ "0xbuyer" ∷ "7" ∷ [];
    data_bytes = [];
  };
  tx_hash = "0xtx";
  index = 3;
  block_number = 4;
  block_hash = "0xblock";
}

abbrev later_log : EthLog
later_log = record minted { tx_hash = "0xlater"; block_number = 5 }

abbrev transfers : ℕ → List EthLog
transfers i = minted ∷ []

abbrev node : Node
node = record {
  chains = chains;
  cached_time = λ hash. some 1000;
  block_by_hash = λ hash. err call_failed;
  save_time = λ hash time. ok tt;
  number_of_topic = λ topic. 7;
  decimal_text = λ n. "5";
  parse_uint = λ s. some 4;
  block_number = ok 5;
  nft_logs = λ i. ok (transfers i);
  series_logs = λ i. ok [];
  registry = record {
    new_series_registry = ok tt;
    parse_series_id = λ type l. ok "1";
    parse_addresses = λ type l. ok ("0x1", "0x2");
    json_of = λ fields. "{}";
  };
}

abbrev started : EmitterState
started = record {
  current_last_stopped_block = 0;
  last_block = some "4";
  queue = record { events = []; archive = [] };
  series = record { rows = []; open_tx = none; held = []; outside = tt };
}

fetch_logs_from_last_stopped_block_lem_example :
    (s' : EmitterState) × (fetch_logs_from_last_stopped_block node
        (λ l. "e1")
        (λ l. 2000)
        4
        (calm started)
      ≡ (ok tt, calm s'))
    × ((x : ℕ) (l : EthLog) → 4 ≤ x → x ≤ 5 → Memᴰ l (transfers x) → Knows (heard_of node l) s')
    × ((s'' : EmitterState) × (fetch_logs_from_last_stopped_block node
            (λ l. "e2")
            (λ l. 3000)
            4
            (calm s')
          ≡ (ok tt, calm s''))
        × (s''.queue ≡ s'.queue))
unfolding heard_of
fetch_logs_from_last_stopped_block_lem_example =
    fetch_logs_from_last_stopped_block_lem node transfers (λ i. []) (λ i. refl) (λ i. refl)
      (λ i. ((_, refl), tt)) (λ i. tt) (λ l. "e1") (λ l. "e2") (λ l. 2000) (λ l. 3000) 4 5 started
      refl

-- A transfer whose push fails is passed over: after the next one, a restart begins at its block.
passed_over :
    (process_nft_transfer_log node
      (λ l. "e2")
      (λ l. 2000)
      later_log
      (process_nft_transfer_log node
        (λ l. "e1")
        (λ l. 2000)
        minted
        (record { store = started; faults = true ∷ [] })).1).1.store.last_block
    ≡ some "5"
unfolding process_nft_transfer_log heard_of on_queue push_nft_event create_nft_event
    insert_nft_event perform pure fail advance is_archived_as same_key exists
passed_over = refl
