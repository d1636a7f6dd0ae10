-- ===== src/Emitter.antt =====
-- services/ethereum-event-emitter/service.go: how the logs of Ethereum become events for the event
-- processor, with emitter/emitter.go, and `GetETHBlockTime` of utils_eth.go. The logs that the
-- subscriptions deliver and those that are fetched again take the same way.
pub mod Queue
pub mod Fetch
pub mod Effects
pub mod Recovery
mod Examples
use ff_indexer.Prelude.{
  ℕ, zero, suc, ◌+◌, ◌-◌, String, List, [], ◌∷◌, Bool, true, false, ◌==◌, Option, none, some, ltb,
  length, take, if◌then◌else◌,
}
use ff_indexer.Exec.{
  Result, ok, err, panicked, no_documents, World, Exec, perform, pure, fail, caught, ◌>>=◌, ◌>>◌,
}
use ff_indexer.IndexId.{Chains, ethereum_zero_address}
use ff_indexer.Events.{NftEvent, Db}
use ff_indexer.Events.Store.{push_nft_event}
use ff_indexer.Series.{SeriesEvent, SeriesSession, create_series_registry_event}
use ff_indexer.Detector.Logs.{
  Log, transfer_event_signature, transfer_single_event_signature, first_topic,
}
use ff_indexer.Detector.Transfers.{number_of_bytes}

-- The other fields of `types.Log`.
pub record EthLog : Type 0 where
  pub log : Log
  pub tx_hash : String
  pub index : ℕ
  pub block_number : ℕ
  pub block_hash : String

-- `currentLastStoppedBlock`, the value of `lastBlockKeyName` in the parameter store, and the tables
-- of the event processor.
pub record EmitterState : Type 0 where
  pub current_last_stopped_block : ℕ
  pub last_block : Option String
  pub queue : Db
  pub series : SeriesSession (Unit {0})

-- What the binding of the registry's contract reads of a log: the id of a series, or two addresses.
pub record SeriesBinding : Type 0 where
  pub new_series_registry : Result (Unit {0})
  pub parse_series_id : String → EthLog → Result String
  pub parse_addresses : String → EthLog → Result (String × String)
  pub json_of : List (String × String) → String

-- The node, the cache of block times, and the texts of numbers. A topic is read as a number.
pub record Node : Type 0 where
  pub chains : Chains
  pub cached_time : String → Option ℕ
  pub block_by_hash : String → Result ℕ
  pub save_time : String → ℕ → Result (Unit {0})
  pub number_of_topic : String → ℕ
  pub decimal_text : ℕ → String
  pub parse_uint : String → Option ℕ
  pub block_number : Result ℕ
  pub nft_logs : ℕ → Result (List EthLog)
  pub series_logs : ℕ → Result (List EthLog)
  pub registry : SeriesBinding

abbrev pub saved_time : ℕ → Result (Unit {0}) → Result ℕ
saved_time time (ok u) = ok time
saved_time time (err e) = err e

abbrev pub fetched_time : (ℕ → Result (Unit {0})) → Result ℕ → Result ℕ
fetched_time save (err e) = err e
fetched_time save (ok time) = saved_time time (save time)

abbrev pub or_fetched : Option ℕ → Result ℕ → Result ℕ
or_fetched (some time) fetched = ok time
or_fetched none fetched = fetched

-- `GetETHBlockTime`
abbrev pub get_eth_block_time : Node → String → Result ℕ
get_eth_block_time o hash =
    or_fetched (o.cached_time hash) (fetched_time (o.save_time hash) (o.block_by_hash hash))

-- What a log tells: nothing for which the emitter goes on, no transfer, or an event.
pub data Heard : Type 0 where
  unheard no_transfer : Heard
  heard : NftEvent → Heard

abbrev pub event_type : String → String → String
event_type from to =
    if from == ethereum_zero_address
    then "mint"
    else if to == ethereum_zero_address
    then "burned"
    else "transfer"

module _ (o : Node) where
  -- The input of `PushNftEvent`; id, stage, status and the time of the row are the database's.
  abbrev pub nft_event : EthLog → String → String → ℕ → ℕ → NftEvent
  nft_event l from to token_id time = record {
    id = "";
    type = event_type from to;
    blockchain = o.chains.ethereum;
    contract = o.chains.checksum l.log.address;
    token_id = o.decimal_text token_id;
    from = from;
    to = to;
    tx_id = l.tx_hash;
    event_index = l.index;
    tx_time = time;
    stage = "";
    status = "";
    created_at = 0;
  }

  abbrev pub heard_at : EthLog → String → String → ℕ → Result ℕ → Heard
  heard_at l topic_from topic_to token_id (err e) = unheard
  heard_at l topic_from topic_to token_id (ok time) =
      heard (nft_event l (o.chains.checksum topic_from) (o.chains.checksum topic_to) token_id time)

  -- `eLog.Data[0:32]` panics where the data is shorter.
  abbrev pub heard_of_topics : EthLog → List String → Result Heard
  heard_of_topics l (topic0 ∷ topic1 ∷ topic2 ∷ topic3 ∷ []) =
      if topic0 == transfer_event_signature
      then ok
          (heard_at l topic1 topic2 (o.number_of_topic topic3) (get_eth_block_time o l.block_hash))
      else if topic0 == transfer_single_event_signature
      then (if ltb (length l.log.data_bytes) 32
          then err panicked
          else ok (
              heard_at l topic2 topic3 (number_of_bytes 0 (take 32 l.log.data_bytes))
                (get_eth_block_time o l.block_hash)))
      else ok unheard
  heard_of_topics l topics = ok no_transfer

  unfoldable pub heard_of : EthLog → Result Heard
  heard_of l = heard_of_topics l l.log.topics

-- A call of the event processor
abbrev pub queue_through :
    {A : Type 0} → World EmitterState → Result A × World Db → Result A × World EmitterState
queue_through w (r, v) =
    (r, record { store = record (w.store) { queue = v.store }; faults = v.faults })

unfoldable pub on_queue : {A : Type 0} → Exec Db A → Exec EmitterState A
on_queue m w = queue_through w (m (record { store = w.store.queue; faults = w.faults }))

abbrev pub series_through :
    {A : Type 0}
    → World EmitterState
    → Result A × World (SeriesSession (Unit {0}))
    → Result A × World EmitterState
series_through w (r, v) =
    (r, record { store = record (w.store) { series = v.store }; faults = v.faults })

unfoldable pub on_series : {A : Type 0} → Exec (SeriesSession (Unit {0})) A → Exec EmitterState A
on_series m w = series_through w (m (record { store = w.store.series; faults = w.faults }))

abbrev pub given : {A : Type 0} → Result A → Exec EmitterState A
given (ok a) = pure a
given (err e) = fail e

abbrev pub set_current : ℕ → EmitterState → EmitterState
set_current n s = record s { current_last_stopped_block = n }

module _ (o : Node) where
  abbrev pub put_last_block : ℕ → Exec EmitterState (Unit {0})
  put_last_block n =
      caught (perform λ s. (ok tt, record s { last_block = some (o.decimal_text n) }))
        λ (r : Result (Unit {0})). pure tt

  -- `eLog.BlockNumber > currentLastStoppedBlock`
  unfoldable pub advance : EthLog → Exec EmitterState (Unit {0})
  advance l w =
      if ltb w.store.current_last_stopped_block l.block_number
      then put_last_block l.block_number (record w { store = set_current l.block_number w.store })
      else (ok tt, w)

  abbrev pub advance_if : EthLog → Result (Unit {0}) → Exec EmitterState (Unit {0})
  advance_if l (err e) = pure tt
  advance_if l (ok u) = advance l

  -- The database's choice of the id and the time of the row of a log.
  module _ (new_id : EthLog → String) (now : EthLog → ℕ) where
    abbrev pub submit : EthLog → Heard → Exec EmitterState (Unit {0})
    submit l unheard = pure tt
    submit l no_transfer = advance l
    submit l (heard e) = caught (on_queue (push_nft_event (new_id l) (now l) e)) (advance_if l)

    -- `processNftTransferLog`
    unfoldable pub process_nft_transfer_log : EthLog → Exec EmitterState (Unit {0})
    process_nft_transfer_log l = given (heard_of o l) >>= submit l
