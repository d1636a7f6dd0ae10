-- ===== src/Events.antt =====
-- services/event-processor/constants.go and the tables of services/event-processor/store.go: the
-- stages of an event, the rows of `new_nft_events` and of its archive `nft_events`, and a session
-- with the database in which one transaction is open. `updated_at`, which the database sets and
-- nothing reads, is left out; times are numbers.
pub mod Store
pub mod Transaction
pub mod Worker
pub mod Atomic
pub mod Dedup
pub mod Pipeline
pub mod Selection
pub mod Conservation
mod Examples
pub mod History
pub mod Failure
pub mod Weight
pub mod Rounds
pub mod Drain
use ff_indexer.Prelude.{ℕ, String, List, Bool, true, false, Option}

pub data Stage : Type 0 where
  done init full_sync notification feed token_sale_indexing double_sync : Stage

-- `NftEventStages`; a key that the map lacks reads as the empty string.
abbrev pub nft_event_stages : Stage → String
nft_event_stages done = ""
nft_event_stages init = "stage_1_init"
nft_event_stages full_sync = "stage_2_full_sync"
nft_event_stages notification = "stage_3_send_notification"
nft_event_stages feed = "stage_4_send_to_feed"
nft_event_stages token_sale_indexing = "stage_5_index_token_sale"
nft_event_stages double_sync = "stage_11_double_sync_token"

abbrev pub is_done : Stage → Bool
is_done done = true
is_done _ = false

-- `NftEventType`
abbrev pub mint : String
mint = "mint"

abbrev pub burned : String
burned = "burned"

abbrev pub transfer : String
transfer = "transfer"

abbrev pub token_updated : String
token_updated = "token_updated"

-- `NftEventStatus`
abbrev pub created : String
created = "created"

abbrev pub processing : String
processing = "processing"

abbrev pub processed : String
processed = "processed"

abbrev pub failed : String
failed = "failed"

pub record NftEvent : Type 0 where
  pub id : String
  pub type : String
  pub blockchain : String
  pub contract : String
  pub token_id : String
  pub from : String
  pub to : String
  pub tx_id : String
  pub event_index : ℕ
  pub tx_time : ℕ
  pub stage : String
  pub status : String
  pub created_at : ℕ

pub record ArchivedNftEvent : Type 0 where
  pub id : String
  pub type : String
  pub blockchain : String
  pub contract : String
  pub token_id : String
  pub from : String
  pub to : String
  pub tx_id : String
  pub event_index : ℕ
  pub tx_time : ℕ
  pub stage : String
  pub status : String
  pub created_at : ℕ

pub record Db : Type 0 where
  pub events : List NftEvent
  pub archive : List ArchivedNftEvent

-- A session: the committed rows, the effect that the open transaction will have on them when it
-- is committed (`none` when no transaction is open), and what the event handlers work on.
pub record Session (X : Type 0) : Type 0 where
  pub db : Db
  pub tx : Option (Db → Db)
  pub outside : X
