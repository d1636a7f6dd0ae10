-- ===== src/Events/Store.antt =====
-- services/event-processor/store.go: `PostgresEventStore` and `NftEventTx` for NFT events. An SQL
-- statement of the source is read as the function on rows that it states; ids, the clock and the
-- calls that fail are the database's choice and are given.
use ff_indexer.Prelude.{
  ℕ, ◌-◌, String, [], ◌∷◌, ◌++◌, Bool, ◌&&◌, ◌==◌, eqb, ltb, if◌then◌else◌, exists, remove_all,
}
use ff_indexer.Exec.{Result, ok, err, Exec, perform, pure, fail, unique_violation, caught}
use ff_indexer.Events.{NftEvent, ArchivedNftEvent, Db, nft_event_stages, init, created}

-- The columns that the sub-query of `CreateNftEvent` compares.
unfoldable pub is_archived_as : NftEvent → ArchivedNftEvent → Bool
is_archived_as e a =
    a.type == e.type
    && a.blockchain == e.blockchain
    && a.contract == e.contract
    && a.token_id == e.token_id
    && a.from == e.from
    && a.to == e.to
    && a.tx_id == e.tx_id
    && eqb a.event_index e.event_index

-- The unique index `idx_event`.
unfoldable pub same_key : NftEvent → NftEvent → Bool
same_key e r =
    r.type == e.type
    && r.blockchain == e.blockchain
    && r.contract == e.contract
    && r.token_id == e.token_id
    && r.from == e.from
    && r.to == e.to
    && r.tx_id == e.tx_id
    && eqb r.event_index e.event_index
    && eqb r.tx_time e.tx_time

-- `INSERT … SELECT … WHERE NOT EXISTS …`, with the id and the time that the columns default to.
unfoldable pub insert_nft_event : String → ℕ → NftEvent → Db → Result (Unit {0}) × Db
insert_nft_event id now e db =
    if exists (is_archived_as e) db.archive
    then (ok tt, db)
    else if exists (same_key e) db.events
    then (err unique_violation, db)
    else (ok tt, record db { events = db.events ++ record e { id = id; created_at = now } ∷ [] })

-- A violation of the unique index counts as success.
abbrev pub forgive_duplicate : Result (Unit {0}) → Exec Db (Unit {0})
forgive_duplicate (ok u) = pure u
forgive_duplicate (err unique_violation) = pure tt
forgive_duplicate (err e) = fail e

unfoldable pub create_nft_event : String → ℕ → NftEvent → Exec Db (Unit {0})
create_nft_event id now e = caught (perform (insert_nft_event id now e)) forgive_duplicate

-- `DeleteNftEvents`: drops archived events that are older than `duration`.
unfoldable pub delete_nft_events : ℕ → ℕ → Exec Db (Unit {0})
delete_nft_events now duration = perform λ db.
    (ok tt, record db { archive = remove_all (λ a. ltb a.created_at (now - duration)) db.archive })

-- `PushNftEvent` of services/event-processor/grpc.go: a received event starts at stage 1, created.
-- `EventQueue.PushNftEvent` passes it to the store.
abbrev pub as_received : NftEvent → NftEvent
as_received e = record e { stage = nft_event_stages init; status = created }

unfoldable pub push_nft_event : String → ℕ → NftEvent → Exec Db (Unit {0})
push_nft_event id now e = create_nft_event id now (as_received e)
