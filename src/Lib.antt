-- ===== src/Lib.antt =====
-- ff-indexer keeps an index of the tokens of several blockchains. Event emitters send the events of
-- the chains to the event processor, which queues them in PostgreSQL; its workers take them stage
-- by stage, and their handlers change the index, which is kept in MongoDB behind the indexer's
-- store, and start workflows that read the chains and write the index again.
--
-- The parts and the files that model them:
--
--   Events: services/event-processor. Events/Store is `PostgresEventStore` and how an event is
--     received, Events/Transaction is `NftEventTx`, Events/Worker is one round of the loop of
--     `StartNftEventWorker` with the six workers of `ProcessEvents`. The handler of a worker is a
--     parameter of the round: any function of the event and of what is outside the tables.
--   Emitter: services/ethereum-event-emitter/service.go and emitter/emitter.go, over Events and
--     Series: how a log becomes an event that is pushed, and how the logs since the last stopped block
--     are fetched again (Emitter/Fetch). `Node` has what the chain, the cache and the registry's contract answer.
--   Series: services/event-processor, the events of the series registry, with one round of the loop
--     of `StartSeriesRegistryEventWorker` (Series/Worker).
--   Handlers: services/event-processor, the handlers of token_event_processor.go and
--     token_update.go. They call the functions of Ownership and Accounts; the gRPC gateway
--     between them passes calls on and is left out, and a workflow that is started is recorded.
--   Catalog: structs.go, the documents of the indexer's database.
--   IndexId: utils.go, index ids of tokens and addresses that stand for burning. What the code takes
--     from autonomy-utils and go-ethereum is the record `Chains`, with what is relied on as fields.
--   Ownership, Assets, Swap, Accounts, Collections: store.go, the methods of `MongodbIndexerStore`
--     that change owners and provenance, assets and tokens, swapped tokens, account tokens, and
--     collections. The name of a function is that of the method, in snake case: `push_provenance`
--     is `PushProvenance`.
--   Registry: services/event-processor/series_registry_event_processor.go, the handlers of the events
--     of the series registry, over Collections and Ownership. `Outside` has what the processor takes
--     from other packages, from the chain and from the gateways, and what the workflow of a token
--     does to the index.
--   Paging: store.go, the readers that go page by page; the query of a page of detailed tokens is a
--     parameter. The loop of `GetCollectionsByCreators` has size / 25 + 1 rounds of fuel, as many as
--     it makes.
--   Demo, Identities, Readers: store.go, demo tokens, identities and accounts, and what is read of
--     account tokens.
--   Detector: background/worker/workflows_detector.go, `classifyTxLogs` (Detector/Logs) and
--     `ParseEthereumTokenSale` (Detector/Transfers has its tokens, Detector its payments,
--     Detector/Ethereum the whole); background/worker/activities.go, `ParseTezosObjktTokenSale`
--     (Detector/Objkt). What the activities of a run return of the chains is a parameter, and so is
--     2.5% of a price, computed in floating point.
--   Workflows: background/worker, the workflows that index sales with their activities, over Detector
--     and Sales. Workflows/Blocks has the runs of `IndexEthereumTokenSaleInBlockRange` that continue
--     one another; fuel is their number, and it is enough once that number times the batch size
--     reaches past the last block.
--   Refresh: background/worker/activities.go, `RefreshTokenProvenance` and
--     `RefreshTokenOwnership`, over Ownership and Accounts. What is fetched of the chains is a parameter.
--   Sales: store.go, `WriteTimeSeriesData`, with how it reads the metadata of a sale (Json).
--   Rates: store.go, exchange rates.
--   Mapper: sdk/grpc-gateway/mapper.go, between the documents and the messages of the gRPC gateway
--     (Mapper/Wire). `Codec` (Mapper/Formats) has the texts of times, JSON and decimals, which are
--     other packages', with what is relied on as fields.
--   Json: the values that encoding/json decodes.
--
-- Code that calls a database is a function of a `World` (Exec): the store, and a schedule that says
-- of each coming call whether it fails. A failing call changes nothing. A statement of SQL
-- or a call of MongoDB (Mongo, Mongo/Transaction) is read as the function on lists of rows or
-- documents that its documentation states. A call that succeeds as long as the
-- schedule is empty is one on a `calm` world. Ids that a database makes, the clock and the rows
-- that other transactions have locked are arguments.
--
-- Times are numbers, and 0 is the zero time; account tokens and event workers count seconds. Counts
-- and balances are natural numbers: the code adds none, so that none can overflow. The
-- amounts of sales are integers without bounds, as in the source. But for the two loops named above
-- there is no fuel: loops run over lists or a number of blocks, and the endless loops of the workers
-- are modelled by one round of each, by rounds of all workers at some times (Events/Rounds) and, in
-- Events/History, by any sequence of rounds, received events and prunings.
--
-- A unique index of a collection (scripts/init_mongodb.js) appears as a hypothesis that index ids are
-- unique, and as the refusal of account tokens that would have one key twice.
--
-- Not modelled: the readers that use aggregations (detailed tokens, sales), the engine that reads the
-- chains (indexer*.go, engine.go), the other workflows (background, cadence), the emitter of Tezos and
-- the subscriptions of the other, the gateways and their generated code, the image indexer, and the
-- clients of other services (externals), which are input and output; concurrency within one round,
-- since each call of a database is atomic.
mod Prelude
pub mod Json
pub mod Exec
pub mod Events
pub mod Mongo
pub mod Catalog
pub mod IndexId
pub mod Ownership
pub mod Assets
pub mod Swap
pub mod Workflows
pub mod Emitter
pub mod Refresh
pub mod Accounts
pub mod Handlers
pub mod Series
pub mod Collections
pub mod Mapper
pub mod Paging
pub mod Rates
pub mod Registry
pub mod Sales
pub mod Demo
pub mod Detector
pub mod Identities
pub mod Readers
