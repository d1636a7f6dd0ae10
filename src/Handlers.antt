-- ===== src/Handlers.antt =====
-- services/event-processor/token_event_processor.go and token_update.go: the handlers of NFT
-- events. They call the indexer's store through a gateway, and start workflows, which are kept as
-- a list; an error of a start is logged only.
pub mod Owner
mod Examples
use Prim.Native.String.{◌++◌}
use ff_indexer.Prelude.{
  ℕ, String, List, [], ◌∷◌, Bool, true, false, not, ◌&&◌, Option, none, some, ◌==◌, if◌then◌else◌,
}
use ff_indexer.Exec.{Result, ok, err, World, Exec, perform, pure, caught, ◌>>=◌, ◌>>◌}
use ff_indexer.Catalog.{Token, Provenance, AccountToken, Store}
use ff_indexer.IndexId.{Chains, token_index_id}
use ff_indexer.Ownership.{get_token_by_index_id, push_provenance, update_owner}
use ff_indexer.Accounts.{index_account_tokens}
use ff_indexer.Events.{NftEvent, transfer}

pub data Workflow : Type 0 where
  refresh_token_ownership refresh_token_provenance : String → Workflow
  index_token : String → String → String → Workflow
  index_token_sale : String → String → Workflow

pub record Gateway : Type 0 where
  pub indexer : Store
  pub started : List Workflow

-- A call of the indexer's store
abbrev pub through :
    {A : Type 0} → World Gateway → Result A × World Store → Result A × World Gateway
through w (r, v) = (r, record { store = record (w.store) { indexer = v.store }; faults = v.faults })

unfoldable pub on_store : {A : Type 0} → Exec Store A → Exec Gateway A
on_store m w = through w (m (record { store = w.store.indexer; faults = w.faults }))

unfoldable pub start : Workflow → Exec Gateway (Unit {0})
start f =
    caught (perform λ g. (ok tt, record g { started = f ∷ g.started }))
      λ (r : Result (Unit {0})). pure tt

-- `TxURL` of utils.go
unfoldable pub tx_url : Chains → String → String → String → String
tx_url c blockchain environment tx_id =
    if blockchain == c.bitmark
    then (if environment == "development"
        then "https://registry.test.bitmark.com/transaction/" ++ tx_id
        else "https://registry.bitmark.com/transaction/" ++ tx_id)
    else if blockchain == c.ethereum
    then (if environment == "development"
        then "https://goerli.etherscan.io/tx/" ++ tx_id
        else "https://etherscan.io/tx/" ++ tx_id)
    else ""

abbrev pub objkt_marketplace : String
objkt_marketplace = "KT1FvqJwEDWb1Gwc55Jd1jjTHRVWbYKUUpyq"

abbrev pub objkt_marketplace_v2 : String
objkt_marketplace_v2 = "KT1WvzYHCNBvDSdwafTHv7nJ1dWmZ8GCYuuC"

abbrev pub event_index_id : Chains → NftEvent → String
event_index_id c e = token_index_id c e.blockchain e.contract e.token_id

module _ (c : Chains) (environment : String) (now : ℕ) where
  -- The provenance of a transfer
  abbrev pub transferred : NftEvent → Provenance
  transferred e = record {
    former_owner = some e.from;
    type = e.type;
    owner = e.to;
    blockchain = e.blockchain;
    block_number = none;
    timestamp = e.tx_time;
    tx_id = e.tx_id;
    tx_url = tx_url c e.blockchain environment e.tx_id;
  }

  -- The account token of the receiver
  abbrev pub received_token : NftEvent → Token → AccountToken
  received_token e t = record {
    base = t.base;
    index_id = event_index_id c e;
    owner_account = e.to;
    balance = 1;
    last_activity_time = e.created_at;
    last_refreshed_time = now;
  }

  -- After a push that failed, only the owner is updated.
  abbrev pub or_update_owner : NftEvent → Result (Unit {0}) → Exec Gateway (Unit {0})
  or_update_owner e (ok u) = pure tt
  or_update_owner e (err x) =
      on_store (update_owner environment now (event_index_id c e) e.to e.created_at)

  abbrev pub transfer_found : NftEvent → Option Token → Exec Gateway (Unit {0})
  transfer_found e none = pure tt
  transfer_found e (some t) =
      if t.fungible
      then pure tt
      else (caught
            (on_store
              (push_provenance now (event_index_id c e) t.last_refreshed_time (transferred e)))
            (or_update_owner e)
          >> on_store (index_account_tokens e.to (received_token e t ∷ [])))

  -- `updateLatestOwner`; a missing token is no error.
  unfoldable pub update_latest_owner : NftEvent → Exec Gateway (Unit {0})
  update_latest_owner e =
      if e.type == transfer
      then on_store (get_token_by_index_id (event_index_id c e)) >>= transfer_found e
      else pure tt

  abbrev pub refresh_found : NftEvent → Option Token → Exec Gateway (Unit {0})
  refresh_found e none = pure tt
  refresh_found e (some t) =
      if t.fungible
      then start (refresh_token_ownership (event_index_id c e))
      else caught (on_store (update_owner environment now (event_index_id c e) e.to e.created_at))
          λ (r : Result (Unit {0})). start (refresh_token_provenance (event_index_id c e))

  -- `updateOwnerAndProvenance`
  unfoldable pub update_owner_and_provenance : NftEvent → Exec Gateway (Unit {0})
  update_owner_and_provenance e =
      on_store (get_token_by_index_id (event_index_id c e)) >>= refresh_found e

  -- `indexTokenSale`
  unfoldable pub start_token_sale : NftEvent → Exec Gateway (Unit {0})
  start_token_sale e =
      if not (e.type == transfer)
      then pure tt
      else if e.blockchain == c.tezos
          && not (e.contract == objkt_marketplace)
          && not (e.contract == objkt_marketplace_v2)
      then pure tt
      else start (index_token_sale e.blockchain e.tx_id)

  abbrev pub reindex_found : NftEvent → Option Token → Exec Gateway (Unit {0})
  reindex_found e none = pure tt
  reindex_found e (some t) = start (index_token e.to e.contract e.token_id)

  -- `refreshTokenData`
  unfoldable pub refresh_token_data : NftEvent → Exec Gateway (Unit {0})
  refresh_token_data e = on_store (get_token_by_index_id (event_index_id c e)) >>= reindex_found e
