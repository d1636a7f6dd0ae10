-- ===== src/Mapper.antt =====
-- sdk/grpc-gateway/mapper.go: how tokens travel between the gateway and its clients. `Codec` has
-- what the mapper takes from other packages.
pub mod Wire
pub mod Formats
pub mod Metadata
pub mod Sales
mod Samples
mod Examples
pub mod RoundTrip
use ff_indexer.Prelude.{ℕ, String, List, [], Bool, Option, none, some, map}
use ff_indexer.Exec.{Result, ok, err}
use ff_indexer.Catalog.{BaseTokenInfo, Provenance, Token, AccountToken}
use Wire.{GrpcProvenance, GrpcBaseTokenInfo, GrpcToken, GrpcAccountToken}
use Formats.{Codec, ◌>>=◌, convert_each}

-- A token with its `Balance`, which is not part of the document.
pub record HeldToken : Type 0 where
  pub document : Token
  pub balance : ℕ

-- An account's token with its pending transactions.
pub record PendingAccountToken : Type 0 where
  pub account : AccountToken
  pub last_pending_time : List ℕ
  pub pending_txs : List String

-- `DerefString`
abbrev pub deref_string : Option String → String
deref_string none = ""
deref_string (some s) = s

-- `MapGRPCTokenInfoToIndexerTokenInfo`, for an element
abbrev pub map_grpc_base_token_info : GrpcBaseTokenInfo → BaseTokenInfo
map_grpc_base_token_info v = record {
  id = v.id;
  blockchain = v.blockchain;
  fungible = v.fungible;
  contract_type = v.contract_type;
  contract_address = v.contract_address;
}

unfoldable pub map_grpc_token_info : List GrpcBaseTokenInfo → List BaseTokenInfo
map_grpc_token_info token = map map_grpc_base_token_info token

abbrev pub map_indexer_base_token_info : BaseTokenInfo → GrpcBaseTokenInfo
map_indexer_base_token_info v = record {
  id = v.id;
  blockchain = v.blockchain;
  fungible = v.fungible;
  contract_type = v.contract_type;
  contract_address = v.contract_address;
}

-- `MapIndexerTokenInfoToGRPCTokenInfo`
unfoldable pub map_indexer_token_info : List BaseTokenInfo → List GrpcBaseTokenInfo
map_indexer_token_info token = map map_indexer_base_token_info token

module _ (c : Codec) where
  open c use {format_time, parse_time}

  abbrev pub map_grpc_provenance : GrpcProvenance → Result Provenance
  map_grpc_provenance v = do
    timestamp ← parse_time v.timestamp
    ok (record {
      former_owner = some v.former_owner;
      type = v.type;
      owner = v.owner;
      blockchain = v.blockchain;
      block_number = v.block_number;
      timestamp = timestamp;
      tx_id = v.tx_id;
      tx_url = v.tx_url;
    })

  -- `MapGRPCProvenancesToIndexerProvenances`
  unfoldable pub map_grpc_provenances : List GrpcProvenance → Result (List Provenance)
  map_grpc_provenances provenance = convert_each map_grpc_provenance provenance

  abbrev pub map_indexer_provenance : Provenance → GrpcProvenance
  map_indexer_provenance v = record {
    former_owner = deref_string v.former_owner;
    type = v.type;
    owner = v.owner;
    blockchain = v.blockchain;
    block_number = v.block_number;
    timestamp = format_time v.timestamp;
    tx_id = v.tx_id;
    tx_url = v.tx_url;
  }

  -- `MapIndexerProvenancesToGRPCProvenances`
  unfoldable pub map_indexer_provenances : List Provenance → List GrpcProvenance
  map_indexer_provenances provenance = map map_indexer_provenance provenance

  -- `MapGrpcTokenToIndexerToken`
  unfoldable pub map_grpc_token : GrpcToken → Result HeldToken
  map_grpc_token t = do
    minted_at ← parse_time t.minted_at
    last_activity_time ← parse_time t.last_refreshed_time
    last_refreshed_time ← parse_time t.last_refreshed_time
    provenances ← map_grpc_provenances t.provenances
    ok (record {
      document = record {
        base = record {
          id = t.id;
          blockchain = t.blockchain;
          fungible = t.fungible;
          contract_type = t.contract_type;
          contract_address = t.contract_address;
        };
        edition = t.edition;
        edition_name = t.edition_name;
        minted_at = minted_at;
        owner = t.owner;
        owners = t.owners;
        owners_array = t.owners_array;
        asset_id = t.asset_id;
        origin_token_info = map_grpc_token_info t.origin_token_info;
        is_demo = t.is_demo;
        index_id = t.index_id;
        source = t.source;
        swapped = t.swapped;
        swapped_from = some t.swapped_from;
        swapped_to = some t.swapped_to;
        burned = t.burned;
        provenances = provenances;
        last_activity_time = last_activity_time;
        last_refreshed_time = last_refreshed_time;
      };
      balance = t.balance;
    })

  -- `MapIndexerTokenToGrpcToken`
  unfoldable pub map_indexer_token : HeldToken → GrpcToken
  map_indexer_token h =
      let t = h.document in
      record {
        id = t.id;
        blockchain = t.blockchain;
        fungible = t.fungible;
        contract_type = t.contract_type;
        contract_address = t.contract_address;
        edition = t.edition;
        edition_name = t.edition_name;
        minted_at = format_time t.minted_at;
        balance = h.balance;
        owner = t.owner;
        owners = t.owners;
        owners_array = t.owners_array;
        asset_id = t.asset_id;
        origin_token_info = map_indexer_token_info t.origin_token_info;
        is_demo = t.is_demo;
        index_id = t.index_id;
        source = t.source;
        swapped = t.swapped;
        swapped_from = deref_string t.swapped_from;
        swapped_to = deref_string t.swapped_to;
        burned = t.burned;
        provenances = map_indexer_provenances t.provenances;
        last_activity_time = format_time t.last_activity_time;
        last_refreshed_time = format_time t.last_refreshed_time;
      }

  -- `ConvertTimeStringsToTimes`
  unfoldable pub convert_time_strings_to_times : List String → Result (List ℕ)
  convert_time_strings_to_times time_strings = convert_each parse_time time_strings

  -- `ConvertTimesToTimeStrings`
  unfoldable pub convert_times_to_time_strings : List ℕ → List String
  convert_times_to_time_strings times = map format_time times

  abbrev pub map_grpc_account_token : GrpcAccountToken → Result PendingAccountToken
  map_grpc_account_token v = do
    last_activity_time ← parse_time v.last_activity_time
    last_refreshed_time ← parse_time v.last_refreshed_time
    last_pending_time ← convert_time_strings_to_times v.last_pending_time
    ok (record {
      account = record {
        base = record {
          id = v.id;
          blockchain = v.blockchain;
          fungible = v.fungible;
          contract_type = v.contract_type;
          contract_address = v.contract_address;
        };
        index_id = v.index_id;
        owner_account = v.owner_account;
        balance = v.balance;
        last_activity_time = last_activity_time;
        last_refreshed_time = last_refreshed_time;
      };
      last_pending_time = last_pending_time;
      pending_txs = v.pending_txs;
    })

  -- `MapGRPCAccountTokensToIndexerAccountTokens`
  unfoldable pub map_grpc_account_tokens : List GrpcAccountToken → Result (List PendingAccountToken)
  map_grpc_account_tokens account_tokens = convert_each map_grpc_account_token account_tokens

  abbrev pub map_indexer_account_token : PendingAccountToken → GrpcAccountToken
  map_indexer_account_token p =
      let v = p.account in
      record {
        id = v.base.id;
        blockchain = v.base.blockchain;
        fungible = v.base.fungible;
        contract_type = v.base.contract_type;
        contract_address = v.base.contract_address;
        index_id = v.index_id;
        owner_account = v.owner_account;
        balance = v.balance;
        last_activity_time = format_time v.last_activity_time;
        last_refreshed_time = format_time v.last_refreshed_time;
        last_pending_time = convert_times_to_time_strings p.last_pending_time;
        last_updated_at = "";
        pending_txs = p.pending_txs;
      }

  -- `MapIndexerAccountTokensToGRPCAccountTokens`
  unfoldable pub map_indexer_account_tokens : List PendingAccountToken → List GrpcAccountToken
  map_indexer_account_tokens account_tokens = map map_indexer_account_token account_tokens
