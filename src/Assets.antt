-- ===== src/Assets.antt =====
-- store.go: `IndexAsset` of `MongodbIndexerStore`, which writes an asset and its tokens. `now` is
-- what `time.Now()` returns; `c` and `to_lower` stand for the names of blockchains, the form of
-- addresses and `strings.ToLower`.
pub mod Frame
pub mod Kept
pub mod Update
mod Examples
use Prim.Native.String.{◌++◌}
use ff_indexer.Prelude.{
  ℕ, String, List, [], ◌∷◌, Bool, true, false, not, ◌&&◌, ◌||◌, none, ◌==◌, eqb, if◌then◌else◌,
}
use ff_indexer.Exec.{Result, ok, err, no_documents, Exec, pure, fail, caught, ◌>>=◌, ◌>>◌}
use ff_indexer.Mongo.{find_one, insert_one, update_one}
use ff_indexer.Catalog.{
  Token, Asset, AssetUpdates, ProjectMetadata, CollectionAsset, Store, asset_collection,
  token_collection, collection_asset_collection, has_index_id,
}
use ff_indexer.IndexId.{Chains, token_index_id}

abbrev pub source_feral_file : String
source_feral_file = "feralfile"

-- `checkIfTokenNeedToUpdate`
unfoldable pub check_if_token_need_to_update : String → Token → Bool
check_if_token_need_to_update asset_source t =
    if asset_source == source_feral_file
    then true
    else if t.swapped || t.burned
    then false
    else not (t.source == source_feral_file)

-- `requireUpdates`
abbrev pub require_updates : String → Asset → Bool
require_updates source a = source == source_feral_file || not (a.source == source_feral_file)

-- The `$set` and the `$unset` of an asset; `reset` tells whether the thumbnail has changed.
unfoldable pub set_asset : ℕ → ProjectMetadata → Bool → Asset → Asset
set_asset now metadata reset a = record a {
  project_metadata = record a.project_metadata { latest = metadata };
  last_refreshed_time = now;
  thumbnail_id = (if reset then none else a.thumbnail_id);
}

abbrev pub has_asset_id : String → Asset → Bool
has_asset_id index_id a = a.index_id == index_id

-- The default of `LastUpdatedAt`
abbrev pub dated : ℕ → ProjectMetadata → ProjectMetadata
dated now m = if eqb m.last_updated_at 0 then record m { last_updated_at = now } else m

abbrev pub new_asset : ℕ → String → String → AssetUpdates → Asset
new_asset now id index_id u = record {
  id = id;
  index_id = index_id;
  source = u.source;
  blockchain_metadata = u.blockchain_metadata;
  project_metadata = record { origin = u.project_metadata; latest = u.project_metadata };
  last_refreshed_time = now;
  thumbnail_id = none;
}

abbrev pub update_asset : ℕ → String → AssetUpdates → Asset → Exec Store (Unit {0})
update_asset now index_id u current =
    if require_updates u.source current
    then update_one asset_collection (has_asset_id index_id) (
        set_asset now u.project_metadata
          (not (current.project_metadata.latest.thumbnail_url == u.project_metadata.thumbnail_url)))
      >> pure tt
    else pure tt

abbrev pub insert_or_update_asset :
    ℕ → String → String → AssetUpdates → Result Asset → Exec Store (Unit {0})
insert_or_update_asset now id index_id u (ok current) = update_asset now index_id u current
insert_or_update_asset now id index_id u (err no_documents) =
    insert_one asset_collection (new_asset now id index_id u)
insert_or_update_asset now id index_id u (err e) = fail e

-- An update of `TokenUpdateSet`: `omitempty` leaves a field as it is.
abbrev pub unless_empty : String → String → String
unless_empty new old = if new == "" then old else new

abbrev pub unless_zero : ℕ → ℕ → ℕ
unless_zero new old = if eqb new 0 then old else new

-- The `$set` of a token; `minted` is `MintedAt` of the token that was read.
unfoldable pub set_token : ℕ → String → Token → ℕ → Token → Token
set_token now id u minted t = record t {
  base = record t.base {
    fungible = u.fungible || t.fungible;
    contract_address = unless_empty u.contract_address t.contract_address;
  };
  source = unless_empty u.source t.source;
  asset_id = unless_empty id t.asset_id;
  edition = unless_zero u.edition t.edition;
  edition_name = unless_empty u.edition_name t.edition_name;
  minted_at = (if eqb minted 0 then unless_zero u.minted_at t.minted_at else t.minted_at);
  last_refreshed_time = now;
  last_activity_time = unless_zero u.last_activity_time t.last_activity_time;
}

-- The token that is inserted when none is found.
abbrev pub with_activity : Token → Token
with_activity u =
    if eqb u.last_activity_time 0 then record u { last_activity_time = u.minted_at } else u

abbrev pub with_owners : Token → Token
with_owners u =
    if u.owner == ""
    then u
    else record u { owners_array = u.owner ∷ []; owners = (u.owner, 1) ∷ [] }

abbrev pub new_token : Token → Token
new_token u = with_owners (with_activity u)

abbrev pub of_token : String → CollectionAsset → Bool
of_token index_id a = a.token_index_id == index_id

-- `lastActivityTime` and `edition` of the collection's row
abbrev pub set_collection_asset : ℕ → ℕ → CollectionAsset → CollectionAsset
set_collection_asset activity edition a = record a {
  last_activity_time = activity;
  edition = edition;
}

abbrev pub update_collection_asset : String → ℕ → ℕ → Exec Store (Unit {0})
update_collection_asset index_id activity edition = do
  update_one collection_asset_collection (of_token index_id) (set_collection_asset activity edition)
  pure tt

abbrev pub update_token : ℕ → String → String → Token → Token → Exec Store (Unit {0})
update_token now id source u current =
    if check_if_token_need_to_update source current
    then update_one token_collection (has_index_id u.index_id)
        (set_token now id u current.minted_at)
      >> update_collection_asset u.index_id
          (unless_zero u.last_activity_time current.last_activity_time) u.edition
    else update_collection_asset u.index_id current.last_activity_time current.edition

abbrev pub insert_or_update_token :
    ℕ → String → String → Token → Result Token → Exec Store (Unit {0})
insert_or_update_token now id source u (ok current) = update_token now id source u current
insert_or_update_token now id source u (err no_documents) = do
  insert_one token_collection (new_token u)
  update_collection_asset u.index_id (with_activity u).last_activity_time u.edition
insert_or_update_token now id source u (err e) = fail e

unfoldable pub index_token : ℕ → String → String → Token → Exec Store (Unit {0})
index_token now id source u =
    caught (find_one token_collection (has_index_id u.index_id))
      (insert_or_update_token now id source u)

module _ (c : Chains) (to_lower : String → String) where
  -- A token as the loop starts with it.
  abbrev pub prepared : String → String → Token → Token
  prepared id source u = record u {
    asset_id = id;
    index_id =
        (if u.index_id == ""
          then token_index_id c u.blockchain u.contract_address u.id
          else u.index_id);
    source = (if source == source_feral_file then source_feral_file else u.source);
  }

  unfoldable pub index_tokens : ℕ → String → String → List Token → Exec Store (Unit {0})
  index_tokens now id source [] = pure tt
  index_tokens now id source (u ∷ us) = do
    index_token now id source (prepared id source u)
    index_tokens now id source us

  abbrev pub asset_index_id : String → String → String
  asset_index_id id source = to_lower source ++ ("-" ++ id)

  -- `IndexAsset`
  unfoldable pub index_asset : ℕ → String → AssetUpdates → Exec Store (Unit {0})
  index_asset now id updates =
      let u = record updates { project_metadata = dated now updates.project_metadata } in
      caught (find_one asset_collection (has_asset_id (asset_index_id id u.source)))
        (insert_or_update_asset now id (asset_index_id id u.source) u)
      >> index_tokens now id u.source u.tokens
