-- ===== src/Ownership.antt =====
-- store.go: the methods of `MongodbIndexerStore` that change or read who owns a token. `now` is
-- what `time.Now()` returns; a decoded document is the document.
pub mod Single
pub mod Race
pub mod Owners
pub mod Query
mod Examples
use ff_indexer.Prelude.{
  ℕ, String, List, [], ◌∷◌, ◌++◌, Bool, true, false, not, ◌&&◌, ◌||◌, Option, none, some, map, ◌==◌,
  eqb, ltb, if◌then◌else◌, one_of,
}
use ff_indexer.Exec.{
  Result, ok, err, World, Exec, pure, fail, no_record_updated, invalid_former_owner, ◌>>=◌, ◌>>◌,
}
use ff_indexer.Mongo.{find, update_one, select}
use ff_indexer.Catalog.{Token, Provenance, OwnerBalance, Store, token_collection, has_index_id}
use ff_indexer.IndexId.{is_burn_address}

-- `map[string]int64{owner: 1}` and `[]string{owner}`
abbrev pub owned_by : String → ℕ → ℕ → Token → Token
owned_by owner activity now t = record t {
  owner = owner;
  owners = (owner, 1) ∷ [];
  owners_array = owner ∷ [];
  last_activity_time = activity;
  last_refreshed_time = now;
}

abbrev pub is_older_single : String → ℕ → Token → Bool
is_older_single index_id updated_at t =
    has_index_id index_id t && not t.fungible && ltb t.last_activity_time updated_at

-- `UpdateOwner`
unfoldable pub update_owner : String → ℕ → String → String → ℕ → Exec Store (Unit {0})
update_owner environment now index_id owner updated_at = if owner == "" then pure tt else do
  update_one token_collection (is_older_single index_id updated_at)
      (λ t. record (owned_by owner updated_at now t) { burned = is_burn_address owner environment })
  pure tt

-- A provenance is stored without its former owner.
abbrev pub stored : Provenance → Provenance
stored p = record p { former_owner = none }

abbrev pub last_of : Provenance → List Provenance → Provenance
last_of p [] = p
last_of p (q ∷ qs) = last_of q qs

abbrev pub is_mint_or_issue : Provenance → Bool
is_mint_or_issue p = p.type == "mint" || p.type == "issue"

unfoldable pub set_provenance : ℕ → Provenance → List Provenance → Token → Token
set_provenance now p ps t =
    let l = last_of p ps in
    record (owned_by p.owner p.timestamp now t) {
      provenances = map stored (p ∷ ps);
      minted_at = (if is_mint_or_issue l then l.timestamp else t.minted_at);
    }

-- `UpdateTokenProvenance`
unfoldable pub update_token_provenance : ℕ → String → List Provenance → Exec Store (Unit {0})
update_token_provenance now index_id [] = pure tt
update_token_provenance now index_id (p ∷ ps) = do
  update_one token_collection (has_index_id index_id) (set_provenance now p ps)
  pure tt

-- `owners[address] = balance`
unfoldable pub put_owner : String → ℕ → List (String × ℕ) → List (String × ℕ)
put_owner a n [] = (a, n) ∷ []
put_owner a n ((b, m) ∷ rest) = if b == a then (a, n) ∷ rest else (b, m) ∷ put_owner a n rest

-- The loop that fills `owners`.
unfoldable pub owners_of : List (String × ℕ) → List OwnerBalance → List (String × ℕ)
owners_of owners [] = owners
owners_of owners (b ∷ bs) = owners_of (put_owner b.address b.balance owners) bs

unfoldable pub set_owners : ℕ → ℕ → List OwnerBalance → Token → Token
set_owners now activity bs t = record t {
  owners = owners_of [] bs;
  owners_array = map (λ b. b.address) bs;
  provenances = [];
  last_refreshed_time = now;
  last_activity_time = (if eqb activity 0 then t.last_activity_time else activity);
}

-- `UpdateTokenOwners`
unfoldable pub update_token_owners : ℕ → String → ℕ → List OwnerBalance → Exec Store (Unit {0})
update_token_owners now index_id activity [] = pure tt
update_token_owners now index_id activity (b ∷ bs) = do
  update_one token_collection (has_index_id index_id) (set_owners now activity (b ∷ bs))
  pure tt

-- The lock of `PushProvenance`: nobody refreshed the token since, and the event is newer.
abbrev pub is_locked_at : String → ℕ → ℕ → Token → Bool
is_locked_at index_id locked_time timestamp t =
    has_index_id index_id t
    && eqb t.last_refreshed_time locked_time
    && ltb t.last_activity_time timestamp

unfoldable pub prepend_provenance : ℕ → Provenance → Token → Token
prepend_provenance now p t = record (owned_by p.owner p.timestamp now t) {
  provenances = stored p ∷ t.provenances;
}

-- `ModifiedCount` is `MatchedCount` here: pushing an element modifies the document.
abbrev pub require_update : ℕ → Exec Store (Unit {0})
require_update n = if eqb n 0 then fail no_record_updated else pure tt

abbrev pub push_for : Option String → ℕ → String → ℕ → Provenance → Exec Store (Unit {0})
push_for none now index_id locked_time p = fail invalid_former_owner
push_for (some former) now index_id locked_time p = do
  n ←
      update_one token_collection (is_locked_at index_id locked_time p.timestamp)
        (prepend_provenance now p)
  require_update n

-- `PushProvenance`
unfoldable pub push_provenance : ℕ → String → ℕ → Provenance → Exec Store (Unit {0})
push_provenance now index_id locked_time p = push_for p.former_owner now index_id locked_time p

-- `GetTokensByIndexIDs`
unfoldable pub get_tokens_by_index_ids : List String → Exec Store (List Token)
get_tokens_by_index_ids ids = find token_collection (λ t. one_of ids t.index_id)

abbrev pub first_token : List Token → Option Token
first_token [] = none
first_token (t ∷ ts) = some t

-- `GetTokenByIndexID`
unfoldable pub get_token_by_index_id : String → Exec Store (Option Token)
get_token_by_index_id id = do ts ← get_tokens_by_index_ids (id ∷ []); pure (first_token ts)

-- The latest owner by provenance; a token with no provenance has none.
abbrev pub latest_owner_is : String → List Provenance → Bool
latest_owner_is owner [] = false
latest_owner_is owner (p ∷ ps) = p.owner == owner

-- `FilterTokenIDsWithInconsistentProvenanceForOwner`
unfoldable pub filter_token_ids_with_inconsistent_provenance_for_owner :
    List String → String → Exec Store (List String)
filter_token_ids_with_inconsistent_provenance_for_owner ids owner = do
  ts ←
      find token_collection
        (λ t. one_of ids t.index_id && not t.fungible && not (latest_owner_is owner t.provenances))
  pure (map (λ t. t.index_id) ts)

-- `FilterBurnedIndexIDs`
unfoldable pub filter_burned_index_ids : List String → Exec Store (List String)
filter_burned_index_ids ids = do
  burned ← find token_collection (λ t. one_of ids t.index_id && t.burned)
  pure (select (λ id. not (one_of (map (λ t. t.index_id) burned) id)) ids)
