-- ===== src/Swap.antt =====
-- store.go: `SwapToken` of `MongodbIndexerStore`, which burns a token and puts another in its
-- place, for its accounts too. `now` is what `time.Now()` returns.
pub mod Effect
pub mod Atomic
mod Examples
use ff_indexer.Prelude.{
  ℕ, String, List, [], ◌∷◌, exists, update_all, Bool, true, false, not, ◌&&◌, ◌||◌, Option, none,
  some, ◌==◌, if◌then◌else◌,
}
use ff_indexer.Exec.{
  perform, Result, ok, err, unique_violation, unsupported_blockchain, burned_into_different_id,
  Exec, pure, fail, caught, ◌>>=◌, ◌>>◌,
}
use ff_indexer.Mongo.{find_one, update_one, upsert_one, delete_many}
use ff_indexer.Mongo.Transaction.{transaction, in_aborted}
use ff_indexer.Catalog.{
  has_duplicates, Token, SwapUpdate, AccountToken, Store, token_collection,
  account_token_collection, has_index_id,
}
use ff_indexer.IndexId.{Chains, token_index_id}

-- `newToken`
unfoldable pub swapped_token : String → String → SwapUpdate → Token → Token
swapped_token original new u t = record t {
  base = record t.base {
    id = u.new_token_id;
    blockchain = u.new_blockchain;
    contract_address = u.new_contract_address;
    contract_type = u.new_contract_type;
  };
  index_id = new;
  swapped = true;
  burned = false;
  swapped_to = none;
  swapped_from = some original;
  origin_token_info = t.base ∷ t.origin_token_info;
}

unfoldable pub burn_into : String → Token → Token
burn_into new t = record t { burned = true; swapped_to = some new }

-- `$set` of a token; `swappedTo` has `omitempty`, so that none leaves it as it is.
unfoldable pub overwrite : Token → Token → Token
overwrite n t = record n { swapped_to = t.swapped_to }

abbrev pub of_index_id : String → AccountToken → Bool
of_index_id index_id a = a.index_id == index_id

unfoldable pub move_account : ℕ → String → AccountToken → AccountToken
move_account now new a = record a {
  index_id = new;
  last_refreshed_time = now;
  last_activity_time = now;
}

abbrev pub moved_accounts : ℕ → String → String → List AccountToken → List AccountToken
moved_accounts now original new = update_all (of_index_id original) (move_account now new)

abbrev try_move : ℕ → String → String → Store → Result (Unit {0}) × Store
try_move now original new s =
    let moved = moved_accounts now original new s.account_tokens in
    if has_duplicates moved
    then (err unique_violation, s)
    else (ok tt, record s { account_tokens = moved })

-- The `UpdateMany` of the account tokens
unfoldable pub move_accounts : ℕ → String → String → Exec Store (Unit {0})
move_accounts now original new = perform (try_move now original new)

-- The code goes on after a duplicate key, with the deletion; but that error of the server has
-- aborted the transaction.
abbrev pub delete_rest : String → Result (Unit {0}) → Exec Store (Unit {0})
delete_rest original (ok tt) = delete_many account_token_collection (of_index_id original)
delete_rest original (err unique_violation) =
    in_aborted (delete_many account_token_collection (of_index_id original))
delete_rest original (err e) = fail e

-- The calls of the transaction. An upsert always matches or inserts.
unfoldable pub swap_body : ℕ → String → String → Token → Exec Store (Unit {0})
swap_body now original new n = do
  update_one token_collection (has_index_id original) (burn_into new)
  upsert_one token_collection (has_index_id new) (overwrite n) n
  caught (move_accounts now original new) (delete_rest original)

-- `*originalToken.SwappedTo != newTokenIndexID`
abbrev pub is_other : Option String → String → Bool
is_other none new = false
is_other (some id) new = not (id == new)

unfoldable pub swap_found : ℕ → String → String → SwapUpdate → Token → Exec Store String
swap_found now original new u t =
    if t.burned && is_other t.swapped_to new
    then fail burned_into_different_id
    else transaction (swap_body now original new (swapped_token original new u t)) >> pure new

module _ (c : Chains) where
  abbrev pub original_id : SwapUpdate → String
  original_id u =
      token_index_id c u.original_blockchain u.original_contract_address u.original_token_id

  abbrev pub new_id : SwapUpdate → String
  new_id u = token_index_id c u.new_blockchain u.new_contract_address u.new_token_id

  abbrev pub is_supported : String → Bool
  is_supported blockchain = blockchain == c.ethereum || blockchain == c.tezos

  -- `SwapToken`
  unfoldable pub swap_token : ℕ → SwapUpdate → Exec Store String
  swap_token now u =
      if is_supported u.new_blockchain
      then find_one token_collection (has_index_id (original_id u))
        >>= swap_found now (original_id u) (new_id u) u
      else fail unsupported_blockchain
