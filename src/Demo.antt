-- ===== src/Demo.antt =====
-- store.go: the demo tokens of `MongodbIndexerStore`, copies of tokens that are shown for accounts.
pub mod Real
mod Examples
use Prim.Native.String.{◌++◌}
use text.Mathlib.Text.{starts_with}
use ff_indexer.Prelude.{
  ℕ, String, List, [], ◌∷◌, Bool, true, false, not, ◌&&◌, ◌==◌, if◌then◌else◌, one_of,
}
use ff_indexer.Exec.{Result, ok, err, no_documents, Exec, pure, fail, caught, ◌>>=◌, ◌>>◌}
use ff_indexer.Mongo.{find_one, insert_one, update_one, update_many, delete_many}
use ff_indexer.Catalog.{Token, Store, token_collection, has_index_id}
use ff_indexer.Ownership.{put_owner}

-- `DemoTokenPrefix` of utils.go
abbrev pub demo_token_prefix : String → String
demo_token_prefix index_id = "demo" ++ index_id

-- `isDemo` and the pattern `^demo`
abbrev pub is_demo_token : Token → Bool
is_demo_token t = t.is_demo && starts_with t.index_id "demo"

abbrev pub is_only : String → List String → Bool
is_only owner [] = false
is_only owner (o ∷ []) = o == owner
is_only owner (o ∷ p ∷ rest) = false

-- `$pull`
unfoldable pub pull : String → List String → List String
pull owner [] = []
pull owner (o ∷ owners) = let rest = pull owner owners in if o == owner then rest else o ∷ rest

-- `$unset` of an owner's entry
unfoldable pub unset_owner : String → List (String × ℕ) → List (String × ℕ)
unset_owner owner [] = []
unset_owner owner (e ∷ owners) =
    let rest = unset_owner owner owners in if e.0 == owner then rest else e ∷ rest

abbrev pub lists_owner : String → Token → Bool
lists_owner owner t = is_demo_token t && one_of t.owners_array owner

abbrev pub without_owner : String → Token → Token
without_owner owner t = record t {
  owners_array = pull owner t.owners_array;
  owners = unset_owner owner t.owners;
}

-- `DeleteDemoTokens`
unfoldable pub delete_demo_tokens : String → Exec Store (Unit {0})
delete_demo_tokens owner =
    delete_many token_collection (λ t. is_demo_token t && is_only owner t.owners_array)
    >>= λ (u : Unit {0}). update_many token_collection (lists_owner owner) (without_owner owner)

abbrev pub is_demo_of : String → Token → Bool
is_demo_of demo_index_id t = t.is_demo && t.index_id == demo_index_id

-- The copy of a token. (Go's code stops at a token that has no map of owners.)
abbrev pub demo_copy : String → String → Token → Token
demo_copy owner demo_index_id t = record t {
  index_id = demo_index_id;
  is_demo = true;
  owners_array = owner ∷ [];
  owners = put_owner owner 1 t.owners;
}

abbrev pub with_demo_owner : String → Token → Token
with_demo_owner owner t = record t {
  owners_array = append_owner t.owners_array;
  owners = put_owner owner 1 t.owners;
}
  where
    append_owner : List String → List String
    append_owner [] = owner ∷ []
    append_owner (o ∷ owners) = o ∷ append_owner owners

abbrev pub copy_or_join : String → String → String → Result Token → Exec Store (Unit {0})
copy_or_join owner index_id demo_index_id (err no_documents) =
    find_one token_collection (has_index_id index_id) >>= λ t.
    insert_one token_collection (demo_copy owner demo_index_id t)
copy_or_join owner index_id demo_index_id (err e) = fail e
copy_or_join owner index_id demo_index_id (ok found) =
    update_one token_collection
      (λ t. is_demo_of demo_index_id t && not (one_of t.owners_array owner)) (with_demo_owner owner)
    >>= λ matched. pure tt

unfoldable pub index_demo_token : String → String → Exec Store (Unit {0})
index_demo_token owner index_id =
    caught (find_one token_collection (is_demo_of (demo_token_prefix index_id)))
      (copy_or_join owner index_id (demo_token_prefix index_id))

unfoldable pub index_each_demo_token : String → List String → Exec Store (Unit {0})
index_each_demo_token owner [] = pure tt
index_each_demo_token owner (index_id ∷ index_ids) =
    index_demo_token owner index_id >>= λ (u : Unit {0}). index_each_demo_token owner index_ids

-- `IndexDemoTokens`
unfoldable pub index_demo_tokens : String → List String → Exec Store (Unit {0})
index_demo_tokens owner index_ids =
    delete_demo_tokens owner >>= λ (u : Unit {0}). index_each_demo_token owner index_ids
