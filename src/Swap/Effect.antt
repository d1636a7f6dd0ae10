-- ===== src/Swap/Effect.antt =====
-- `SwapToken` of store.go when no call fails: the two tokens and the account tokens.
use ff_indexer.Prelude.{
  ℕ, String, List, [], ◌∷◌, ◌++◌, true, false, ◌&&◌, Option, none, some, ◌==◌, ◌≡◌, ◌≢◌, inl, inr,
  refl, sym, ap, ◌∙◌, arith, if◌then◌else◌, find_first, exists, update_first, update_all,
  remove_all, find_first_lem, find_first-update_first, find_first-append, find_first-added,
  find_first-update_other, exists-update_all, remove_all-none, found-of_exists, find_first-none,
  Bool-cases, eq_iff,
}
use ff_indexer.Exec.{ok, calm, perform, pure}
use ff_indexer.Mongo.{find_one, update_one, upsert_one, delete_many}
use ff_indexer.Mongo.Transaction.{transaction, attempt}
use ff_indexer.Catalog.{has_duplicates, Token, SwapUpdate, AccountToken, Store, has_index_id}
use ff_indexer.IndexId.{Chains}
use ff_indexer.Swap.{
  moved_accounts, move_accounts, swapped_token, burn_into, overwrite, of_index_id, move_account,
  swap_body, swap_found, is_other, swap_token, is_supported, original_id, new_id,
}

abbrev pub swapped_to_of : Option Token → Option String
swapped_to_of none = none
swapped_to_of (some t) = t.swapped_to

module _ (now : ℕ) (original new : String) (u : SwapUpdate) where
  -- The tokens after the first call, and after both.
  abbrev burned_tokens : List Token → List Token
  burned_tokens = update_first (has_index_id original) (burn_into new)

  abbrev put_token : Token → List Token → List Token
  put_token n ts =
      if exists (has_index_id new) ts
      then update_first (has_index_id new) (overwrite n) ts
      else ts ++ n ∷ []

  abbrev after_swap : Token → Store → Store
  after_swap t s = record s {
    tokens = put_token (swapped_token original new u t) (burned_tokens s.tokens);
    account_tokens =
        remove_all (of_index_id original) (moved_accounts now original new s.account_tokens);
  }

  run-swap_found :
      (t : Token) (s : Store)
      → t.burned && is_other t.swapped_to new ≡ false
      → has_duplicates (moved_accounts now original new s.account_tokens) ≡ false
      → swap_found now original new u t (calm s) ≡ (ok new, calm (after_swap t s))
  unfolding swap_found swap_body transaction attempt update_one upsert_one delete_many move_accounts
      exists remove_all perform pure
  run-swap_found t s may distinct = rw (may, distinct)

  module _ (differ : original ≢ new) where
    is_new_not_original : (x : Token) → has_index_id new x ≡ true → has_index_id original x ≡ false
    is_new_not_original x h = ground (arith, eq_iff x.index_id new, eq_iff x.index_id original)

    is_original_not_new : (x : Token) → has_index_id original x ≡ true → has_index_id new x ≡ false
    is_original_not_new x h = ground (arith, eq_iff x.index_id new, eq_iff x.index_id original)

    new_ne_original : new == original ≡ false
    new_ne_original = elim (Bool-cases (new == original)) [
      | inl e ↦ elim (differ (sym ((eq_iff new original).0 e))) [ ]
      | inr e ↦ e
    ]

    -- The original token is found burned.
    find-original :
        (t n : Token) (ts : List Token)
        → n.index_id ≡ new
        → find_first (has_index_id original) ts ≡ some t
        → find_first (has_index_id original) (put_token n (burned_tokens ts))
          ≡ some (burn_into new t)
    unfolding overwrite burn_into
    find-original t n ts named found =
        elim (Bool-cases (exists (has_index_id new) (burned_tokens ts))) [
          | inl e ↦ rw e (
              find_first-update_other _ _ _ is_new_not_original
                (λ x h. is_new_not_original n ((eq_iff n.index_id new).1 named)) (burned_tokens ts)
              ∙ burned)
          | inr e ↦ rw e (find_first-append _ (burned_tokens ts) _ burned)
        ]
      where
        burned : find_first (has_index_id original) (burned_tokens ts) ≡ some (burn_into new t)
        burned =
            find_first-update_first (has_index_id original) _ _ (λ x h. h) ts found
              (find_first_lem _ ts found) (find_first_lem _ ts found)

    -- The new token is found in its place; it keeps only where the token that was there is swapped to.
    find-new :
        (n : Token) (ts : List Token)
        → n.index_id ≡ new
        → n.swapped_to ≡ none
        → find_first (has_index_id new) (put_token n (burned_tokens ts))
          ≡ some (record n { swapped_to = swapped_to_of (find_first (has_index_id new) ts) })
    unfolding overwrite burn_into
    find-new n ts named unset = rw (← unburned) (placed (burned_tokens ts))
      where
        unburned :
            find_first (has_index_id new) (burned_tokens ts) ≡ find_first (has_index_id new) ts
        unburned =
            find_first-update_other (has_index_id new) (has_index_id original) (burn_into new)
              is_original_not_new is_original_not_new ts

        placed :
            (ts : List Token)
            → find_first (has_index_id new) (put_token n ts)
              ≡ some (record n { swapped_to = swapped_to_of (find_first (has_index_id new) ts) })
        placed ts = elim (Bool-cases (exists (has_index_id new) ts)) [
          | inl e ↦
              let (x, found) = found-of_exists (has_index_id new) ts e in
              rw (e, found)
                (find_first-update_first (has_index_id new) (overwrite n) (has_index_id new)
                  (λ x h. h) ts found (find_first_lem (has_index_id new) ts found)
                  ((eq_iff n.index_id new).1 named))
          | inr e ↦
              rw (e, find_first-none (has_index_id new) ts e)
                (find_first-added (has_index_id new) ts n e ((eq_iff n.index_id new).1 named)
                  ∙ ap (λ o. some (record n { swapped_to = o })) unset)
        ]

    accounts-moved :
        (accounts : List AccountToken)
        → remove_all (of_index_id original) (moved_accounts now original new accounts)
          ≡ moved_accounts now original new accounts
    unfolding move_account
    accounts-moved accounts =
        remove_all-none _ _ (exists-update_all _ _ (λ x h. new_ne_original) accounts)

module _ (c : Chains) (now : ℕ) (u : SwapUpdate) where
  run-swap_token :
      (t : Token) (s : Store)
      → is_supported c u.new_blockchain ≡ true
      → find_first (has_index_id (original_id c u)) s.tokens ≡ some t
      → t.burned && is_other t.swapped_to (new_id c u) ≡ false
      → has_duplicates (moved_accounts now (original_id c u) (new_id c u) s.account_tokens) ≡ false
      → swap_token c now u (calm s)
        ≡ (ok (new_id c u), calm (after_swap now (original_id c u) (new_id c u) u t s))
  unfolding swap_token find_one perform
  run-swap_token t s supported found may distinct =
      rw supported (rw found (run-swap_found now (original_id c u) (new_id c u) u t s may distinct))

  -- Where no call fails, take a swap to a supported blockchain and to another index id, whose
  -- original token is found and is not burned into a third id, and for which no account would have
  -- two rows of the new id. It returns the new id. The original token is found burned and swapped
  -- to the new id, and otherwise as it was. The new token is found with all that the original had,
  -- but with the id, the blockchain, the contract and the index id of the swap, swapped, not
  -- burned, swapped from the original and with the original's id, blockchain and contract before
  -- its origins; it is swapped to where the token found under the new id before was. Every account
  -- token of the original id is moved to the new id with both of its times set to now, and none of
  -- the original id is left.
  pub swap_token_lem :
      (t : Token) (s : Store)
      → is_supported c u.new_blockchain ≡ true
      → original_id c u ≢ new_id c u
      → find_first (has_index_id (original_id c u)) s.tokens ≡ some t
      → t.burned && is_other t.swapped_to (new_id c u) ≡ false
      → has_duplicates (moved_accounts now (original_id c u) (new_id c u) s.account_tokens) ≡ false
      → let after = (swap_token c now u (calm s)).1.store in
        ((swap_token c now u (calm s)).0 ≡ ok (new_id c u))
        × (find_first (has_index_id (original_id c u)) after.tokens
            ≡ some (record t { burned = true; swapped_to = some (new_id c u) }))
        × (find_first (has_index_id (new_id c u)) after.tokens
            ≡ some (record t {
              base = record t.base {
                id = u.new_token_id;
                blockchain = u.new_blockchain;
                contract_address = u.new_contract_address;
                contract_type = u.new_contract_type;
              };
              index_id = new_id c u;
              swapped = true;
              burned = false;
              swapped_to = swapped_to_of (find_first (has_index_id (new_id c u)) s.tokens);
              swapped_from = some (original_id c u);
              origin_token_info = t.base ∷ t.origin_token_info;
            }))
        × (after.account_tokens
            ≡ update_all
                (λ a. a.index_id == original_id c u)
                (λ a. record a {
                  index_id = new_id c u;
                  last_refreshed_time = now;
                  last_activity_time = now;
                })
                s.account_tokens)
        × (exists (λ a. a.index_id == original_id c u) after.account_tokens ≡ false)
  unfolding swapped_token burn_into move_account
  swap_token_lem t s supported differ found may distinct =
      let original = original_id c u in
      let new = new_id c u in
      let moved = accounts-moved now original new u differ s.account_tokens in
      rw (run-swap_token t s supported found may distinct) (
        refl,
        find-original now original new u differ t _ s.tokens refl found,
        find-new now original new u differ (swapped_token original new u t) s.tokens refl refl,
        moved,
        rw moved (
            exists-update_all (of_index_id original) (move_account now new)
              (λ x h. new_ne_original now original new u differ) s.account_tokens),
      )
