-- ===== src/Swap/Atomic.antt =====
-- `SwapToken` of store.go when calls of the database fail.
use ff_indexer.Prelude.{ℕ, String, ◌&&◌, ◌≡◌, ◌⊎◌, inl, inr, refl, Bool-cases}
use ff_indexer.Exec.{
  call_failed, Error, Result, ok, err, unique_violation, unsupported_blockchain,
  burned_into_different_id, World, calm, pure, fail,
}
use ff_indexer.Exec.Honest.{
  Honest, Undone, pure-Honest, fail-Honest, perform-Honest, bind-Honest, bind-Undone, caught-Honest,
  then_pure-Undone, fail-Undone, Honest-all_or_nothing,
}
use ff_indexer.Mongo.{find_one, update_one, upsert_one, delete_many}
use ff_indexer.Mongo.Outcome.{store-find_one}
use ff_indexer.Mongo.Transaction.{transaction-Honest, transaction-Undone}
use ff_indexer.Catalog.{Token, SwapUpdate, Store, token_collection, has_index_id}
use ff_indexer.IndexId.{Chains}
use ff_indexer.Swap.{
  delete_rest, move_accounts, swap_body, swap_found, is_other, swap_token, is_supported,
  original_id,
}

delete_rest-Honest : (original : String) (r : Result (Unit {0})) → Honest (delete_rest original r)
unfolding delete_many
delete_rest-Honest original (ok u) = perform-Honest _
delete_rest-Honest original (err unique_violation) = fail-Honest (Unit {0}) call_failed
delete_rest-Honest original (err e) = fail-Honest (Unit {0}) e

swap_body-Honest :
    (now : ℕ) (original new : String) (n : Token) → Honest (swap_body now original new n)
unfolding swap_body update_one upsert_one move_accounts
swap_body-Honest now original new n =
    bind-Honest _
      (λ _.
        bind-Honest _
          (λ _.
            caught-Honest (delete_rest original) (λ w. unfold fail in refl)
              (delete_rest-Honest original) _ (perform-Honest _))
          _ (perform-Honest _))
      _ (perform-Honest _)

swap_found-Honest :
    (now : ℕ) (original new : String) (u : SwapUpdate) (t : Token)
    → Honest (swap_found now original new u t)
unfolding swap_found
swap_found-Honest now original new u t = elim (Bool-cases (t.burned && is_other t.swapped_to new)) [
  | inl e ↦ rw e (fail-Honest String burned_into_different_id)
  | inr e ↦ rw e (
      bind-Honest (λ _. pure new) (λ _. pure-Honest new) _
        (transaction-Honest _ (swap_body-Honest now original new _)))
]

swap_found-Undone :
    (now : ℕ) (original new : String) (u : SwapUpdate) (t : Token)
    → Undone (swap_found now original new u t)
unfolding swap_found
swap_found-Undone now original new u t = elim (Bool-cases (t.burned && is_other t.swapped_to new)) [
  | inl e ↦ rw e (fail-Undone String burned_into_different_id)
  | inr e ↦ rw e (then_pure-Undone _ new (transaction-Undone _))
]

module _ (c : Chains) (now : ℕ) (u : SwapUpdate) where
  swap_token-Honest : Honest (swap_token c now u)
  unfolding swap_token find_one
  swap_token-Honest = elim (Bool-cases (is_supported c u.new_blockchain)) [
    | inl e ↦ rw e (bind-Honest _ (swap_found-Honest now _ _ u) _ (perform-Honest _))
    | inr e ↦ rw e (fail-Honest String unsupported_blockchain)
  ]

  swap_token-Undone : Undone (swap_token c now u)
  unfolding swap_token
  swap_token-Undone = elim (Bool-cases (is_supported c u.new_blockchain)) [
    | inl e ↦ rw e (
        bind-Undone _ _ (store-find_one token_collection (has_index_id (original_id c u)))
          (swap_found-Undone now _ _ u))
    | inr e ↦ rw e (fail-Undone String unsupported_blockchain)
  ]

  -- Whichever calls fail, SwapToken returns an error and leaves the store as it was, or it returns
  -- and leaves what it does when no call fails.
  pub swap_token-all_or_nothing :
      (w : World Store)
      → ((e : Error) × ((swap_token c now u w).0 ≡ err e)
          × ((swap_token c now u w).1.store ≡ w.store))
        ⊎ (((swap_token c now u w).0 ≡ (swap_token c now u (calm w.store)).0)
            × ((swap_token c now u w).1.store ≡ (swap_token c now u (calm w.store)).1.store))
  swap_token-all_or_nothing w =
      Honest-all_or_nothing (swap_token c now u) swap_token-Honest swap_token-Undone w
