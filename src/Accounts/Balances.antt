-- ===== src/Accounts/Balances.antt =====
-- `UpdateAccountTokenOwners` of store.go, and the balances of owners that it does not list.
use ff_indexer.Prelude.{
  ℕ, String, List, [], ◌∷◌, Bool, true, false, ◌||◌, map, ◌==◌, ◌≡◌, ◌⊎◌, inl, inr, refl, ap, sym,
  ◌∙◌, arith, one_of, one_of-append, All, update_all, Bool-cases,
}
use mathlib.Core.Path.{subst⁻¹}
use ff_indexer.Exec.{Result, ok, err, World, pure}
use ff_indexer.Exec.Success.{and_then-ok, ok_injective}
use ff_indexer.Mongo.{find_one, update_many}
use ff_indexer.Mongo.Outcome.{store-update_many}
use ff_indexer.Catalog.{
  Token, AccountToken, OwnerBalance, Store, token_collection, account_token_collection,
  has_index_id,
}
use ff_indexer.Accounts.{
  listed, put_balance, put_balances, no_balance, is_unlisted, update_account_token_owners,
}

-- What is listed was listed before or is the address of a balance.
listed-put_balances :
    (now : ℕ) (index_id : String) (t : Token) (bs : List OwnerBalance) (owners : List String)
    (w : World Store) {all : List String}
    → (put_balances now index_id t bs owners w).0 ≡ ok all
    → (s : String) → one_of all s ≡ true
    → (one_of owners s || one_of (map (λ b. b.address) bs) s) ≡ true
unfolding put_balances pure
listed-put_balances now index_id t [] owners w {all} h s e =
    let same = ok_injective owners all h in ground (arith, subst⁻¹ (λ l. one_of l s ≡ true) same e)
listed-put_balances now index_id t (b ∷ bs) owners w {all} h s e =
    listed_first (put_balance now index_id t b w).0
      (listed-put_balances now index_id t bs _ (put_balance now index_id t b w).1 h s e)
  where
    listed_first :
        (r : Result (Unit {0}))
        → (one_of (listed b.address owners r) s || one_of (map (λ b. b.address) bs) s) ≡ true
        → (one_of owners s || (b.address == s || one_of (map (λ b. b.address) bs) s)) ≡ true
    listed_first (ok u) k = ground (arith, one_of-append owners (b.address ∷ []) s)
    listed_first (err x) k = ground arith

All-update_all :
    (P : AccountToken → Type 0) (p : AccountToken → Bool) (f : AccountToken → AccountToken)
    → ((a : AccountToken) → P (f a))
    → ((a : AccountToken) → p a ≡ false → P a)
    → (accounts : List AccountToken) → All P (update_all p f accounts)
unfolding update_all
All-update_all P p f changed kept [] = tt
All-update_all P p f changed kept (a ∷ accounts) = elim (Bool-cases (p a)) [
  | inl e ↦ rw e (changed a, All-update_all P p f changed kept accounts)
  | inr e ↦ rw e (kept a e, All-update_all P p f changed kept accounts)
]

-- An account token is of another token, its owner is listed, or it has no balance.
abbrev pub IsSettled : String → List OwnerBalance → AccountToken → Type 0
IsSettled index_id bs a =
    (a.index_id == index_id ≡ false)
    ⊎ ((one_of (map (λ b. b.address) bs) a.owner_account ≡ true) ⊎ (a.balance ≡ 0))

module _ (now : ℕ) (index_id : String) (bs : List OwnerBalance) where
  last_call :
      (owners : List String) (w : World Store)
      → ((s : String) → one_of owners s ≡ true → one_of (map (λ b. b.address) bs) s ≡ true)
      → (update_many account_token_collection (is_unlisted index_id owners) (no_balance now) w).0
        ≡ ok tt
      → All
          (IsSettled index_id bs)
          (update_many account_token_collection
            (is_unlisted index_id owners)
            (no_balance now)
            w).1.store.account_tokens
  unfolding no_balance
  last_call owners w sub h =
      subst⁻¹ (λ s. All (IsSettled index_id bs) s.account_tokens)
        (store-update_many account_token_collection (is_unlisted index_id owners) w (no_balance now)
          h)
        (All-update_all (IsSettled index_id bs) _ _ (λ a. inr (inr refl))
          (λ a e. ground (arith, sub a.owner_account)) w.store.account_tokens)

  -- Whichever calls fail, if UpdateAccountTokenOwners returns no error, every account token of the
  -- index id has no balance or belongs to an address of the balances.
  pub update_account_token_owners-IsSettled :
      (w : World Store)
      → (update_account_token_owners now index_id bs w).0 ≡ ok tt
      → All
          (IsSettled index_id bs)
          (update_account_token_owners now index_id bs w).1.store.account_tokens
  unfolding update_account_token_owners
  update_account_token_owners-IsSettled w h =
      let (t, found, eq) = and_then-ok (find_one token_collection (has_index_id index_id) w) _ h in
      let w' = (find_one token_collection (has_index_id index_id) w).1 in
      let h' = ap (λ r. r.0) (sym eq) ∙ h in
      let (owners, got, eq') = and_then-ok (put_balances now index_id t bs [] w') _ h' in
      subst⁻¹ (λ r. All (IsSettled index_id bs) r.1.store.account_tokens) (eq ∙ eq')
        (last_call owners _ (listed-put_balances now index_id t bs [] w' got)
          (ap (λ r. r.0) (sym eq') ∙ h'))
