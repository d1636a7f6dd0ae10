-- ===== src/Refresh/Single.antt =====
-- The owners of tokens under `RefreshTokenProvenance` and `RefreshTokenOwnership` of
-- background/worker/activities.go.
use ff_indexer.Prelude.{
  ℕ, String, List, [], ◌∷◌, Bool, true, false, not, ◌||◌, ◌&&◌, Option, none, some, ◌≡◌, inl, inr,
  refl, sym, ap, ◌∙◌, ltb, if◌then◌else◌, All, All-update_first, find_first, update_all, Bool-cases,
  eq_iff,
}
use ff_indexer.Exec.{Result, ok, err, World, Exec, perform, pure, ◌>>=◌}
use ff_indexer.Exec.Keeps.{Keeps, Keeps-pure, Keeps-fail, Keeps-perform, Keeps-bind, Keeps-caught}
use ff_indexer.Mongo.{find, find_one, update_one, update_many, upsert_one, select, or_no_documents}
use ff_indexer.Catalog.{
  AccountToken, account_token_collection, Token, Provenance, OwnerBalance, Store, token_collection,
  has_index_id,
}
use ff_indexer.IndexId.{Chains}
use ff_indexer.Ownership.{
  get_tokens_by_index_ids, set_provenance, update_token_provenance, set_owners, update_token_owners,
}
use ff_indexer.Ownership.Single.{IsSingle}
use ff_indexer.Accounts.{
  is_unlisted, no_balance, put_balance, put_balances, listed, update_account_token_owners,
}
use ff_indexer.Refresh.{
  Fetches, given, is_refreshed, new_provenances, set_balance, save_provenances, refresh_provenances,
  refresh_token_provenance, new_owners, save_owners, activity_of, refresh_owners,
  refresh_token_ownership,
}

module _ (is_fungible : String → Bool) where
  -- The index id of a token says whether it is fungible.
  abbrev pub IsOfKind : Token → Type 0
  IsOfKind t = t.fungible ≡ is_fungible t.index_id

  abbrev pub AreSingle : Store → Type 0
  AreSingle s = All (λ t. IsOfKind t × IsSingle t) s.tokens

  abbrev KeepSingle : Store → Store → Type 0
  KeepSingle s s' = AreSingle s → AreSingle s'

  same : (s : Store) → KeepSingle s s
  same s h = h

  compose : (s t u : Store) → KeepSingle s t → KeepSingle t u → KeepSingle s u
  compose s t u g h all = h (g all)

  nothing : Keeps KeepSingle {A = Unit {0}} (pure tt)
  nothing = Keeps-pure KeepSingle same tt

  put_balances-KeepSingle :
      (now : ℕ) (index_id : String) (t : Token) (bs : List OwnerBalance) (owners : List String)
      → Keeps KeepSingle (put_balances now index_id t bs owners)
  unfolding put_balances upsert_one
  put_balances-KeepSingle now index_id t [] owners = Keeps-pure KeepSingle same owners
  put_balances-KeepSingle now index_id t (b ∷ bs) owners =
      Keeps-caught KeepSingle compose (put_balance now index_id t b)
        (λ r. put_balances now index_id t bs (listed b.address owners r))
        (Keeps-perform KeepSingle same _ (λ s h. h))
        (λ r. put_balances-KeepSingle now index_id t bs (listed b.address owners r))

  find_one-KeepSingle : (p : Token → Bool) → Keeps KeepSingle (find_one token_collection p)
  unfolding find_one
  find_one-KeepSingle p =
      Keeps-perform KeepSingle same (λ s. (or_no_documents (find_first p s.tokens), s)) (λ s h. h)

  update_many-KeepSingle :
      (p : AccountToken → Bool) (f : AccountToken → AccountToken)
      → Keeps KeepSingle (update_many account_token_collection p f)
  unfolding update_many
  update_many-KeepSingle p f =
      Keeps-perform KeepSingle same
        (λ s. (ok tt, account_token_collection.put (update_all p f s.account_tokens) s)) (λ s h. h)

  update_account_token_owners-KeepSingle :
      (now : ℕ) (index_id : String) (bs : List OwnerBalance)
      → Keeps KeepSingle (update_account_token_owners now index_id bs)
  unfolding update_account_token_owners
  update_account_token_owners-KeepSingle now index_id bs =
      let finish : List String → Exec Store (Unit {0}) = λ owners.
        update_many account_token_collection (is_unlisted index_id owners) (no_balance now) in
      Keeps-bind KeepSingle compose (find_one token_collection (has_index_id index_id))
        (λ t. put_balances now index_id t bs [] >>= finish)
        (find_one-KeepSingle (has_index_id index_id))
        λ t.
          Keeps-bind KeepSingle compose (put_balances now index_id t bs []) finish
            (put_balances-KeepSingle now index_id t bs [])
            λ owners. update_many-KeepSingle (is_unlisted index_id owners) (no_balance now)

  update_token_provenance-KeepSingle :
      (now : ℕ) (index_id : String) (ps : List Provenance)
      → Keeps KeepSingle (update_token_provenance now index_id ps)
  unfolding update_token_provenance update_one set_provenance
  update_token_provenance-KeepSingle now index_id [] = nothing
  update_token_provenance-KeepSingle now index_id (p ∷ ps) =
      Keeps-bind KeepSingle compose _ _
        (Keeps-perform KeepSingle same _ λ s all.
          All-update_first (has_index_id index_id) (set_provenance now p ps)
            (λ t. IsOfKind t × IsSingle t) (λ t e h. (h.0, inr (refl, refl))) s.tokens all)
        (λ n. nothing)

  update_token_owners-KeepSingle :
      (now : ℕ) (index_id : String) (time : ℕ) (bs : List OwnerBalance)
      → is_fungible index_id ≡ true
      → Keeps KeepSingle (update_token_owners now index_id time bs)
  unfolding update_token_owners update_one set_owners
  update_token_owners-KeepSingle now index_id time [] fungible = nothing
  update_token_owners-KeepSingle now index_id time (b ∷ bs) fungible =
      Keeps-bind KeepSingle compose _ _
        (Keeps-perform KeepSingle same _ λ s all.
          All-update_first (has_index_id index_id) (set_owners now time (b ∷ bs))
            (λ t. IsOfKind t × IsSingle t)
            (λ t e h.
              (h.0, inl (h.0 ∙ ap is_fungible ((eq_iff t.index_id index_id).0 e) ∙ fungible)))
            s.tokens all)
        (λ n. nothing)

  given-KeepSingle : {A : Type 0} (r : Result A) → Keeps KeepSingle (given r)
  given-KeepSingle (ok a) = Keeps-pure KeepSingle same a
  given-KeepSingle {A} (err e) = Keeps-fail KeepSingle same A e

  All-select :
      (p : Token → Bool) (ts : List Token)
      → All (λ t. IsOfKind t × IsSingle t) ts
      → All IsOfKind (select p ts)
  unfolding select
  All-select p [] all = tt
  All-select p (t ∷ ts) all = elim (Bool-cases (p t)) [
    | inl e ↦ rw e (all.0.0, All-select p ts all.1)
    | inr e ↦ rw e (All-select p ts all.1)
  ]

  -- What is done with the tokens that are found may rely on what is kept.
  found-KeepSingle :
      (ids : List String) (f : List Token → Exec Store (Unit {0}))
      → ((ts : List Token) → All IsOfKind ts → Keeps KeepSingle (f ts))
      → Keeps KeepSingle (get_tokens_by_index_ids ids >>= f)
  unfolding get_tokens_by_index_ids find perform
  found-KeepSingle ids f h w = by_fault w.faults w.store
    where
      by_fault :
          (faults : List Bool) (s : Store)
          → KeepSingle s
              ((get_tokens_by_index_ids ids >>= f) (record { store = s; faults = faults })).1.store
      by_fault [] s all = h _ (All-select _ s.tokens all) (record { store = s; faults = [] }) all
      by_fault (true ∷ faults) s all = all
      by_fault (false ∷ faults) s all =
          h _ (All-select _ s.tokens all) (record { store = s; faults = faults }) all

  module _ (o : Fetches) (c : Chains) (now : ℕ) where
    save_provenances-KeepSingle :
        (t : Token) (ps : Option (List Provenance))
        → Keeps KeepSingle (save_provenances o c now t ps)
    save_provenances-KeepSingle t none = nothing
    save_provenances-KeepSingle t (some ps) =
        Keeps-bind KeepSingle compose _ _ (update_token_provenance-KeepSingle now t.index_id ps)
          λ u. balance ps
      where
        balance : (ps : List Provenance) → Keeps KeepSingle (set_balance o c now t.index_id ps)
        balance [] = nothing
        balance (p ∷ ps) = update_account_token_owners-KeepSingle now t.index_id _

    refresh_provenances-KeepSingle :
        (delay : ℕ) (ts : List Token) → Keeps KeepSingle (refresh_provenances o c now delay ts)
    unfolding refresh_provenances
    refresh_provenances-KeepSingle delay [] = nothing
    refresh_provenances-KeepSingle delay (t ∷ ts) =
        Keeps-bind KeepSingle compose _ _
          (skip ((ltb 0 delay && is_refreshed o c now delay t) || t.fungible))
          (λ u. refresh_provenances-KeepSingle delay ts)
      where
        skip :
            (b : Bool)
            → Keeps KeepSingle (
                if b
                then pure tt
                else given (new_provenances o c now t) >>= save_provenances o c now t)
        skip true = nothing
        skip false =
            Keeps-bind KeepSingle compose _ _ (given-KeepSingle (new_provenances o c now t))
              (save_provenances-KeepSingle t)

    save_owners-KeepSingle :
        (t : Token) (found : Option (ℕ × List OwnerBalance))
        → is_fungible t.index_id ≡ true
        → Keeps KeepSingle (save_owners o c now t found)
    save_owners-KeepSingle t none fungible = nothing
    save_owners-KeepSingle t (some (time, bs)) fungible =
        Keeps-bind KeepSingle compose _ _
          (update_token_owners-KeepSingle now t.index_id time bs fungible)
          (λ u. update_account_token_owners-KeepSingle now t.index_id bs)

    refresh_owners-KeepSingle :
        (delay : ℕ) (times : List (String × ℕ)) (ts : List Token)
        → All IsOfKind ts
        → Keeps KeepSingle (refresh_owners o c now delay times ts)
    unfolding refresh_owners
    refresh_owners-KeepSingle delay times [] kinds = nothing
    refresh_owners-KeepSingle delay times (t ∷ ts) kinds =
        Keeps-bind KeepSingle compose _ _ (skip (is_refreshed o c now delay t) t.fungible refl)
          (λ u. refresh_owners-KeepSingle delay times ts kinds.1)
      where
        new : Result (Option (ℕ × List OwnerBalance))
        new = new_owners o c now t (activity_of t.index_id times t.last_activity_time)

        skip :
            (b f : Bool)
            → t.fungible ≡ f
            → Keeps KeepSingle (if b || not f then pure tt else given new >>= save_owners o c now t)
        skip true f e = nothing
        skip false false e = nothing
        skip false true e =
            Keeps-bind KeepSingle compose _ _ (given-KeepSingle new)
              (λ found. save_owners-KeepSingle t found (sym kinds.0 ∙ e))

    refresh_token_ownership-KeepSingle :
        (ids : List String) (delay : ℕ)
        → Keeps KeepSingle (refresh_token_ownership o c now ids delay)
    unfolding refresh_token_ownership
    refresh_token_ownership-KeepSingle ids delay =
        Keeps-bind KeepSingle compose _ _ (Keeps-perform KeepSingle same _ (λ s h. h)) λ times.
          found-KeepSingle ids (refresh_owners o c now delay times)
            (refresh_owners-KeepSingle delay times)

    -- If tokens with one index id agree in being fungible, and each token is fungible or its
    -- owners are just its owner, that stays so under RefreshTokenProvenance and under
    -- RefreshTokenOwnership, whatever the chains tell and whichever calls of the database fail.
    pub refresh-AreSingle :
        (ids : List String) (delay : ℕ) (w : World Store)
        → AreSingle w.store
        → AreSingle (refresh_token_provenance o c now ids delay w).1.store
          × AreSingle (refresh_token_ownership o c now ids delay w).1.store
    unfolding refresh_token_provenance
    refresh-AreSingle ids delay w all = (
      found-KeepSingle ids (refresh_provenances o c now delay)
          (λ ts kinds. refresh_provenances-KeepSingle delay ts) w all,
      refresh_token_ownership-KeepSingle ids delay w all,
    )
