-- ===== src/Assets/Frame.antt =====
-- The parts of `IndexAsset` of store.go, and the relation between the stores before and after them.
use ff_indexer.Prelude.{
  ℕ, String, Bool, true, some, ◌≡◌, ◌⊎◌, inl, inr, refl, ap, ◌∙◌, arith, find_first, Grown,
  Grown-refl, Grown-trans, Grown-update_first,
}
use mathlib.Core.Path.{subst, subst⁻¹}
use ff_indexer.Exec.{World}
use ff_indexer.Exec.Keeps.{Keeps, Keeps-pure, Keeps-perform, Keeps-bind}
use ff_indexer.Mongo.{update_one}
use ff_indexer.Mongo.Outcome.{store-update_one}
use ff_indexer.Catalog.{
  Token, Asset, ProjectMetadata, Store, asset_collection, token_collection, has_index_id,
}
use ff_indexer.Assets.{
  check_if_token_need_to_update, require_updates, set_asset, has_asset_id, set_token,
  update_collection_asset,
}

-- `t'` with the fields of `t` that an update may change.
abbrev pub restored_token : Token → Token → Token
restored_token t t' = record t' {
  base = record t'.base { fungible = t.fungible; contract_address = t.contract_address };
  source = t.source;
  asset_id = t.asset_id;
  edition = t.edition;
  edition_name = t.edition_name;
  minted_at = t.minted_at;
  last_refreshed_time = t.last_refreshed_time;
  last_activity_time = t.last_activity_time;
}

abbrev pub restored_asset : Asset → Asset → Asset
restored_asset a a' = record a' {
  project_metadata = record a'.project_metadata { latest = a.project_metadata.latest };
  last_refreshed_time = a.last_refreshed_time;
  thumbnail_id = a.thumbnail_id;
}

-- A token is as it was, or the source may update it and only those fields differ.
abbrev pub TokenKept : String → Token → Token → Type 0
TokenKept source t t' =
    (t' ≡ t)
    ⊎ ((check_if_token_need_to_update source t ≡ true)
        × (restored_token t t' ≡ t)
        × ((t.minted_at ≡ 0) ⊎ (t'.minted_at ≡ t.minted_at)))

abbrev pub AssetKept : String → Asset → Asset → Type 0
AssetKept source a a' = (a' ≡ a) ⊎ ((require_updates source a ≡ true) × (restored_asset a a' ≡ a))

-- Rows are added, and those that were there are kept.
abbrev pub StoreKept : String → Store → Store → Type 0
StoreKept source s s' =
    Grown (TokenKept source) s.tokens s'.tokens × Grown (AssetKept source) s.assets s'.assets

module _ (source : String) where
  TokenKept-trans :
      (t u v : Token) → TokenKept source t u → TokenKept source u v → TokenKept source t v
  TokenKept-trans t u v (inl e) h = subst (λ x. TokenKept source x v) e h
  TokenKept-trans t u v g (inl e) = subst⁻¹ (λ x. TokenKept source t x) e g
  TokenKept-trans t u v (inr (may, kept, minted)) (inr (may', kept', minted')) =
      inr (may, ap (restored_token t) kept' ∙ kept, ground arith)

  AssetKept-trans :
      (t u v : Asset) → AssetKept source t u → AssetKept source u v → AssetKept source t v
  AssetKept-trans t u v (inl e) h = subst (λ x. AssetKept source x v) e h
  AssetKept-trans t u v g (inl e) = subst⁻¹ (λ x. AssetKept source t x) e g
  AssetKept-trans t u v (inr (may, kept)) (inr (may', kept')) =
      inr (may, ap (restored_asset t) kept' ∙ kept)

  pub StoreKept-refl : (s : Store) → StoreKept source s s
  StoreKept-refl s = (
    Grown-refl (TokenKept source) (λ t. inl refl) s.tokens,
    Grown-refl (AssetKept source) (λ t. inl refl) s.assets,
  )

  pub StoreKept-trans :
      (s t u : Store) → StoreKept source s t → StoreKept source t u → StoreKept source s u
  StoreKept-trans s t u g h = (
    Grown-trans (TokenKept source) (λ t. inl refl) TokenKept-trans s.tokens t.tokens u.tokens g.0
        h.0,
    Grown-trans (AssetKept source) (λ t. inl refl) AssetKept-trans s.assets t.assets u.assets g.1
        h.1,
  )

  pub update_collection_asset-Keeps :
      (index_id : String) (activity edition : ℕ)
      → Keeps (StoreKept source) (update_collection_asset index_id activity edition)
  unfolding update_one
  update_collection_asset-Keeps index_id activity edition =
      Keeps-bind (StoreKept source) StoreKept-trans _ _
        (Keeps-perform (StoreKept source) StoreKept-refl _ (λ s. StoreKept-refl s))
        (λ n. Keeps-pure (StoreKept source) StoreKept-refl tt)

  set_token-TokenKept :
      (now : ℕ) (id : String) (u t : Token)
      → check_if_token_need_to_update source t ≡ true
      → TokenKept source t (set_token now id u t.minted_at t)
  unfolding set_token
  set_token-TokenKept now id u t may = inr (may, refl, ground arith)

  set_asset-AssetKept :
      (now : ℕ) (m : ProjectMetadata) (reset : Bool) (a : Asset)
      → require_updates source a ≡ true
      → AssetKept source a (set_asset now m reset a)
  unfolding set_asset
  set_asset-AssetKept now m reset a may = inr (may, refl)

  -- The change of the token that was found.
  pub update_one-token :
      (now : ℕ) (id : String) (u t : Token) (w : World Store)
      → find_first (has_index_id u.index_id) w.store.tokens ≡ some t
      → check_if_token_need_to_update source t ≡ true
      → StoreKept source w.store
          (update_one token_collection
            (has_index_id u.index_id)
            (set_token now id u t.minted_at)
            w).1.store
  update_one-token now id u t w found may =
      elim (store-update_one token_collection (has_index_id u.index_id) w
        (set_token now id u t.minted_at)) [
          | inl e ↦ subst⁻¹ (StoreKept source w.store) e (StoreKept-refl w.store)
          | inr e ↦ subst⁻¹ (StoreKept source w.store) e (
            Grown-update_first (TokenKept source) (λ t. inl refl) _ _ w.store.tokens found
                (set_token-TokenKept now id u t may),
            (StoreKept-refl w.store).1,
          )
        ]

  pub update_one-asset :
      (now : ℕ) (index_id : String) (m : ProjectMetadata) (reset : Bool) (a : Asset)
      (w : World Store)
      → find_first (has_asset_id index_id) w.store.assets ≡ some a
      → require_updates source a ≡ true
      → StoreKept source w.store
          (update_one asset_collection (has_asset_id index_id) (set_asset now m reset) w).1.store
  update_one-asset now index_id m reset a w found may =
      elim (store-update_one asset_collection (has_asset_id index_id) w (set_asset now m reset)) [
        | inl e ↦ subst⁻¹ (StoreKept source w.store) e (StoreKept-refl w.store)
        | inr e ↦ subst⁻¹ (StoreKept source w.store) e (
          (StoreKept-refl w.store).0,
          Grown-update_first (AssetKept source) (λ t. inl refl) _ _ w.store.assets found
              (set_asset-AssetKept now m reset a may),
        )
      ]
