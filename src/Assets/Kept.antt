-- ===== src/Assets/Kept.antt =====
-- `IndexAsset` of store.go as a whole, by what its parts keep (Assets/Frame).
use ff_indexer.Prelude.{
  ℕ, String, List, [], ◌∷◌, true, some, ◌≡◌, inl, inr, refl, find_first, Bool-cases, Grown-append,
}
use mathlib.Core.Path.{subst, subst⁻¹}
use ff_indexer.Exec.{Result, ok, err, World, caught, no_documents}
use ff_indexer.Exec.Keeps.{Keeps, Keeps-pure, Keeps-fail, Keeps-perform, Keeps-bind, Keeps-and_then}
use ff_indexer.Mongo.{find_one, insert_one}
use ff_indexer.Mongo.Outcome.{store-find_one, found-find_one}
use ff_indexer.Catalog.{
  Token, Asset, AssetUpdates, Store, asset_collection, token_collection, has_index_id,
}
use ff_indexer.IndexId.{Chains}
use ff_indexer.Assets.{
  check_if_token_need_to_update, require_updates, has_asset_id, update_asset, dated,
  insert_or_update_asset, update_token, insert_or_update_token, index_token, prepared, index_tokens,
  index_asset,
}
use ff_indexer.Assets.Frame.{
  TokenKept, AssetKept, StoreKept, StoreKept-refl, StoreKept-trans, update_collection_asset-Keeps,
  update_one-token, update_one-asset,
}

module _ (source : String) where
  update_token-kept :
      (now : ℕ) (id : String) (u t : Token) (w : World Store)
      → find_first (has_index_id u.index_id) w.store.tokens ≡ some t
      → StoreKept source w.store (update_token now id source u t w).1.store
  update_token-kept now id u t w found =
      elim (Bool-cases (check_if_token_need_to_update source t)) [
        | inl e ↦ rw e (
            Keeps-and_then (StoreKept source) (StoreKept-trans source) w.store _ _
              (update_one-token source now id u t w found e)
              (λ n. update_collection_asset-Keeps source _ _ _))
        | inr e ↦
            rw e (update_collection_asset-Keeps source u.index_id t.last_activity_time t.edition w)
      ]

  insert_token-Keeps :
      (u : Token)
      → Keeps (StoreKept source) (insert_or_update_token 0 "" source u (err no_documents))
  unfolding insert_one
  insert_token-Keeps u =
      Keeps-bind (StoreKept source) (StoreKept-trans source) _ _
        (Keeps-perform (StoreKept source) (StoreKept-refl source) _ (λ s. (
          Grown-append (TokenKept source) (λ t. inl refl) s.tokens _,
          (StoreKept-refl source s).1,
        )))
        (λ n. update_collection_asset-Keeps source _ _ _)

  -- What follows a search, at the world that the search leaves.
  insert_or_update_token-kept :
      (now : ℕ) (id : String) (u : Token) (w : World Store) (r : Result Token)
      → ((t : Token) → r ≡ ok t → find_first (has_index_id u.index_id) w.store.tokens ≡ some t)
      → StoreKept source w.store (insert_or_update_token now id source u r w).1.store
  insert_or_update_token-kept now id u w (ok t) h = update_token-kept now id u t w (h t refl)
  insert_or_update_token-kept now id u w (err no_documents) h = insert_token-Keeps u w
  insert_or_update_token-kept now id u w (err e) h =
      Keeps-fail (StoreKept source) (StoreKept-refl source) (Unit {0}) e w

  index_token-Keeps :
      (now : ℕ) (id : String) (u : Token) → Keeps (StoreKept source) (index_token now id source u)
  unfolding index_token
  index_token-Keeps now id u w =
      let same = store-find_one token_collection (has_index_id u.index_id) w in
      subst (λ s. StoreKept source s (index_token now id source u w).1.store) same
        (insert_or_update_token-kept now id u _ _ (λ t e.
          subst⁻¹ (λ s. find_first (has_index_id u.index_id) s.tokens ≡ some t) same
            (found-find_one token_collection (has_index_id u.index_id) w e)))

  update_asset-kept :
      (now : ℕ) (index_id : String) (u : AssetUpdates) (a : Asset) (w : World Store)
      → u.source ≡ source
      → find_first (has_asset_id index_id) w.store.assets ≡ some a
      → StoreKept source w.store (update_asset now index_id u a w).1.store
  update_asset-kept now index_id u a w from_source found =
      elim (Bool-cases (require_updates u.source a)) [
        | inl e ↦ rw e (
            Keeps-and_then (StoreKept source) (StoreKept-trans source) w.store _ _
              (update_one-asset source now index_id u.project_metadata _ a w found
                (subst (λ x. require_updates x a ≡ true) from_source e))
              (λ n. Keeps-pure (StoreKept source) (StoreKept-refl source) tt))
        | inr e ↦ rw e (Keeps-pure (StoreKept source) (StoreKept-refl source) tt w)
      ]

  insert_or_update_asset-kept :
      (now : ℕ) (id index_id : String) (u : AssetUpdates) (w : World Store) (r : Result Asset)
      → u.source ≡ source
      → ((a : Asset) → r ≡ ok a → find_first (has_asset_id index_id) w.store.assets ≡ some a)
      → StoreKept source w.store (insert_or_update_asset now id index_id u r w).1.store
  unfolding insert_one
  insert_or_update_asset-kept now id index_id u w (ok a) from_source h =
      update_asset-kept now index_id u a w from_source (h a refl)
  insert_or_update_asset-kept now id index_id u w (err no_documents) from_source h =
      Keeps-perform (StoreKept source) (StoreKept-refl source) _
        (λ s.
          ((StoreKept-refl source s).0, Grown-append (AssetKept source) (λ a. inl refl) s.assets _))
        w
  insert_or_update_asset-kept now id index_id u w (err e) from_source h =
      Keeps-fail (StoreKept source) (StoreKept-refl source) (Unit {0}) e w

  index_tokens-Keeps :
      (c : Chains) (to_lower : String → String) (now : ℕ) (id : String) (us : List Token)
      → Keeps (StoreKept source) (index_tokens c to_lower now id source us)
  unfolding index_tokens
  index_tokens-Keeps c to_lower now id [] = Keeps-pure (StoreKept source) (StoreKept-refl source) tt
  index_tokens-Keeps c to_lower now id (u ∷ us) =
      Keeps-bind (StoreKept source) (StoreKept-trans source) _ _
        (index_token-Keeps now id (prepared c to_lower id source u))
        (λ n. index_tokens-Keeps c to_lower now id us)

-- The part of `IndexAsset` before the tokens.
first_part-kept :
    (now : ℕ) (id index_id : String) (u : AssetUpdates) (w : World Store)
    → StoreKept u.source w.store
        (caught
          (find_one asset_collection (has_asset_id index_id))
          (insert_or_update_asset now id index_id u)
          w).1.store
first_part-kept now id index_id u w =
    let same = store-find_one asset_collection (has_asset_id index_id) w in
    subst
      (λ s.
        StoreKept u.source s
          (caught (find_one asset_collection (has_asset_id index_id))
            (insert_or_update_asset now id index_id u) w).1.store)
      same
      (insert_or_update_asset-kept u.source now id index_id u
        (find_one asset_collection (has_asset_id index_id) w).1
        (find_one asset_collection (has_asset_id index_id) w).0 refl
        (λ a e.
          subst⁻¹ (λ s. find_first (has_asset_id index_id) s.assets ≡ some a) same
            (found-find_one asset_collection (has_asset_id index_id) w e)))

-- Whichever calls fail, IndexAsset removes no token and no asset. It changes a token only if the
-- source may update it, then only in the fields of an update, and a minting time that is set
-- stays. It changes an asset only if the source may update it, and then neither its origin
-- metadata nor its source.
pub index_asset-kept :
    (c : Chains) (to_lower : String → String) (now : ℕ) (id : String) (u : AssetUpdates)
    (w : World Store)
    → StoreKept u.source w.store (index_asset c to_lower now id u w).1.store
unfolding index_asset
index_asset-kept c to_lower now id u w =
    Keeps-and_then (StoreKept u.source) (StoreKept-trans u.source) w.store _ _
      (first_part-kept now id _ (record u { project_metadata = dated now u.project_metadata }) w)
      (λ n. index_tokens-Keeps u.source c to_lower now id u.tokens)
