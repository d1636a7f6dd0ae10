-- ===== src/Demo/Real.antt =====
-- `IndexDemoTokens` and `DeleteDemoTokens` of store.go, and the tokens that are no demo.
use ff_indexer.Prelude.{
  String, List, [], ◌∷◌, ◌++◌, Bool, true, not, ◌≡◌, inl, inr, refl, ◌∙◌, update_first, update_all,
  remove_all, Bool-cases, arith,
}
use ff_indexer.Exec.{Result, ok, err, no_documents}
use ff_indexer.Exec.Keeps.{Keeps, Keeps-pure, Keeps-fail, Keeps-perform, Keeps-bind, Keeps-caught}
use ff_indexer.Mongo.{find_one, insert_one, update_one, update_many, delete_many, select}
use ff_indexer.Catalog.{Token, Store, token_collection, has_index_id}
use ff_indexer.Demo.{
  delete_demo_tokens, index_demo_tokens, index_each_demo_token, index_demo_token, copy_or_join,
  is_demo_of, without_owner, with_demo_owner, demo_copy, demo_token_prefix,
}

-- The tokens that are no demo, in order.
abbrev pub real_tokens : List Token → List Token
real_tokens = select (λ t. not t.is_demo)

-- Everything in the store but the demo tokens is the same.
abbrev pub SameReal : Store → Store → Type 0
SameReal s t =
    (real_tokens t.tokens ≡ real_tokens s.tokens)
    × (t.assets ≡ s.assets)
    × (t.account_tokens ≡ s.account_tokens)
    × (t.collection_assets ≡ s.collection_assets)
    × (t.collections ≡ s.collections)

SameReal-refl : (s : Store) → SameReal s s
SameReal-refl s = (refl, refl, refl, refl, refl)

SameReal-trans : (s t u : Store) → SameReal s t → SameReal t u → SameReal s u
SameReal-trans s t u (a, b, c, d, i) (e, f, g, h, j) = (e ∙ a, f ∙ b, g ∙ c, h ∙ d, j ∙ i)

-- A change of demo tokens to demo tokens is not seen.
module _ (p : Token → Bool) (demo : (t : Token) → p t ≡ true → t.is_demo ≡ true) where
  real-remove_all : (l : List Token) → real_tokens (remove_all p l) ≡ real_tokens l
  unfolding select remove_all
  real-remove_all [] = refl
  real-remove_all (t ∷ l) = elim (Bool-cases (p t)) [
    | inl e ↦ rw (e, demo t e, real-remove_all l) refl
    | inr e ↦ rw (e, real-remove_all l) refl
  ]

  module _ (f : Token → Token) (kept : (t : Token) → (f t).is_demo ≡ t.is_demo) where
    real-update_all : (l : List Token) → real_tokens (update_all p f l) ≡ real_tokens l
    unfolding select update_all
    real-update_all [] = refl
    real-update_all (t ∷ l) = elim (Bool-cases (p t)) [
      | inl e ↦ rw (e, kept t, demo t e, real-update_all l) refl
      | inr e ↦ rw (e, real-update_all l) refl
    ]

    real-update_first : (l : List Token) → real_tokens (update_first p f l) ≡ real_tokens l
    unfolding select update_first
    real-update_first [] = refl
    real-update_first (t ∷ l) = elim (Bool-cases (p t)) [
      | inl e ↦ rw (e, kept t, demo t e) refl
      | inr e ↦ rw (e, real-update_first l) refl
    ]

real-append :
    (l : List Token) (t : Token) → t.is_demo ≡ true → real_tokens (l ++ t ∷ []) ≡ real_tokens l
unfolding select
real-append [] t demo = rw demo refl
real-append (x ∷ l) t demo = rw (real-append l t demo) refl

delete_demo_tokens-Keeps : (owner : String) → Keeps SameReal (delete_demo_tokens owner)
unfolding delete_demo_tokens delete_many update_many
delete_demo_tokens-Keeps owner =
    Keeps-bind SameReal SameReal-trans _ _
      (Keeps-perform SameReal SameReal-refl _
        λ s. (real-remove_all _ (λ t h. ground arith) s.tokens, refl, refl, refl, refl))
      λ u. Keeps-perform SameReal SameReal-refl _ λ s. (
        real-update_all _ (λ t h. ground arith) (without_owner owner) (λ t. refl) s.tokens,
        refl,
        refl,
        refl,
        refl,
      )

find_one-Keeps : (p : Token → Bool) → Keeps SameReal (find_one token_collection p)
unfolding find_one
find_one-Keeps p = Keeps-perform SameReal SameReal-refl _ λ s. SameReal-refl s

insert_copy-Keeps : (t : Token) → t.is_demo ≡ true → Keeps SameReal (insert_one token_collection t)
unfolding insert_one
insert_copy-Keeps t demo =
    Keeps-perform SameReal SameReal-refl _
      λ s. (real-append s.tokens t demo, refl, refl, refl, refl)

copy_or_join-Keeps :
    (owner index_id demo_index_id : String) (r : Result Token)
    → Keeps SameReal (copy_or_join owner index_id demo_index_id r)
unfolding update_one
copy_or_join-Keeps owner index_id demo_index_id (ok found) =
    Keeps-bind SameReal SameReal-trans _ _
      (Keeps-perform SameReal SameReal-refl _ λ s. (
        real-update_first _ (λ t h. ground arith) (with_demo_owner owner) (λ t. refl) s.tokens,
        refl,
        refl,
        refl,
        refl,
      ))
      λ matched. Keeps-pure SameReal SameReal-refl tt
copy_or_join-Keeps owner index_id demo_index_id (err no_documents) =
    Keeps-bind SameReal SameReal-trans _ _ (find_one-Keeps (has_index_id index_id))
      λ t. insert_copy-Keeps (demo_copy owner demo_index_id t) refl
copy_or_join-Keeps owner index_id demo_index_id (err e) = Keeps-fail SameReal SameReal-refl _ e

index_each_demo_token-Keeps :
    (owner : String) (index_ids : List String)
    → Keeps SameReal (index_each_demo_token owner index_ids)
unfolding index_each_demo_token index_demo_token
index_each_demo_token-Keeps owner [] = Keeps-pure SameReal SameReal-refl tt
index_each_demo_token-Keeps owner (index_id ∷ index_ids) =
    Keeps-bind SameReal SameReal-trans _ _
      (Keeps-caught SameReal SameReal-trans
        (find_one token_collection (is_demo_of (demo_token_prefix index_id)))
        (copy_or_join owner index_id (demo_token_prefix index_id))
        (find_one-Keeps (is_demo_of (demo_token_prefix index_id)))
        (copy_or_join-Keeps owner index_id (demo_token_prefix index_id)))
      λ u. index_each_demo_token-Keeps owner index_ids

-- Whichever calls fail, IndexDemoTokens leaves the tokens that are no demo as they are and in
-- order, and so the assets, account tokens and collections.
pub index_demo_tokens-SameReal :
    (owner : String) (index_ids : List String) → Keeps SameReal (index_demo_tokens owner index_ids)
unfolding index_demo_tokens
index_demo_tokens-SameReal owner index_ids =
    Keeps-bind SameReal SameReal-trans _ _ (delete_demo_tokens-Keeps owner)
      λ u. index_each_demo_token-Keeps owner index_ids
