-- ===== src/Assets/Update.antt =====
-- What `IndexAsset` of store.go makes of a token and of its row in a collection: the loop's body on
-- every branch.
use ff_indexer.Prelude.{
  ℕ, String, true, false, Option, none, some, ◌≡◌, ◌≢◌, inl, inr, refl, sym, ◌∙◌, ◌==◌, ◌||◌, eqb,
  if◌then◌else◌, find_first, update_first, find_first_lem, find_first-update_first,
  find_first-update_other, find_first-added, exists, List, ◌++◌, ◌∷◌, [], Bool-cases, Option-cases,
  eq_iff, ap, Bool, found-of_exists, update_first-none, eq_refl,
}
use mathlib.Core.Path.{subst⁻¹}
use ff_indexer.Exec.{calm, ok, pure, perform}
use ff_indexer.Mongo.{find_one, update_one, insert_one}
use ff_indexer.Catalog.{Token, CollectionAsset, Store, has_index_id}
use ff_indexer.Assets.{
  check_if_token_need_to_update, set_token, new_token, index_token, of_token, set_collection_asset,
}

exists-of_none :
    {A : Type 0} (p : A → Bool) (xs : List A) → find_first p xs ≡ none → exists p xs ≡ false
exists-of_none p xs h = elim (Bool-cases (exists p xs)) [
  | inl e ↦ let (x, found) = found-of_exists p xs e in cc
  | inr e ↦ e
]

-- A change of the first row that passes, if there is one.
abbrev changed : {A : Type 0} → (A → A) → Option A → Option A
changed f none = none
changed f (some a) = some (f a)

find_first-update_self :
    {A : Type 0} (p : A → Bool) (f : A → A)
    → ((a : A) → p a ≡ true → p (f a) ≡ true)
    → (xs : List A) → find_first p (update_first p f xs) ≡ changed f (find_first p xs)
find_first-update_self p f passes xs = elim (Option-cases (find_first p xs)) [
  | inl none_found ↦ rw (update_first-none p f xs (exists-of_none p xs none_found), none_found) refl
  | inr (a, found) ↦ rw found (
      find_first-update_first p f p (λ x h. h) xs found (find_first_lem p xs found)
        (passes a (find_first_lem p xs found)))
]

find_first-skipped :
    {A : Type 0} (p : A → Bool) (xs : List A) (a : A)
    → p a ≡ false
    → find_first p (xs ++ a ∷ []) ≡ find_first p xs
unfolding find_first
find_first-skipped p [] a h = rw h refl
find_first-skipped p (x ∷ xs) a h = rw (find_first-skipped p xs a h) refl

module _ (now : ℕ) (id source : String) (u : Token) where
  -- The token afterwards, given the one before.
  abbrev pub indexed : Option Token → Token
  indexed none = record u {
    owners_array = (if u.owner == "" then u.owners_array else u.owner ∷ []);
    owners = (if u.owner == "" then u.owners else (u.owner, 1) ∷ []);
    last_activity_time = (if eqb u.last_activity_time 0 then u.minted_at else u.last_activity_time);
  }
  indexed (some t) =
      if check_if_token_need_to_update source t
      then record t {
        base = record t.base {
          fungible = u.fungible || t.fungible;
          contract_address =
              (if u.contract_address == "" then t.contract_address else u.contract_address);
        };
        source = (if u.source == "" then t.source else u.source);
        asset_id = (if id == "" then t.asset_id else id);
        edition = (if eqb u.edition 0 then t.edition else u.edition);
        edition_name = (if u.edition_name == "" then t.edition_name else u.edition_name);
        minted_at =
            (if eqb t.minted_at 0
              then (if eqb u.minted_at 0 then t.minted_at else u.minted_at)
              else t.minted_at);
        last_refreshed_time = now;
        last_activity_time =
            (if eqb u.last_activity_time 0 then t.last_activity_time else u.last_activity_time);
      }
      else t

  -- The time and the edition of the row afterwards, given the token before.
  abbrev pub activity_of_row : Option Token → ℕ
  activity_of_row none = if eqb u.last_activity_time 0 then u.minted_at else u.last_activity_time
  activity_of_row (some t) =
      if check_if_token_need_to_update source t
      then (if eqb u.last_activity_time 0 then t.last_activity_time else u.last_activity_time)
      else t.last_activity_time

  abbrev pub edition_of_row : Option Token → ℕ
  edition_of_row none = u.edition
  edition_of_row (some t) = if check_if_token_need_to_update source t then u.edition else t.edition

  abbrev pub changed_row : Option Token → Option CollectionAsset → Option CollectionAsset
  changed_row before none = none
  changed_row before (some a) =
      some
        (record a { last_activity_time = activity_of_row before; edition = edition_of_row before })

  new_token-indexed : new_token u ≡ indexed none
  new_token-indexed = elim (Bool-cases (eqb u.last_activity_time 0)) [
    | inl e ↦ elim (Bool-cases (u.owner == "")) [ inl o ↦ rw (e, o) refl | inr o ↦ rw (e, o) refl ]
    | inr e ↦ elim (Bool-cases (u.owner == "")) [ inl o ↦ rw (e, o) refl | inr o ↦ rw (e, o) refl ]
  ]

  module _ (s : Store) where
    abbrev tokens_after : Option Token → List Token
    tokens_after none = s.tokens ++ new_token u ∷ []
    tokens_after (some t) =
        if check_if_token_need_to_update source t
        then update_first (has_index_id u.index_id) (set_token now id u t.minted_at) s.tokens
        else s.tokens

    abbrev updated_row : Option Token → CollectionAsset → CollectionAsset
    updated_row before = set_collection_asset (activity_of_row before) (edition_of_row before)

    run-index_token :
        (before : Option Token)
        → find_first (has_index_id u.index_id) s.tokens ≡ before
        → index_token now id source u (calm s) ≡ (
          ok tt,
          calm (record s {
            tokens = tokens_after before;
            collection_assets =
                update_first (of_token u.index_id) (updated_row before) s.collection_assets;
          }),
        )
    unfolding index_token find_one update_one insert_one perform pure
    run-index_token none found = elim (Bool-cases (eqb u.last_activity_time 0)) [
      | inl e ↦ rw (found, e) refl
      | inr e ↦ rw (found, e) refl
    ]
    run-index_token (some t) found = elim (Bool-cases (check_if_token_need_to_update source t)) [
      | inl e ↦ rw (found, e) refl
      | inr e ↦ rw (found, e) refl
    ]

    find-tokens_after :
        (before : Option Token)
        → find_first (has_index_id u.index_id) s.tokens ≡ before
        → find_first (has_index_id u.index_id) (tokens_after before) ≡ some (indexed before)
    unfolding set_token
    find-tokens_after none found =
        find_first-added (has_index_id u.index_id) s.tokens (new_token u)
          (exists-of_none (has_index_id u.index_id) s.tokens found)
          (subst⁻¹ (λ t. has_index_id u.index_id t ≡ true) new_token-indexed (eq_refl u.index_id))
        ∙ ap some new_token-indexed
    find-tokens_after (some t) found = elim (Bool-cases (check_if_token_need_to_update source t)) [
      | inl e ↦ rw e (
          find_first-update_first (has_index_id u.index_id) (set_token now id u t.minted_at)
            (has_index_id u.index_id) (λ x h. h) s.tokens found
            (find_first_lem (has_index_id u.index_id) s.tokens found)
            (find_first_lem (has_index_id u.index_id) s.tokens found))
      | inr e ↦ rw e found
    ]

    -- Other tokens are found as before.
    find-others :
        (before : Option Token) (other : String)
        → other ≢ u.index_id
        → find_first (has_index_id other) (tokens_after before)
          ≡ find_first (has_index_id other) s.tokens
    unfolding set_token
    find-others none other differ =
        find_first-skipped (has_index_id other) s.tokens (new_token u)
          (subst⁻¹ (λ t. has_index_id other t ≡ false) new_token-indexed (no_match u.index_id refl))
      where
        no_match : (i : String) → i ≡ u.index_id → (i == other) ≡ false
        no_match i e = elim (Bool-cases (i == other)) [
          | inl h ↦ absurd (differ (sym ((eq_iff i other).0 h) ∙ e))
          | inr h ↦ h
        ]
    find-others (some t) other differ = elim (Bool-cases (check_if_token_need_to_update source t)) [
      | inl e ↦ rw e (
          find_first-update_other (has_index_id other) (has_index_id u.index_id)
            (set_token now id u t.minted_at) apart apart s.tokens)
      | inr e ↦ rw e refl
    ]
      where
        apart : (x : Token) → has_index_id u.index_id x ≡ true → has_index_id other x ≡ false
        apart x h = elim (Bool-cases (has_index_id other x)) [
          | inl o ↦
              absurd
                (differ (sym ((eq_iff x.index_id other).0 o) ∙ (eq_iff x.index_id u.index_id).0 h))
          | inr o ↦ o
        ]

    -- Where no call fails, the part of IndexAsset for one token succeeds. If no token has the
    -- index id, the token is found afterwards, with its owner, if it has one, as its only owner,
    -- and the time of minting as its last activity if that is 0. If one is found and the source
    -- may update it, it is found with the new fields that are not empty, fungible if either is,
    -- with its own time of minting unless that is 0, and with now as its refresh time; if the
    -- source may not, it is found unchanged. What is found under another index id is found as
    -- before. The token's row in a collection, if there is one, gets the token's last activity
    -- and, where the token was inserted or updated, the edition that was given, even if that is 0,
    -- and else the edition of the token.
    pub find-index_token :
        (other : String)
        → other ≢ u.index_id
        → let before = find_first (has_index_id u.index_id) s.tokens in
          let after = (index_token now id source u (calm s)).1.store in
          ((index_token now id source u (calm s)).0 ≡ ok tt)
          × (find_first (has_index_id u.index_id) after.tokens ≡ some (indexed before))
          × (find_first (has_index_id other) after.tokens
              ≡ find_first (has_index_id other) s.tokens)
          × (find_first (of_token u.index_id) after.collection_assets
              ≡ changed_row before (find_first (of_token u.index_id) s.collection_assets))
    find-index_token other differ =
        let before = find_first (has_index_id u.index_id) s.tokens in
        rw (run-index_token before refl) (
          refl,
          find-tokens_after before refl,
          find-others before other differ,
          find_first-update_self (of_token u.index_id) (updated_row before) (λ a h. h)
                s.collection_assets
              ∙ row before (find_first (of_token u.index_id) s.collection_assets),
        )
      where
        row :
            (before : Option Token) (r : Option CollectionAsset)
            → changed (updated_row before) r ≡ changed_row before r
        row before none = refl
        row before (some a) = refl
