-- ===== src/Readers/Source.antt =====
-- `CheckAddressOwnTokenByCriteria` of store.go against what it asks.
use ff_indexer.Prelude.{
  ℕ, String, List, [], ◌∷◌, ◌++◌, Bool, false, ◌&&◌, ◌||◌, ◌==◌, ◌≡◌, inl, inr, refl, ap, ◌∙◌, eqb,
  if◌then◌else◌, map, length, one_of, one_of-append, exists, find_first, Bool-cases, arith,
}
use ff_indexer.Exec.{ok, World, Exec, calm, perform, pure}
use ff_indexer.Mongo.{find_one, find, select, or_no_documents}
use ff_indexer.Catalog.{Token, AccountToken, Store}
use ff_indexer.Paging.Pages.{join}
use ff_indexer.Readers.{
  Criteria, has_balance_of, is_of_source, slices_of, found_or_next, find_in_slices, is_found,
  check_address_own_token_in_source, check_address_own_token_has_index_id,
  check_address_own_token_by_criteria,
}

found_or_next_lem :
    (p : Token → Bool) (l : List Token) (next : Exec Store Bool) (b : Bool) (w : World Store)
    → next w ≡ (ok b, w)
    → found_or_next next (or_no_documents (find_first p l)) w ≡ (ok (exists p l || b), w)
unfolding find_first exists pure
found_or_next_lem p [] next b w h = h
found_or_next_lem p (t ∷ l) next b w h = elim (Bool-cases (p t)) [
  | inl e ↦ rw e refl
  | inr e ↦ rw e (found_or_next_lem p l next b w h)
]

exists-source_append :
    (source : String) (xs ys : List String) (l : List Token)
    → exists (is_of_source source (xs ++ ys)) l
      ≡ (exists (is_of_source source xs) l || exists (is_of_source source ys) l)
unfolding exists
exists-source_append source xs ys [] = refl
exists-source_append source xs ys (t ∷ l) =
    ground (arith, one_of-append xs ys t.index_id, exists-source_append source xs ys l)

exists-no_source : (source : String) (l : List Token) → exists (is_of_source source []) l ≡ false
unfolding exists
exists-no_source source [] = refl
exists-no_source source (t ∷ l) = ground (arith, exists-no_source source l)

run-find_in_slices :
    (source : String) (slices : List (List String)) (s : Store)
    → find_in_slices source slices (calm s)
      ≡ (ok (exists (is_of_source source (join slices)) s.tokens), calm s)
unfolding find_in_slices find_one perform pure
run-find_in_slices source [] s = rw (exists-no_source source s.tokens) refl
run-find_in_slices source (ids ∷ slices) s =
    rw (exists-source_append source ids (join slices) s.tokens) (
      found_or_next_lem (is_of_source source ids) s.tokens (find_in_slices source slices) _ (calm s)
        (run-find_in_slices source slices s))

-- Whether the address holds a token with an index id
abbrev pub holds : String → List AccountToken → String → Bool
holds address accounts index_id =
    exists (λ a. has_balance_of address a && a.index_id == index_id) accounts

one_of-held :
    (address : String) (accounts : List AccountToken) (index_id : String)
    → one_of (map (λ a. a.index_id) (select (has_balance_of address) accounts)) index_id
      ≡ holds address accounts index_id
unfolding select exists
one_of-held address [] index_id = refl
one_of-held address (a ∷ accounts) index_id = elim (Bool-cases (has_balance_of address a)) [
  | inl e ↦ rw (e, one_of-held address accounts index_id) refl
  | inr e ↦ rw (e, one_of-held address accounts index_id) refl
]

exists_ext :
    (p q : Token → Bool) → ((t : Token) → p t ≡ q t) → (l : List Token) → exists p l ≡ exists q l
unfolding exists
exists_ext p q same [] = refl
exists_ext p q same (t ∷ l) = rw (same t, exists_ext p q same l) refl

-- What the criteria ask: an account token of the id, or a token of the source that is held.
abbrev pub meets : String → Criteria → Store → Bool
meets address c s =
    if c.index_id == ""
    then (if c.source == ""
        then false
        else exists (λ t. holds address s.account_tokens t.index_id && t.source == c.source)
            s.tokens)
    else holds address s.account_tokens c.index_id

module _ (partition : ℕ → List (ℕ × ℕ))
    (covers_all : (l : List String) → join (slices_of l (partition (length l))) ≡ l) where
  run-in_ids :
      (source : String) (ids : List String) (s : Store)
      → (if eqb (length ids) 0
            then pure false
            else find_in_slices source (slices_of ids (partition (length ids))))
          (calm s)
        ≡ (ok (exists (is_of_source source ids) s.tokens), calm s)
  unfolding pure
  run-in_ids source [] s = rw (exists-no_source source s.tokens) refl
  run-in_ids source (i ∷ ids) s =
      let some_ids : eqb (length (i ∷ ids)) 0 ≡ false = ground arith in
      rw some_ids (
        run-find_in_slices source (slices_of (i ∷ ids) (partition (length (i ∷ ids)))) s
        ∙ ap (λ l. (ok (exists (is_of_source source l) s.tokens), calm s)) (covers_all (i ∷ ids)))

  run-in_source :
      (address source : String) (s : Store)
      → check_address_own_token_in_source partition address source (calm s) ≡ (
        ok (exists (λ t. holds address s.account_tokens t.index_id && t.source == source) s.tokens),
        calm s,
      )
  unfolding check_address_own_token_in_source find perform
  run-in_source address source s =
      run-in_ids source (map (λ a. a.index_id) (select (has_balance_of address) s.account_tokens)) s
      ∙ ap (λ b. (ok b, calm s))
          (exists_ext _ _
            (λ t.
              ap (λ b. b && t.source == source) (one_of-held address s.account_tokens t.index_id))
            s.tokens)

  is_found_lem :
      (p : AccountToken → Bool) (l : List AccountToken) (s : Store)
      → is_found (or_no_documents (find_first p l)) (calm s) ≡ (ok (exists p l), calm s)
  unfolding find_first exists pure
  is_found_lem p [] s = refl
  is_found_lem p (a ∷ l) s = elim (Bool-cases (p a)) [
    | inl e ↦ rw e refl
    | inr e ↦ rw e (is_found_lem p l s)
  ]

  -- Where no call fails and the ranges of the partition cover a list in order:
  -- CheckAddressOwnTokenByCriteria tells whether the address has a balance of the index id, if one
  -- is given, and otherwise whether some token of the source, if one is given, has an index id of
  -- which the address has a balance.
  pub check_address_own_token_by_criteria_lem :
      (address : String) (c : Criteria) (s : Store)
      → check_address_own_token_by_criteria partition address c (calm s)
        ≡ (ok (meets address c s), calm s)
  unfolding check_address_own_token_by_criteria check_address_own_token_has_index_id find_one
      perform pure
  check_address_own_token_by_criteria_lem address c s = elim (Bool-cases (c.index_id == "")) [
    | inl e ↦ elim (Bool-cases (c.source == "")) [
      | inl f ↦ rw (e, f) refl
      | inr f ↦ rw (e, f) (run-in_source address c.source s)
    ]
    | inr e ↦ rw e (is_found_lem _ s.account_tokens s)
  ]
