-- ===== src/Ownership/Single.antt =====
-- Tokens with one owner: `UpdateOwner`, `UpdateTokenProvenance` and `PushProvenance` of store.go.
use ff_indexer.Prelude.{
  ℕ, String, List, [], ◌∷◌, Bool, true, not, ◌&&◌, some, ◌==◌, ◌≡◌, ◌≢◌, ◌⊎◌, refl, inl, inr, arith,
  ltb, if◌then◌else◌, All, find_first, update_first, All-update_first, Implies, find_first_lem,
  AtMostOne, find_first-update_first, exists-of_only, update_first-none, Bool-cases, eq_iff,
}
use mathlib.Core.Path.{subst⁻¹}
use ff_indexer.Exec.{calm, World, Exec, perform, pure, fail}
use ff_indexer.Mongo.{update_one}
use ff_indexer.Catalog.{Token, Provenance, Store, has_index_id}
use ff_indexer.IndexId.{is_burn_address}
use ff_indexer.Ownership.{
  owned_by, is_older_single, update_owner, set_provenance, update_token_provenance, is_locked_at,
  prepend_provenance, push_provenance,
}

-- A token is fungible, or its owners are the one owner that it names.
abbrev pub IsSingle : Token → Type 0
IsSingle t =
    (t.fungible ≡ true) ⊎ ((t.owners ≡ (t.owner, 1) ∷ []) × (t.owners_array ≡ t.owner ∷ []))

-- What a method leaves of the tokens is what they were, or one of them changed.
abbrev OneChanged : (Token → Bool) → (Token → Token) → List Token → List Token → Type 0
OneChanged p f before after = (after ≡ before) ⊎ (after ≡ update_first p f before)

module _ (w : World Store) where
  update_owner_lem :
      (environment : String) (now : ℕ) (index_id owner : String) (updated_at : ℕ)
      → OneChanged
          (is_older_single index_id updated_at)
          (λ t. record (owned_by owner updated_at now t) {
            burned = is_burn_address owner environment;
          })
          w.store.tokens
          (update_owner environment now index_id owner updated_at w).1.store.tokens
  unfolding update_owner update_one perform pure
  update_owner_lem environment now index_id owner updated_at = ground arith

  update_token_provenance_lem :
      (now : ℕ) (index_id : String) (p : Provenance) (ps : List Provenance)
      → OneChanged
          (has_index_id index_id)
          (set_provenance now p ps)
          w.store.tokens
          (update_token_provenance now index_id (p ∷ ps) w).1.store.tokens
  unfolding update_token_provenance update_one perform pure
  update_token_provenance_lem now index_id p ps = ground arith

  push_provenance_lem :
      (now : ℕ) (index_id : String) (locked_time : ℕ) (p : Provenance)
      → OneChanged
          (is_locked_at index_id locked_time p.timestamp)
          (prepend_provenance now p)
          w.store.tokens
          (push_provenance now index_id locked_time p w).1.store.tokens
  unfolding push_provenance update_one perform pure fail
  push_provenance_lem now index_id locked_time p = ground arith

-- A change of one token that makes or keeps it single.
changed-IsSingle :
    (p : Token → Bool) (f : Token → Token) (before after : List Token)
    → ((t : Token) → IsSingle (f t))
    → OneChanged p f before after
    → All IsSingle before
    → All IsSingle after
changed-IsSingle p f before after single (inl same) all = subst⁻¹ (All IsSingle) same all
changed-IsSingle p f before after single (inr moved) all =
    subst⁻¹ (All IsSingle) moved (All-update_first p f IsSingle (λ t _ _. single t) before all)

-- The three methods as one type of calls.
pub data OwnerCall : Type 0 where
  change_owner : String → ℕ → String → String → ℕ → OwnerCall
  change_provenance : ℕ → String → List Provenance → OwnerCall
  append_provenance : ℕ → String → ℕ → Provenance → OwnerCall

abbrev pub run_call : OwnerCall → Exec Store (Unit {0})
run_call (change_owner environment now index_id owner updated_at) =
    update_owner environment now index_id owner updated_at
run_call (change_provenance now index_id ps) = update_token_provenance now index_id ps
run_call (append_provenance now index_id locked_time p) = push_provenance now index_id locked_time p

abbrev pub run_calls : List OwnerCall → World Store → World Store
run_calls [] w = w
run_calls (c ∷ cs) w = run_calls cs (run_call c w).1

set_provenance-IsSingle :
    (now : ℕ) (p : Provenance) (ps : List Provenance) (t : Token)
    → IsSingle (set_provenance now p ps t)
unfolding set_provenance
set_provenance-IsSingle now p ps t = inr (refl, refl)

prepend_provenance-IsSingle :
    (now : ℕ) (p : Provenance) (t : Token) → IsSingle (prepend_provenance now p t)
unfolding prepend_provenance
prepend_provenance-IsSingle now p t = inr (refl, refl)

run_call-IsSingle :
    (c : OwnerCall) (w : World Store)
    → All IsSingle w.store.tokens
    → All IsSingle (run_call c w).1.store.tokens
run_call-IsSingle (change_owner environment now index_id owner updated_at) w all =
    changed-IsSingle _ _ w.store.tokens _ (λ t. inr (refl, refl))
      (update_owner_lem w environment now index_id owner updated_at) all
run_call-IsSingle (change_provenance now index_id []) w all =
    unfold update_token_provenance pure in all
run_call-IsSingle (change_provenance now index_id (p ∷ ps)) w all =
    changed-IsSingle _ _ w.store.tokens _ (set_provenance-IsSingle now p ps)
      (update_token_provenance_lem w now index_id p ps) all
run_call-IsSingle (append_provenance now index_id locked_time p) w all =
    changed-IsSingle _ _ w.store.tokens _ (prepend_provenance-IsSingle now p)
      (push_provenance_lem w now index_id locked_time p) all

-- If each token is fungible or its owners are just its owner, that stays so under any calls of
-- UpdateOwner, UpdateTokenProvenance and PushProvenance, whichever calls of the database fail.
pub run_calls-IsSingle :
    (cs : List OwnerCall) (w : World Store)
    → All IsSingle w.store.tokens
    → All IsSingle (run_calls cs w).store.tokens
run_calls-IsSingle [] w all = all
run_calls-IsSingle (c ∷ cs) w all =
    run_calls-IsSingle cs (run_call c w).1 (run_call-IsSingle c w all)

-- What `UpdateOwner` makes of the token it is called for.
abbrev pub with_owner : String → ℕ → String → ℕ → Token → Token
with_owner environment now owner updated_at t =
    if not t.fungible && ltb t.last_activity_time updated_at
    then record (owned_by owner updated_at now t) { burned = is_burn_address owner environment }
    else t

update_owner-store :
    (environment : String) (now : ℕ) (index_id owner : String) (updated_at : ℕ) (s : Store)
    → owner ≢ ""
    → (update_owner environment now index_id owner updated_at (calm s)).1.store.tokens
      ≡ update_first
          (is_older_single index_id updated_at)
          (λ t. record (owned_by owner updated_at now t) {
            burned = is_burn_address owner environment;
          })
          s.tokens
unfolding update_owner update_one perform pure
update_owner-store environment now index_id owner updated_at s named =
    elim (Bool-cases (owner == "")) [
      | inl e ↦ elim (named ((eq_iff owner "").0 e)) [ ]
      | inr e ↦ rw e
    ]

is_older_single-Implies :
    (index_id : String) (updated_at : ℕ)
    → Implies (is_older_single index_id updated_at) (has_index_id index_id)
is_older_single-Implies index_id updated_at t h = ground arith

-- Where index ids are unique and no call fails, after UpdateOwner with an owner that is not empty
-- the token is found with that owner if it is not fungible and its last activity is older;
-- otherwise it is found as it was.
pub find-update_owner :
    (environment : String) (now : ℕ) (index_id owner : String) (updated_at : ℕ) (s : Store)
    (t : Token)
    → AtMostOne (has_index_id index_id) s.tokens
    → find_first (has_index_id index_id) s.tokens ≡ some t
    → owner ≢ ""
    → find_first
        (has_index_id index_id)
        (update_owner environment now index_id owner updated_at (calm s)).1.store.tokens
      ≡ some (with_owner environment now owner updated_at t)
find-update_owner environment now index_id owner updated_at s t one found named =
    rw (update_owner-store environment now index_id owner updated_at s named)
      (elim (Bool-cases (not t.fungible && ltb t.last_activity_time updated_at)) [
        | inl e ↦ rw e (
            find_first-update_first _ _ (has_index_id index_id)
              (is_older_single-Implies index_id updated_at) s.tokens found
              (ground (arith, find_first_lem (has_index_id index_id) s.tokens found))
              (find_first_lem (has_index_id index_id) s.tokens found))
        | inr e ↦ rw e (
            subst⁻¹ (λ l. find_first (has_index_id index_id) l ≡ some t)
              (update_first-none _ _ s.tokens (
                exists-of_only _ (has_index_id index_id)
                  (is_older_single-Implies index_id updated_at) s.tokens one found (ground arith)))
              found)
      ])
