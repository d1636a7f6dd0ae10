-- ===== src/Handlers/Owner.antt =====
-- What `updateLatestOwner` of services/event-processor/token_event_processor.go makes of a token.
use ff_indexer.Prelude.{
  ℕ, String, List, [], ◌∷◌, Bool, true, false, not, ◌&&◌, none, some, ◌==◌, ◌≡◌, ◌≢◌, inl, inr,
  refl, sym, ap, ◌∙◌, arith, ltb, if◌then◌else◌, one_of, find_first, find_first_lem,
  find_first-update_first, update_first, update_first-none, exists, exists-of_passing,
  exists-of_only, AtMostOne, Bool-cases, eq_iff, eqb_refl,
}
use mathlib.Core.Path.{subst⁻¹}
use ff_indexer.Exec.{
  Result, ok, err, no_record_updated, unique_violation, World, calm, Exec, perform, pure, fail,
  caught, and_then, ◌>>◌,
}
use ff_indexer.Exec.Keeps.{Keeps, Keeps-pure, Keeps-fail, Keeps-perform, Keeps-bind, Keeps-caught}
use ff_indexer.Mongo.{find, update_one, select}
use ff_indexer.Catalog.{Token, AccountToken, Store, has_duplicates, has_index_id}
use ff_indexer.IndexId.{Chains, is_burn_address}
use ff_indexer.Ownership.{
  get_token_by_index_id, get_tokens_by_index_ids, first_token, push_provenance, is_locked_at,
  prepend_provenance,
}
use ff_indexer.Ownership.Single.{find-update_owner}
use ff_indexer.Accounts.{
  upserted, try_upsert, skip_duplicate, index_account_token, index_account_tokens,
}
use ff_indexer.Events.{NftEvent, transfer}
use ff_indexer.Handlers.{
  Gateway, on_store, event_index_id, transferred, or_update_owner, received_token,
  update_latest_owner, tx_url,
}

-- Indexing account tokens leaves the tokens alone.
abbrev SameTokens : Store → Store → Type 0
SameTokens s s' = s'.tokens ≡ s.tokens

SameTokens-trans : (s t u : Store) → SameTokens s t → SameTokens t u → SameTokens s u
SameTokens-trans s t u g h = h ∙ g

try_upsert-SameTokens :
    (owner : String) (t : AccountToken) (s : Store) → SameTokens s (try_upsert owner t s).1
try_upsert-SameTokens owner t s =
    elim (Bool-cases (has_duplicates (upserted owner t s.account_tokens))) [
      | inl e ↦ rw e refl
      | inr e ↦ rw e refl
    ]

skip_duplicate-SameTokens : (r : Result (Unit {0})) → Keeps SameTokens (skip_duplicate r)
skip_duplicate-SameTokens (ok u) = Keeps-pure SameTokens (λ s. refl) tt
skip_duplicate-SameTokens (err unique_violation) = Keeps-pure SameTokens (λ s. refl) tt
skip_duplicate-SameTokens (err e) = Keeps-fail SameTokens (λ s. refl) (Unit {0}) e

index_account_tokens-SameTokens :
    (owner : String) (ts : List AccountToken) → Keeps SameTokens (index_account_tokens owner ts)
unfolding index_account_tokens index_account_token
index_account_tokens-SameTokens owner [] = Keeps-pure SameTokens (λ s. refl) tt
index_account_tokens-SameTokens owner (t ∷ ts) =
    Keeps-bind SameTokens SameTokens-trans _ _
      (Keeps-caught SameTokens SameTokens-trans _ skip_duplicate
        (Keeps-perform SameTokens (λ s. refl) _ (try_upsert-SameTokens owner t))
        skip_duplicate-SameTokens)
      (λ n. index_account_tokens-SameTokens owner ts)

eq_comm : (s t : String) → (s == t) ≡ (t == s)
eq_comm s t = elim (Bool-cases (s == t)) [
  | inl e ↦ e ∙ sym ((eq_iff t s).1 (sym ((eq_iff s t).0 e)))
  | inr e ↦ elim (Bool-cases (t == s)) [
    | inl f ↦ let g = (eq_iff s t).1 (sym ((eq_iff t s).0 f)) in cc
    | inr f ↦ e ∙ sym f
  ]
]

first_token-select :
    (id : String) (ts : List Token)
    → first_token (select (λ t. one_of (id ∷ []) t.index_id) ts) ≡ find_first (has_index_id id) ts
unfolding select find_first
first_token-select id [] = refl
first_token-select id (t ∷ ts) = elim (Bool-cases (t.index_id == id)) [
  | inl e ↦ rw (e, eq_comm id t.index_id ∙ e)
  | inr e ↦ rw (e, eq_comm id t.index_id ∙ e) (first_token-select id ts)
]

run-get_token_by_index_id :
    (id : String) (s : Store)
    → get_token_by_index_id id (calm s) ≡ (ok (find_first (has_index_id id) s.tokens), calm s)
unfolding get_token_by_index_id get_tokens_by_index_ids find perform pure
run-get_token_by_index_id id s = ap (λ o. (ok o, calm s)) (first_token-select id s.tokens)

unless_fungible :
    {A : Type 0} (fungible x : Bool) (a b : A)
    → fungible ≡ false
    → (if not fungible && x then a else b) ≡ (if x then a else b)
unless_fungible true x a b h = cc
unless_fungible false x a b h = refl

abbrev tokens_of : Result (Unit {0}) × World Gateway → List Token
tokens_of p = p.1.store.indexer.tokens

then-index_account_tokens :
    (p : Result (Unit {0}) × World Gateway) (owner : String) (ts : List AccountToken)
    → tokens_of (and_then p λ _. on_store (index_account_tokens owner ts)) ≡ tokens_of p
unfolding on_store
then-index_account_tokens (ok u, w) owner ts =
    index_account_tokens-SameTokens owner ts (record { store = w.store.indexer; faults = w.faults })
then-index_account_tokens (err e, w) owner ts = refl

module _ (c : Chains) (environment : String) (now : ℕ) (e : NftEvent) where
  -- What the handler makes of a token: the provenance is pushed if the transfer is later than the
  -- last activity, and else only the owner is updated, if the event was received after it.
  abbrev pub after_transfer : Token → Token
  after_transfer t =
      if ltb t.last_activity_time e.tx_time
      then record t {
        owner = e.to;
        owners = (e.to, 1) ∷ [];
        owners_array = e.to ∷ [];
        provenances =
            record {
              former_owner = none;
              type = e.type;
              owner = e.to;
              blockchain = e.blockchain;
              block_number = none;
              timestamp = e.tx_time;
              tx_id = e.tx_id;
              tx_url = tx_url c e.blockchain environment e.tx_id;
            }
            ∷ t.provenances;
        last_activity_time = e.tx_time;
        last_refreshed_time = now;
      }
      else if ltb t.last_activity_time e.created_at
      then record t {
        owner = e.to;
        owners = (e.to, 1) ∷ [];
        owners_array = e.to ∷ [];
        burned = is_burn_address e.to environment;
        last_activity_time = e.created_at;
        last_refreshed_time = now;
      }
      else t

  module _ (s : Store) (t : Token) where
    abbrev pushed : Result (Unit {0}) × World Store
    pushed =
        push_provenance now (event_index_id c e) t.last_refreshed_time
          (transferred c environment now e) (calm s)

    won :
        exists (is_locked_at (event_index_id c e) t.last_refreshed_time e.tx_time) s.tokens ≡ true
        → pushed ≡ (
          ok tt,
          calm (record s {
            tokens =
                update_first
                  (is_locked_at (event_index_id c e) t.last_refreshed_time e.tx_time)
                  (prepend_provenance now (transferred c environment now e))
                  s.tokens;
          }),
        )
    unfolding push_provenance update_one perform pure
    won h = rw h

    lost :
        exists (is_locked_at (event_index_id c e) t.last_refreshed_time e.tx_time) s.tokens ≡ false
        → pushed ≡ (err no_record_updated, calm s)
    unfolding push_provenance update_one perform pure fail
    lost h = rw h (
        rw (
          update_first-none _ (prepend_provenance now (transferred c environment now e)) s.tokens
            h))

  is_locked-Implies :
      (locked : ℕ) (x : Token)
      → is_locked_at (event_index_id c e) locked e.tx_time x ≡ true
      → has_index_id (event_index_id c e) x ≡ true
  is_locked-Implies locked x h = ground arith

  first_part :
      (g : Gateway) (t : Token)
      → AtMostOne (has_index_id (event_index_id c e)) g.indexer.tokens
      → find_first (has_index_id (event_index_id c e)) g.indexer.tokens ≡ some t
      → t.fungible ≡ false
      → e.to ≢ ""
      → find_first (has_index_id (event_index_id c e)) (
          tokens_of (
            caught
              (on_store (
                push_provenance now
                  (event_index_id c e)
                  t.last_refreshed_time
                  (transferred c environment now e)))
              (or_update_owner c environment now e)
              (calm g)))
        ≡ some (after_transfer t)
  unfolding on_store pure prepend_provenance
  first_part g t one found single named = elim (Bool-cases (ltb t.last_activity_time e.tx_time)) [
    | inl later ↦ rw later (
        rw (won g.indexer t (exists-of_passing _ _ g.indexer.tokens found (locked later))) (
          find_first-update_first _ _ (has_index_id (event_index_id c e))
            (is_locked-Implies t.last_refreshed_time) g.indexer.tokens found (locked later)
            (find_first_lem _ g.indexer.tokens found)))
    | inr late ↦ rw late (
        rw
          (lost g.indexer t (
            exists-of_only _ _ (is_locked-Implies t.last_refreshed_time) g.indexer.tokens one found
              (ground arith)))
          (find-update_owner environment now (event_index_id c e) e.to e.created_at g.indexer t one
              found named
            ∙ ap some
                (unless_fungible t.fungible (ltb t.last_activity_time e.created_at) _ t single)))
  ]
    where
      locked :
          ltb t.last_activity_time e.tx_time ≡ true
          → is_locked_at (event_index_id c e) t.last_refreshed_time e.tx_time t ≡ true
      locked later =
          ground (arith, find_first_lem _ g.indexer.tokens found, eqb_refl t.last_refreshed_time)

  -- Where no call fails, take a transfer to an owner that is not empty, of a token that is found,
  -- is not fungible and whose index id is unique. If the transfer is later than the last activity
  -- of the token, the token afterwards has the receiver as its only owner, a provenance of the
  -- transfer without a former owner before its provenances, the time of the transfer as its last
  -- activity and now as its refresh time. If it is not, but the event was received after the last
  -- activity, the token has the receiver as its only owner, is burned if that is a burn address,
  -- has the time of receipt as its last activity and now as its refresh time, and keeps its
  -- provenances. Else it is unchanged.
  pub find-update_latest_owner :
      (g : Gateway) (t : Token)
      → AtMostOne (has_index_id (event_index_id c e)) g.indexer.tokens
      → find_first (has_index_id (event_index_id c e)) g.indexer.tokens ≡ some t
      → t.fungible ≡ false
      → e.to ≢ ""
      → e.type ≡ transfer
      → find_first
          (has_index_id (event_index_id c e))
          (update_latest_owner c environment now e (calm g)).1.store.indexer.tokens
        ≡ some (after_transfer t)
  unfolding update_latest_owner
  find-update_latest_owner g t one found single named transfers =
      rw ((eq_iff e.type transfer).1 transfers) (
        rw on_store_found (
          subst⁻¹
            (λ b.
              find_first (has_index_id (event_index_id c e))
                (tokens_of ((if b then pure tt else not_fungible) (calm g)))
              ≡ some (after_transfer t))
            single
            (subst⁻¹
              (λ l. find_first (has_index_id (event_index_id c e)) l ≡ some (after_transfer t))
              (then-index_account_tokens (pushed_or_updated (calm g)) e.to
                (received_token c environment now e t ∷ []))
              (first_part g t one found single named))))
    where
      pushed_or_updated : Exec Gateway (Unit {0})
      pushed_or_updated =
          caught
            (on_store (
              push_provenance now (event_index_id c e) t.last_refreshed_time
                (transferred c environment now e)))
            (or_update_owner c environment now e)

      not_fungible : Exec Gateway (Unit {0})
      not_fungible =
          pushed_or_updated
          >> on_store (index_account_tokens e.to (received_token c environment now e t ∷ []))

      on_store_found :
          on_store (get_token_by_index_id (event_index_id c e)) (calm g) ≡ (ok (some t), calm g)
      on_store_found =
          unfold on_store in
          rw (run-get_token_by_index_id (event_index_id c e) g.indexer) (rw found)
