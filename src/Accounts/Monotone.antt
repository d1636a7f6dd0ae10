-- ===== src/Accounts/Monotone.antt =====
-- `IndexAccountTokens` of store.go, and the activity times of account tokens.
use ff_indexer.Prelude.{
  ◌+◌, String, List, [], ◌∷◌, ◌++◌, true, false, some, ◌≡◌, ◌⊎◌, inl, inr, refl, sym, ◌∙◌, arith,
  ltb, exists, find_first, exists-of_only, exists-append, exists-of_found, AtMostOne, Bool-cases,
  eq_iff, Grown, Grown-refl, Grown-trans, Grown-append, Grown-update_passing,
}
use mathlib.Core.Path.{subst, subst⁻¹}
use ff_indexer.Exec.{Result, ok, err, unique_violation, World, calm, perform, pure}
use ff_indexer.Exec.Keeps.{Keeps, Keeps-pure, Keeps-fail, Keeps-perform, Keeps-bind, Keeps-caught}
use ff_indexer.Catalog.{AccountToken, Store, has_duplicates, same_account}
use ff_indexer.Accounts.{
  is_older_account, upserted, try_upsert, skip_duplicate, index_account_token, index_account_tokens,
  is_account,
}

-- An account token is as it was, or it is one of the same token that is newer by more than 15
-- seconds.
abbrev pub Newer : AccountToken → AccountToken → Type 0
Newer a a' =
    (a' ≡ a)
    ⊎ ((a'.index_id ≡ a.index_id) × (ltb (a.last_activity_time + 15) a'.last_activity_time ≡ true))

abbrev pub AccountsNewer : Store → Store → Type 0
AccountsNewer s s' = Grown Newer s.account_tokens s'.account_tokens

Newer-trans : (a b c : AccountToken) → Newer a b → Newer b c → Newer a c
Newer-trans a b c (inl e) h = subst (λ x. Newer x c) e h
Newer-trans a b c g (inl e) = subst⁻¹ (λ x. Newer a x) e g
Newer-trans a b c (inr (e, l)) (inr (e', l')) = inr (e' ∙ e, ground arith)

AccountsNewer-refl : (s : Store) → AccountsNewer s s
AccountsNewer-refl s = Grown-refl Newer (λ a. inl refl) s.account_tokens

AccountsNewer-trans : (s t u : Store) → AccountsNewer s t → AccountsNewer t u → AccountsNewer s u
AccountsNewer-trans s t u =
    Grown-trans Newer (λ a. inl refl) Newer-trans s.account_tokens t.account_tokens u.account_tokens

older-Newer : (owner : String) (t a : AccountToken) → is_older_account owner t a ≡ true → Newer a t
older-Newer owner t a h = inr (sym ((eq_iff a.index_id t.index_id).0 (ground arith)), ground arith)

upserted-Newer :
    (owner : String) (t : AccountToken) (accounts : List AccountToken)
    → Grown Newer accounts (upserted owner t accounts)
upserted-Newer owner t accounts = elim (Bool-cases (exists (is_older_account owner t) accounts)) [
  | inl e ↦ rw e (Grown-update_passing Newer (λ a. inl refl) _ _ (older-Newer owner t) accounts)
  | inr e ↦ rw e (Grown-append Newer (λ a. inl refl) accounts _)
]

try_upsert-Newer :
    (owner : String) (t : AccountToken) (s : Store) → AccountsNewer s (try_upsert owner t s).1
try_upsert-Newer owner t s =
    elim (Bool-cases (has_duplicates (upserted owner t s.account_tokens))) [
      | inl e ↦ rw e (AccountsNewer-refl s)
      | inr e ↦ rw e (upserted-Newer owner t s.account_tokens)
    ]

skip_duplicate-Keeps : (r : Result (Unit {0})) → Keeps AccountsNewer (skip_duplicate r)
skip_duplicate-Keeps (ok u) = Keeps-pure AccountsNewer AccountsNewer-refl tt
skip_duplicate-Keeps (err unique_violation) = Keeps-pure AccountsNewer AccountsNewer-refl tt
skip_duplicate-Keeps (err e) = Keeps-fail AccountsNewer AccountsNewer-refl (Unit {0}) e

-- Whichever calls fail, IndexAccountTokens removes no account token, and it changes one only to
-- one of the same index id whose last activity is newer by more than 15 seconds.
pub index_account_tokens-Newer :
    (owner : String) (ts : List AccountToken) (w : World Store)
    → AccountsNewer w.store (index_account_tokens owner ts w).1.store
unfolding index_account_tokens index_account_token
index_account_tokens-Newer owner [] = Keeps-pure AccountsNewer AccountsNewer-refl tt
index_account_tokens-Newer owner (t ∷ ts) =
    Keeps-bind AccountsNewer AccountsNewer-trans _ _
      (Keeps-caught AccountsNewer AccountsNewer-trans _ skip_duplicate
        (Keeps-perform AccountsNewer AccountsNewer-refl _ (try_upsert-Newer owner t))
        skip_duplicate-Keeps)
      (λ n. index_account_tokens-Newer owner ts)

-- A row of the same account stands before the last one.
duplicate_last :
    (accounts : List AccountToken) (t : AccountToken)
    → exists (λ a. same_account a t) accounts ≡ true
    → has_duplicates (accounts ++ t ∷ []) ≡ true
unfolding exists has_duplicates
duplicate_last [] t h = cc
duplicate_last (a ∷ accounts) t h =
    ground (arith, exists-append (same_account a) accounts t, duplicate_last accounts t)

is_older-Implies :
    (owner : String) (t a : AccountToken)
    → is_older_account owner t a ≡ true
    → is_account t.index_id owner a ≡ true
is_older-Implies owner t a h = ground arith

-- Where no call fails and the owner has one account token of the index id, IndexAccountTokens with
-- one that is not newer by more than 15 seconds returns no error and changes nothing.
pub index_account_tokens-stale :
    (owner : String) (t a : AccountToken) (s : Store)
    → t.owner_account ≡ owner
    → AtMostOne (is_account t.index_id owner) s.account_tokens
    → find_first (is_account t.index_id owner) s.account_tokens ≡ some a
    → ltb (a.last_activity_time + 15) t.last_activity_time ≡ false
    → index_account_tokens owner (t ∷ []) (calm s) ≡ (ok tt, calm s)
unfolding index_account_tokens index_account_token perform pure
index_account_tokens-stale owner t a s own one found stale =
    let none_older =
      exists-of_only (is_older_account owner t) (is_account t.index_id owner)
        (is_older-Implies owner t) s.account_tokens one found (ground arith) in
    let twice = duplicate_last s.account_tokens t (
      subst (λ o. exists (is_account t.index_id o) s.account_tokens ≡ true) (sym own)
        (exists-of_found (is_account t.index_id owner) s.account_tokens found)) in
    rw none_older (rw twice)
