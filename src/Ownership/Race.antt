-- ===== src/Ownership/Race.antt =====
-- Two calls of `PushProvenance` of store.go that read the same version of a token.
use ff_indexer.Prelude.{
  ℕ, String, List, true, false, Option, none, some, ◌≡◌, ◌≢◌, refl, inl, inr, arith, exists,
  update_first, AtMostOne, Implies, exists-update_first, update_first-none, Bool-cases,
}
use mathlib.Core.Path.{subst⁻¹}
use ff_indexer.Exec.{calm, ok, err, perform, pure, fail, no_record_updated}
use ff_indexer.Mongo.{update_one}
use ff_indexer.Catalog.{Token, Provenance, Store, has_index_id}
use ff_indexer.Ownership.{push_for, is_locked_at, prepend_provenance, push_provenance}

module _ (now : ℕ) (index_id : String) (locked_time : ℕ) (p : Provenance) (s : Store) where
  pushed : List Token
  pushed =
      update_first (is_locked_at index_id locked_time p.timestamp) (prepend_provenance now p)
        s.tokens

  -- A push that succeeds has a former owner and found the token as it was locked.
  won-push_for :
      (o : Option String)
      → (push_for o now index_id locked_time p (calm s)).0 ≡ ok tt
      → (exists (is_locked_at index_id locked_time p.timestamp) s.tokens ≡ true)
        × ((push_for o now index_id locked_time p (calm s)).1 ≡ calm (record s { tokens = pushed }))
  unfolding update_one perform pure fail pushed
  won-push_for none won = cc
  won-push_for (some former) won =
      elim (Bool-cases (exists (is_locked_at index_id locked_time p.timestamp) s.tokens)) [
        | inl e ↦ (e, rw e)
        | inr e ↦ ground arith
      ]

  -- A push that finds no token as it was locked fails and changes nothing.
  lost-push_for :
      (o : Option String)
      → o ≢ none
      → exists (is_locked_at index_id locked_time p.timestamp) s.tokens ≡ false
      → push_for o now index_id locked_time p (calm s) ≡ (err no_record_updated, calm s)
  unfolding update_one perform pure fail
  lost-push_for none named none_left = elim (named refl) [ ]
  lost-push_for (some former) named none_left = rw none_left (
      rw (
        update_first-none (is_locked_at index_id locked_time p.timestamp) (prepend_provenance now p)
          s.tokens none_left))

is_locked_at-Implies :
    (index_id : String) (locked_time timestamp : ℕ)
    → Implies (is_locked_at index_id locked_time timestamp) (has_index_id index_id)
is_locked_at-Implies index_id locked_time timestamp t h = ground arith

-- A pushed token is no longer as it was locked.
gone :
    (now : ℕ) (index_id : String) (locked_time timestamp : ℕ) (p : Provenance)
    → now ≢ locked_time
    → (t : Token) → is_locked_at index_id locked_time timestamp (prepend_provenance now p t) ≡ false
unfolding prepend_provenance
gone now index_id locked_time timestamp p later t = ground arith

-- Where index ids are unique and no call fails, take two pushes of a provenance that read the same
-- version of a token, the second with a former owner. If the first succeeds and sets another
-- refresh time, the second fails with no record updated and changes nothing.
pub push_provenance_race :
    (now now' : ℕ) (index_id : String) (locked_time : ℕ) (p q : Provenance) (s : Store)
    → AtMostOne (has_index_id index_id) s.tokens
    → now ≢ locked_time
    → (push_provenance now index_id locked_time p (calm s)).0 ≡ ok tt
    → q.former_owner ≢ none
    → let first = (push_provenance now index_id locked_time p (calm s)).1 in
      push_provenance now' index_id locked_time q first ≡ (err no_record_updated, first)
unfolding push_provenance pushed
push_provenance_race now now' index_id locked_time p q s one later won named =
    let won' = won-push_for now index_id locked_time p s p.former_owner won in
    subst⁻¹ (λ w. push_provenance now' index_id locked_time q w ≡ (err no_record_updated, w)) won'.1
      (lost-push_for now' index_id locked_time q _ q.former_owner named (
        exists-update_first _ _ (has_index_id index_id) _
          (is_locked_at-Implies index_id locked_time p.timestamp)
          (is_locked_at-Implies index_id locked_time q.timestamp)
          (gone now index_id locked_time q.timestamp p later) s.tokens one won'.0))
