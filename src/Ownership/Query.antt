-- ===== src/Ownership/Query.antt =====
-- `FilterBurnedIndexIDs` of store.go against what it promises, id by id.
use ff_indexer.Prelude.{
  String, List, [], ◌∷◌, Bool, true, not, ◌&&◌, map, ◌==◌, ◌≡◌, refl, inl, inr, arith, exists,
  one_of, Bool-cases, eq_iff, eq_refl, ap,
}
use mathlib.Core.Path.{subst⁻¹}
use ff_indexer.Exec.{calm, ok, perform, pure}
use ff_indexer.Mongo.{find, select}
use ff_indexer.Catalog.{Token, Store}
use ff_indexer.Ownership.{filter_burned_index_ids}

-- Whether a token of this id is marked as burned.
abbrev pub is_burned_id : List Token → String → Bool
is_burned_id ts id = exists (λ t. t.index_id == id && t.burned) ts

-- Among the ids asked for, the found burned tokens name the burned ids.
one_of-burned :
    (ids : List String) (ts : List Token) (id : String)
    → one_of ids id ≡ true
    → one_of (map (λ t. t.index_id) (select (λ t. one_of ids t.index_id && t.burned) ts)) id
      ≡ is_burned_id ts id
unfolding select exists
one_of-burned ids [] id asked = refl
one_of-burned ids (t ∷ ts) id asked = elim (Bool-cases (t.index_id == id)) [
  | inl e ↦ ground (
    arith,
    subst⁻¹ (λ i. one_of ids i ≡ true) ((eq_iff t.index_id id).0 e) asked,
    one_of-burned ids ts id asked,
  )
  | inr e ↦ ground (arith, one_of-burned ids ts id asked)
]

select_ext :
    (p q : String → Bool) (xs ids : List String)
    → ((id : String) → one_of ids id ≡ true → p id ≡ q id)
    → ((id : String) → one_of xs id ≡ true → one_of ids id ≡ true)
    → select p xs ≡ select q xs
unfolding select
select_ext p q [] ids same sub = refl
select_ext p q (x ∷ xs) ids same sub =
    rw (same x (sub x (rw (eq_refl x))))
      (rw (select_ext p q xs ids same λ id h. sub id (ground (arith, h))))

-- Where no call fails, FilterBurnedIndexIDs keeps in order, with their repetitions, just the ids
-- of which no token is burned, and changes nothing.
pub filter_burned_index_ids_lem :
    (ids : List String) (s : Store)
    → filter_burned_index_ids ids (calm s)
      ≡ (ok (select (λ id. not (is_burned_id s.tokens id)) ids), calm s)
unfolding filter_burned_index_ids find perform pure
filter_burned_index_ids_lem ids s =
    ap (λ l. (ok l, calm s))
      (select_ext _ _ ids ids (λ id h. ap not (one_of-burned ids s.tokens id h)) (λ id h. h))
