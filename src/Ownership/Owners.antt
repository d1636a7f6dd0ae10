-- ===== src/Ownership/Owners.antt =====
-- The balances that `UpdateTokenOwners` of store.go writes, read back by address.
use ff_indexer.Prelude.{
  ℕ, String, List, [], ◌∷◌, Option, none, some, map, ◌==◌, ◌≡◌, refl, sym, ◌∙◌, inl, inr, arith,
  if◌then◌else◌, find_first, find_first_lem, find_first-update_first, Bool-cases, eq_iff,
}
use ff_indexer.Exec.{calm, perform, pure}
use ff_indexer.Mongo.{update_one}
use ff_indexer.Catalog.{Token, OwnerBalance, Store, has_index_id}
use ff_indexer.Ownership.{put_owner, owners_of, set_owners, update_token_owners}

-- The value of a key of a map.
abbrev pub lookup : String → List (String × ℕ) → Option ℕ
lookup a [] = none
lookup a ((b, n) ∷ rest) = let later = lookup a rest in if b == a then some n else later

-- The balance of the last entry for an address, or `before` if it has none.
abbrev pub last_balance : String → List OwnerBalance → Option ℕ → Option ℕ
last_balance a [] before = before
last_balance a (b ∷ bs) before =
    last_balance a bs (if b.address == a then some b.balance else before)

lookup-put_owner :
    (a c : String) (n : ℕ) (m : List (String × ℕ))
    → lookup a (put_owner c n m) ≡ (if c == a then some n else lookup a m)
unfolding put_owner
lookup-put_owner a c n [] = refl
lookup-put_owner a c n ((b, k) ∷ rest) = elim (Bool-cases (b == c)) [
  | inl e ↦ rw e (rw ((eq_iff b c).0 e) (ground arith))
  | inr e ↦ rw e (
      rw (lookup-put_owner a c n rest) (elim (Bool-cases (b == a)) [
        | inl ba ↦ elim (Bool-cases (c == a)) [
          | inl ca ↦ let same = (eq_iff b c).1 ((eq_iff b a).0 ba ∙ sym ((eq_iff c a).0 ca)) in cc
          | inr ca ↦ rw (ba, ca)
        ]
        | inr ba ↦ rw ba
      ]))
]

lookup-owners_of :
    (a : String) (bs : List OwnerBalance) (m : List (String × ℕ))
    → lookup a (owners_of m bs) ≡ last_balance a bs (lookup a m)
unfolding owners_of
lookup-owners_of a [] m = refl
lookup-owners_of a (b ∷ bs) m =
    rw (lookup-owners_of a bs (put_owner b.address b.balance m))
      (rw (lookup-put_owner a b.address b.balance m))

-- Where no call fails, after UpdateTokenOwners a token that was found is found with all the
-- addresses in order, and the balance of an address is that of its last entry.
pub find-update_token_owners :
    (now : ℕ) (index_id : String) (activity : ℕ) (b : OwnerBalance) (bs : List OwnerBalance)
    (s : Store) (t : Token)
    → find_first (has_index_id index_id) s.tokens ≡ some t
    → let after = set_owners now activity (b ∷ bs) t in
      (find_first
          (has_index_id index_id)
          (update_token_owners now index_id activity (b ∷ bs) (calm s)).1.store.tokens
        ≡ some after)
      × (after.owners_array ≡ map (λ b. b.address) (b ∷ bs))
      × ((a : String) → lookup a after.owners ≡ last_balance a (b ∷ bs) none)
unfolding update_token_owners update_one perform pure set_owners
find-update_token_owners now index_id activity b bs s t found = (
  find_first-update_first (has_index_id index_id) (set_owners now activity (b ∷ bs))
      (has_index_id index_id) (λ t h. h) s.tokens found
      (find_first_lem (has_index_id index_id) s.tokens found)
      (find_first_lem (has_index_id index_id) s.tokens found),
  refl,
  λ a. lookup-owners_of a (b ∷ bs) [],
)
