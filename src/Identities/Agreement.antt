-- ===== src/Identities/Agreement.antt =====
-- `GetIdentity` and `GetIdentities` of store.go.
use mathlib.Core.Path.{subst⁻¹}
use ff_indexer.Prelude.{
  String, List, [], ◌∷◌, Bool, true, false, ◌==◌, Option, none, some, ◌≡◌, inl, inr, refl, ap, sym,
  ◌∙◌, if◌then◌else◌, one_of, exists, find_first, AtMostOne, Bool-cases, eq_iff, arith,
}
use ff_indexer.Exec.{ok, World, calm, perform, pure}
use ff_indexer.Mongo.{find_one, find, select, or_no_documents}
use ff_indexer.Identities.{
  AccountIdentity, People, Identities, has_number, no_identity, or_no_identity, or_first,
  get_identity, lookup_identity, put_identities, put_ff_identities, is_blank, get_identities,
}

-- The first value, if there is one, or the second.
abbrev or_else : Option AccountIdentity → Option AccountIdentity → Option AccountIdentity
or_else (some i) o = some i
or_else none o = o

-- An identity of the second collection counts where the first has none with a name.
abbrev or_blank : Option AccountIdentity → Option AccountIdentity → Option AccountIdentity
or_blank none o = o
or_blank (some j) o = if is_blank o then some j else o

module _ (numbers : List String) (number : String) (asked : one_of numbers number ≡ true) where
  abbrev is_asked : AccountIdentity → Bool
  is_asked i = one_of numbers i.account_number

  abbrev put_first : AccountIdentity → Identities → Identities
  put_first i m = (i.account_number, i) ∷ m

  skipped :
      (i : AccountIdentity) (m : Identities)
      → has_number number i ≡ false
      → lookup_identity number (put_first i m) ≡ lookup_identity number m
  unfolding lookup_identity
  skipped i m h = rw h refl

  asked_if_found : (i : AccountIdentity) → has_number number i ≡ true → is_asked i ≡ true
  asked_if_found i h =
      subst⁻¹ (λ n. one_of numbers n ≡ true) ((eq_iff i.account_number number).0 h) asked

  none_put :
      (l : List AccountIdentity) (m : Identities)
      → exists (has_number number) l ≡ false
      → lookup_identity number (put_identities (select is_asked l) m) ≡ lookup_identity number m
  unfolding lookup_identity put_identities select exists
  none_put [] m h = refl
  none_put (i ∷ l) m h = elim (Bool-cases (is_asked i)) [
    | inl e ↦ rw e (none_put l (put_first i m) (ground arith) ∙ skipped i m (ground arith))
    | inr e ↦ rw e (none_put l m (ground arith))
  ]

  lookup-put_identities :
      (l : List AccountIdentity) (m : Identities)
      → AtMostOne (has_number number) l
      → lookup_identity number (put_identities (select is_asked l) m)
        ≡ or_else (find_first (has_number number) l) (lookup_identity number m)
  unfolding lookup_identity put_identities select find_first
  lookup-put_identities [] m single = refl
  lookup-put_identities (i ∷ l) m single = elim (Bool-cases (has_number number i)) [
    | inl e ↦
        let there = none_put l (put_first i m) (ground arith) in
        rw (e, asked_if_found i e, there, e) refl
    | inr e ↦ rw e (elim (Bool-cases (is_asked i)) [
      | inl a ↦ rw a (
          lookup-put_identities l (put_first i m) single.1
          ∙ ap (or_else (find_first (has_number number) l)) (skipped i m e))
      | inr a ↦ rw a (lookup-put_identities l m single.1)
    ])
  ]

  -- The map after one identity of the second collection
  abbrev step : AccountIdentity → Identities → Identities
  step i m = if is_blank (lookup_identity i.account_number m) then put_first i m else m

  step_other :
      (i : AccountIdentity) (m : Identities)
      → has_number number i ≡ false
      → lookup_identity number (step i m) ≡ lookup_identity number m
  step_other i m h = elim (Bool-cases (is_blank (lookup_identity i.account_number m))) [
    | inl b ↦ rw b (skipped i m h)
    | inr b ↦ rw b refl
  ]

  step_same :
      (i : AccountIdentity) (m : Identities)
      → has_number number i ≡ true
      → lookup_identity number (step i m) ≡ or_blank (some i) (lookup_identity number m)
  unfolding lookup_identity
  step_same i m h =
      let same : is_blank (lookup_identity i.account_number m)
          ≡ is_blank (lookup_identity number m) =
        ap (λ n. is_blank (lookup_identity n m)) ((eq_iff i.account_number number).0 h) in
      elim (Bool-cases (is_blank (lookup_identity number m))) [
        | inl b ↦ rw (same, b, h) refl
        | inr b ↦ rw (same, b) refl
      ]

  none_put_ff :
      (l : List AccountIdentity) (m : Identities)
      → exists (has_number number) l ≡ false
      → lookup_identity number (put_ff_identities (select is_asked l) m) ≡ lookup_identity number m
  unfolding put_ff_identities select exists
  none_put_ff [] m h = refl
  none_put_ff (i ∷ l) m h = elim (Bool-cases (is_asked i)) [
    | inl e ↦ rw e (none_put_ff l (step i m) (ground arith) ∙ step_other i m (ground arith))
    | inr e ↦ rw e (none_put_ff l m (ground arith))
  ]

  lookup-put_ff_identities :
      (l : List AccountIdentity) (m : Identities)
      → AtMostOne (has_number number) l
      → lookup_identity number (put_ff_identities (select is_asked l) m)
        ≡ or_blank (find_first (has_number number) l) (lookup_identity number m)
  unfolding lookup_identity put_ff_identities select find_first
  lookup-put_ff_identities [] m single = refl
  lookup-put_ff_identities (i ∷ l) m single = elim (Bool-cases (has_number number i)) [
    | inl e ↦
        let there = none_put_ff l (step i m) (ground arith) in
        rw (e, asked_if_found i e) (there ∙ step_same i m e)
    | inr e ↦ rw e (elim (Bool-cases (is_asked i)) [
      | inl a ↦ rw a (
          lookup-put_ff_identities l (step i m) single.1
          ∙ ap (or_blank (find_first (has_number number) l)) (step_other i m e))
      | inr a ↦ rw a (lookup-put_ff_identities l m single.1)
    ])
  ]

abbrev pub or_zero_identity : Option AccountIdentity → AccountIdentity
or_zero_identity none = no_identity
or_zero_identity (some i) = i

abbrev second_or : AccountIdentity → Option AccountIdentity → AccountIdentity
second_or i none = i
second_or i (some j) = j

-- What the reader of one identity finds.
abbrev one_found : Option AccountIdentity → Option AccountIdentity → AccountIdentity
one_found first second =
    if (or_zero_identity first).name == ""
    then second_or (or_zero_identity first) second
    else or_zero_identity first

one_found_lem :
    (first second : Option AccountIdentity)
    → one_found first second ≡ or_zero_identity (or_blank second (or_else first none))
one_found_lem none none = refl
one_found_lem none (some j) = refl
one_found_lem (some i) none = ground arith
one_found_lem (some i) (some j) = ground arith

or_no_identity_lem :
    (o : Option AccountIdentity) (w : World People)
    → or_no_identity (or_no_documents o) w ≡ (ok (or_zero_identity o), w)
unfolding pure
or_no_identity_lem none w = refl
or_no_identity_lem (some i) w = refl

or_first_lem :
    (i : AccountIdentity) (o : Option AccountIdentity) (w : World People)
    → or_first i (or_no_documents o) w ≡ (ok (second_or i o), w)
unfolding pure
or_first_lem i none w = refl
or_first_lem i (some j) w = refl

run-get_identity :
    (number : String) (s : People)
    → get_identity number (calm s) ≡ (
      ok (
          one_found
            (find_first (has_number number) s.identities)
            (find_first (has_number number) s.ff_identities)),
      calm s,
    )
unfolding get_identity find_one perform pure
run-get_identity number s =
    let first = find_first (has_number number) s.identities in
    let second = find_first (has_number number) s.ff_identities in
    rw (or_no_identity_lem first (calm s))
      (elim (Bool-cases ((or_zero_identity first).name == "")) [
        | inl e ↦ rw (e, or_first_lem (or_zero_identity first) second (calm s)) refl
        | inr e ↦ rw e refl
      ])

-- Where no call fails and at most one identity of each collection has a number that is asked for,
-- GetIdentity of the number returns what the map of GetIdentities has for it, or the zero identity
-- if it has none.
pub get_identities-get_identity :
    (numbers : List String) (number : String) (s : People)
    → one_of numbers number ≡ true
    → AtMostOne (has_number number) s.identities
    → AtMostOne (has_number number) s.ff_identities
    → (m : Identities) × (get_identities numbers (calm s) ≡ (ok m, calm s))
      × (get_identity number (calm s) ≡ (ok (or_zero_identity (lookup_identity number m)), calm s))
unfolding get_identities find perform pure lookup_identity
get_identities-get_identity numbers number s asked single ff_single = (
  _,
  refl,
  run-get_identity number s
      ∙ ap (λ i. (ok i, calm s))
          (one_found_lem first (find_first (has_number number) s.ff_identities)
            ∙ ap or_zero_identity (sym found)),
)
  where
    first : Option AccountIdentity
    first = find_first (has_number number) s.identities

    found :
        lookup_identity number (
          put_ff_identities
            (select (λ i. one_of numbers i.account_number) s.ff_identities)
            (put_identities (select (λ i. one_of numbers i.account_number) s.identities) []))
        ≡ or_blank (find_first (has_number number) s.ff_identities) (or_else first none)
    found =
        lookup-put_ff_identities numbers number asked s.ff_identities _ ff_single
        ∙ ap (or_blank (find_first (has_number number) s.ff_identities))
            (lookup-put_identities numbers number asked s.identities [] single)
