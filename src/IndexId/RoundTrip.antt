-- ===== src/IndexId/RoundTrip.antt =====
-- `TokenIndexID`, `ParseTokenIndexID` and `NormalizeIndexIDs` of utils.go, one after another.
use Prim.Native.String.{◌++◌}
use ff_indexer.Prelude.{
  String, true, false, List, [], ◌∷◌, none, some, ◌==◌, ◌≡◌, refl, ap, ◌∙◌, inl, inr, All, arith,
  if◌then◌else◌, Bool-cases, Option-cases, eq_iff, eq_refl,
}
use mathlib.Core.Path.{ap₂, subst}
use mathlib.Core.Option.{some-injective}
use ff_indexer.Exec.{ok, err, bad_index_id}
use ff_indexer.IndexId.{
  Chains, dashed, three_parts, blockchain_alias, token_index_id, parse_token_index_id,
  normalize_index_ids, normal_form,
}
use ff_indexer.IndexId.Split.{split, HasNoDash, split_lem, split-append, split-HasNoDash}

three_parts-dashed :
    (a b d : String)
    → HasNoDash a
    → HasNoDash b
    → HasNoDash d
    → three_parts (split (dashed a b d)) ≡ some (a, b, d)
three_parts-dashed a b d ha hb hd =
    rw (split-append a (b ++ ("-" ++ d)) ha) (rw (split-append b d hb) (rw (split_lem d hd)))

outer_no_dash :
    (ws : List String) {a b d : String}
    → All HasNoDash ws
    → three_parts ws ≡ some (a, b, d)
    → HasNoDash a × HasNoDash d
outer_no_dash [] h e = cc
outer_no_dash (x ∷ y ∷ z ∷ []) h e =
    let t = some-injective _ _ e in
    (subst HasNoDash (ap (λ p. p.0) t) h.0, subst HasNoDash (ap (λ p. p.2) t) h.1.1.0)
outer_no_dash _ h e = cc

module _ (c : Chains) where
  open c use {bitmark, ethereum, tezos, checksum, checksum_idem, checksum_no_dash}

  alias_cases :
      (P : String → Type 0)
      → P "bmk"
      → P "eth"
      → P "tez"
      → P "undefined"
      → (b : String) → P (blockchain_alias c b)
  unfolding blockchain_alias
  alias_cases P bmk eth tez other b = elim (Bool-cases (b == bitmark)) [
    | inl p ↦ rw p bmk
    | inr p ↦ elim (Bool-cases (b == ethereum)) [
      | inl q ↦ rw (p, q) eth
      | inr q ↦ elim (Bool-cases (b == tezos)) [
        | inl r ↦ rw (p, q, r) tez
        | inr r ↦ rw (p, q, r) other
      ]
    ]
  ]

  alias_no_dash : (b : String) → HasNoDash (blockchain_alias c b)
  alias_no_dash b =
      alias_cases HasNoDash (ground arith) (ground arith) (ground arith) (ground arith) b

  bitmark_is_not_ethereum : (b : String) → (b == bitmark) ≡ true → (b == ethereum) ≡ false
  bitmark_is_not_ethereum b h =
      ground (arith, eq_iff b bitmark, eq_iff b ethereum, c.bitmark_ne_ethereum)

  -- Only ethereum has the alias of ethereum.
  alias-eq_eth : (b : String) → (blockchain_alias c b == "eth") ≡ (b == ethereum)
  unfolding blockchain_alias
  alias-eq_eth b = elim (Bool-cases (b == bitmark)) [
    | inl p ↦ rw (p, bitmark_is_not_ethereum b p)
    | inr p ↦ elim (Bool-cases (b == ethereum)) [
      | inl q ↦ rw (p, q)
      | inr q ↦ elim (Bool-cases (b == tezos)) [ inl r ↦ rw (p, q, r) | inr r ↦ rw (p, q, r) ]
    ]
  ]

  alias-ethereum : blockchain_alias c ethereum ≡ "eth"
  alias-ethereum = (eq_iff _ _).0 (alias-eq_eth ethereum ∙ eq_refl ethereum)

  parsed :
      (a contract id : String)
      → HasNoDash a
      → HasNoDash contract
      → HasNoDash id
      → parse_token_index_id c (dashed a contract id)
        ≡ ok (a, (if a == "eth" then checksum contract else contract), id)
  unfolding parse_token_index_id
  parsed a contract id ha hc hi = rw (three_parts-dashed a contract id ha hc hi) (rw alias-ethereum)

  contract_no_dash :
      (b contract : String)
      → HasNoDash contract
      → HasNoDash (if b == ethereum then checksum contract else contract)
  contract_no_dash b contract h = elim (Bool-cases (b == ethereum)) [
    | inl p ↦ rw p (checksum_no_dash contract)
    | inr p ↦ rw p h
  ]

  checksum_twice :
      (b contract : String)
      → (if b == ethereum
          then checksum (if b == ethereum then checksum contract else contract)
          else (if b == ethereum then checksum contract else contract))
        ≡ (if b == ethereum then checksum contract else contract)
  checksum_twice b contract = elim (Bool-cases (b == ethereum)) [
    | inl p ↦ rw p (checksum_idem contract)
    | inr p ↦ rw p
  ]

  -- Where contract and token id have no dash, the parts of the index id of a token are parsed
  -- back: the alias of the blockchain, the contract, as a checksum address on Ethereum, and the
  -- token id.
  pub parse-token_index_id :
      (blockchain contract id : String)
      → HasNoDash contract
      → HasNoDash id
      → parse_token_index_id c (token_index_id c blockchain contract id)
        ≡ ok (
          blockchain_alias c blockchain,
          (if blockchain == ethereum then checksum contract else contract),
          id,
        )
  unfolding token_index_id
  parse-token_index_id blockchain contract id hc hi =
      parsed (blockchain_alias c blockchain) _ id (alias_no_dash blockchain)
        (contract_no_dash blockchain contract hc) hi
      ∙ rw alias-eq_eth (rw checksum_twice refl)

  checked : String → String → String
  checked a contract = if a == "eth" then checksum contract else contract

  checked_idem : (a contract : String) → checked a (checked a contract) ≡ checked a contract
  unfolding checked
  checked_idem a contract = elim (Bool-cases (a == "eth")) [
    | inl p ↦ rw p (checksum_idem contract)
    | inr p ↦ rw p
  ]

  parse-none :
      (i : String) → three_parts (split i) ≡ none → parse_token_index_id c i ≡ err bad_index_id
  unfolding parse_token_index_id
  parse-none i n = rw n

  parse-some :
      (i a b d : String)
      → three_parts (split i) ≡ some (a, b, d)
      → parse_token_index_id c i ≡ ok (a, checked a b, d)
  unfolding parse_token_index_id checked
  parse-some i a b d n = rw n (rw alias-ethereum)

  normal_form-ok :
      (i a b d : String) (rest : List String)
      → normal_form c i (ok (a, b, d)) rest ≡ (if a == "eth" then dashed a b d else i) ∷ rest
  normal_form-ok i a b d rest = rw alias-ethereum

  normalize-cons :
      (i : String) (is : List String)
      → normalize_index_ids c (i ∷ is)
        ≡ normal_form c i (parse_token_index_id c i) (normalize_index_ids c is)
  unfolding normalize_index_ids
  normalize-cons i is = refl

  normalize-none :
      (i : String) (is : List String)
      → three_parts (split i) ≡ none
      → normalize_index_ids c (i ∷ is) ≡ normalize_index_ids c is
  normalize-none i is n = rw normalize-cons (rw (parse-none i n))

  -- The normal form of an id with three parts.
  renamed : String → String → String → String → String
  renamed i a b d = if a == "eth" then dashed a (checked a b) d else i

  normalize-some :
      (i a b d : String) (is : List String)
      → three_parts (split i) ≡ some (a, b, d)
      → normalize_index_ids c (i ∷ is) ≡ renamed i a b d ∷ normalize_index_ids c is
  unfolding renamed
  normalize-some i a b d is n =
      rw normalize-cons (rw (parse-some i a b d n) (normal_form-ok i a (checked a b) d _))

  three_parts-renamed :
      (i a b d : String)
      → three_parts (split i) ≡ some (a, b, d)
      → three_parts (split (renamed i a b d)) ≡ some (a, (if a == "eth" then checked a b else b), d)
  unfolding renamed checked
  three_parts-renamed i a b d n = elim (Bool-cases (a == "eth")) [
    | inl p ↦
        let (na, nd) = outer_no_dash (split i) (split-HasNoDash i) n in
        rw p (three_parts-dashed a (checksum b) d na (checksum_no_dash b) nd)
    | inr p ↦ rw p n
  ]

  renamed_again :
      (i a b d : String)
      → renamed (renamed i a b d) a (if a == "eth" then checked a b else b) d ≡ renamed i a b d
  unfolding renamed
  renamed_again i a b d = elim (Bool-cases (a == "eth")) [
    | inl p ↦ rw p (rw checked_idem)
    | inr p ↦ rw p
  ]

  -- Normalising a list of index ids a second time changes nothing.
  pub normalize_index_ids_idem :
      (is : List String)
      → normalize_index_ids c (normalize_index_ids c is) ≡ normalize_index_ids c is
  normalize_index_ids_idem [] = unfold normalize_index_ids in refl
  normalize_index_ids_idem (i ∷ is) = elim (Option-cases (three_parts (split i))) [
    | inl n ↦ rw (normalize-none i is n) (normalize_index_ids_idem is)
    | inr ((a, b, d), n) ↦ rw (normalize-some i a b d is n) (
        normalize-some (renamed i a b d) a _ d (normalize_index_ids c is)
          (three_parts-renamed i a b d n)
        ∙ ap₂ ◌∷◌ (renamed_again i a b d) (normalize_index_ids_idem is))
  ]
