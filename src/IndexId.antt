-- ===== src/IndexId.antt =====
-- utils.go and constants.go: index ids of tokens, and the addresses that stand for burning. The
-- names of the blockchains and the form of addresses are those of autonomy-utils and go-ethereum.
pub mod Split
pub mod RoundTrip
pub mod Samples
mod Examples
use Prim.Native.String.{◌++◌}
use ff_indexer.Prelude.{
  String, Bool, true, false, List, [], ◌∷◌, Option, none, some, ◌&&◌, ◌||◌, ◌==◌, ◌≡◌, ◌≢◌,
  if◌then◌else◌,
}
use ff_indexer.Exec.{Result, ok, err, bad_index_id}
use Split.{split, HasNoDash}

-- What the code takes from autonomy-utils and go-ethereum: three names of blockchains, all
-- different, and `common.HexToAddress(a).Hex()`, which gives the one form of an address, in
-- hexadecimal digits.
pub record Chains : Type 0 where
  pub bitmark : String
  pub ethereum : String
  pub tezos : String
  pub checksum : String → String
  pub bitmark_ne_ethereum : bitmark ≢ ethereum
  pub tezos_ne_ethereum : tezos ≢ ethereum
  pub checksum_idem : (a : String) → checksum (checksum a) ≡ checksum a
  pub checksum_no_dash : (a : String) → HasNoDash (checksum a)

abbrev pub ethereum_zero_address : String
ethereum_zero_address = "0x0000000000000000000000000000000000000000"

abbrev pub tezos_burn_address : String
tezos_burn_address = "tz1burnburnburnburnburnburnburjAYjjX"

abbrev pub testnet_zero_address : String
testnet_zero_address = "dw9MQXcC5rJZb3QE1nz86PiQAheMP1dx9M3dr52tT8NNs14m33"

abbrev pub livenet_zero_address : String
livenet_zero_address = "a3ezwdYVEVrHwszQrYzDTCAZwUD3yKtNsCq9YhEu97bPaGAKy1"

-- `IsBurnAddress`
unfoldable pub is_burn_address : String → String → Bool
is_burn_address address environment =
    address == ethereum_zero_address
    || address == tezos_burn_address
    || (environment == "development" && address == testnet_zero_address)
    || (environment == "production" && address == livenet_zero_address)

-- `fmt.Sprintf("%s-%s-%s", a, b, c)`
abbrev pub dashed : String → String → String → String
dashed a b c = a ++ ("-" ++ (b ++ ("-" ++ c)))

abbrev pub three_parts : List String → Option (String × String × String)
three_parts (a ∷ b ∷ c ∷ []) = some (a, b, c)
three_parts _ = none

module _ (c : Chains) where
  open c use {bitmark, ethereum, tezos, checksum}

  -- `BlockchainAlias`, and the alias of a blockchain that the map lacks.
  unfoldable pub blockchain_alias : String → String
  blockchain_alias b =
      if b == bitmark
      then "bmk"
      else if b == ethereum
      then "eth"
      else if b == tezos
      then "tez"
      else "undefined"

  -- `TokenIndexID`
  unfoldable pub token_index_id : String → String → String → String
  unfolding blockchain_alias
  token_index_id blockchain contract id =
      dashed (blockchain_alias blockchain)
        (if blockchain == ethereum then checksum contract else contract) id

  abbrev pub with_checksum : Option (String × String × String) → Result (String × String × String)
  with_checksum none = err bad_index_id
  with_checksum (some (a, contract, id)) =
      ok (a, (if a == blockchain_alias ethereum then checksum contract else contract), id)

  -- `ParseTokenIndexID`
  unfoldable pub parse_token_index_id : String → Result (String × String × String)
  parse_token_index_id index_id = with_checksum (three_parts (split index_id))

  abbrev pub normal_form : String → Result (String × String × String) → List String → List String
  normal_form index_id (err e) rest = rest
  normal_form index_id (ok (a, contract, id)) rest =
      (if a == blockchain_alias ethereum then dashed a contract id else index_id) ∷ rest

  -- `NormalizeIndexIDs` with `isConvertToDecimal` false
  unfoldable pub normalize_index_ids : List String → List String
  normalize_index_ids [] = []
  normalize_index_ids (i ∷ is) = normal_form i (parse_token_index_id i) (normalize_index_ids is)
