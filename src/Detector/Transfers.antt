-- ===== src/Detector/Transfers.antt =====
-- background/worker/workflows_detector.go: the tokens that the logs of a transaction transfer, in
-- `ParseEthereumTokenSale`.
use Prim.Native.String.{◌++◌}
use ff_indexer.Prelude.{
  ℕ, ◌+◌, ◌*◌, ◌%◌, String, List, [], ◌∷◌, Bool, false, not, ◌==◌, Option, none, some, eqb, length,
  take, drop, if◌then◌else◌,
}
use ff_indexer.Exec.{Result, ok, err, panicked}
use ff_indexer.IndexId.{Chains, token_index_id}
use ff_indexer.Sales.{after}
use ff_indexer.Detector.{entry_of, put}
use ff_indexer.Detector.Logs.{Log, erc721_transfer}

-- `tokenTransferData`
pub record TokenTransferData : Type 0 where
  pub from : String
  pub to : String
  pub token_id : String
  pub contract : String

-- `common.HexToAddress(topic.Hex()).Hex()`, `strings.TrimPrefix(s, "0x")`, `SetString(s, 16)` and
-- `Text(10)` of a `big.Int`, and the digits of the bytes of one, which are none for 0.
pub record Digits : Type 0 where
  pub address_of : String → String
  pub trim_0x : String → String
  pub parse_hex : String → Option ℕ
  pub parse_decimal : String → Option ℕ
  pub decimal_text : ℕ → String
  pub hex_of_bytes : ℕ → String

-- `new(big.Int).SetBytes(bytes)`
unfoldable pub number_of_bytes : ℕ → List ℕ → ℕ
number_of_bytes acc [] = acc
number_of_bytes acc (b ∷ bytes) = number_of_bytes (acc * 256 + b) bytes

abbrev pub or_no_id : Digits → Option ℕ → String
or_no_id o none = ""
or_no_id o (some n) = o.decimal_text n

-- `HexToDec`
unfoldable pub hex_to_dec : Digits → String → String
hex_to_dec o hex = or_no_id o (o.parse_hex hex)

-- What follows a sale that was found so far; none is for a transaction that is no sale.
abbrev pub then_sale :
    {A B : Type 0} → Result (Option A) → (A → Result (Option B)) → Result (Option B)
then_sale (ok (some a)) f = f a
then_sale (ok none) f = ok none
then_sale (err e) f = err e

module _ (o : Digits) where
  abbrev pub erc721_data : Log → String → String → String → TokenTransferData
  erc721_data l topic1 topic2 topic3 = record {
    from = o.address_of topic1;
    to = o.address_of topic2;
    token_id = hex_to_dec o (o.trim_0x topic3);
    contract = l.address;
  }

  -- `value.Uint64()` keeps the lowest 64 bits.
  abbrev pub erc1155_data : Log → String → String → Option TokenTransferData
  erc1155_data l topic2 topic3 =
      if not (eqb (length l.data_bytes) 64)
      then none
      else if not (eqb (number_of_bytes 0 (drop 32 l.data_bytes) % 18446744073709551616) 1)
      then none
      else some (record {
        from = o.address_of topic2;
        to = o.address_of topic3;
        token_id = hex_to_dec o (o.hex_of_bytes (number_of_bytes 0 (take 32 l.data_bytes)));
        contract = l.address;
      })

  -- The data of the transfer of a log, whose topics are read by their places.
  abbrev pub data_of : Log → List String → Bool → Result (Option TokenTransferData)
  data_of l (topic0 ∷ topic1 ∷ topic2 ∷ topic3 ∷ topics) is_erc721 =
      if is_erc721
      then ok (some (erc721_data l topic1 topic2 topic3))
      else ok (erc1155_data l topic2 topic3)
  data_of l topics is_erc721 = err panicked

  abbrev pub token_transfer_of : Log → Result (Option TokenTransferData)
  token_transfer_of l = after (erc721_transfer l) (data_of l l.topics)

-- `tokenTxMapKey`
abbrev pub token_tx_map_key : TokenTransferData → String
token_tx_map_key t = t.contract ++ ("-" ++ t.token_id)

-- The sender is that of the first transfer, the recipient that of the last.
abbrev pub joined_transfer : Option TokenTransferData → TokenTransferData → TokenTransferData
joined_transfer none t = t
joined_transfer (some first) t = record t { from = first.from }

abbrev pub TokenTxs : Type 0
TokenTxs = List (String × TokenTransferData)

abbrev pub add_transfer : TokenTransferData → TokenTxs → TokenTxs
add_transfer t txs =
    put (token_tx_map_key t) (joined_transfer (entry_of (token_tx_map_key t) txs) t) txs

-- `GetTokenByIndexID`: the source of a token, where it is found.
abbrev pub TokenSources : Type 0
TokenSources = String → Result (Option String)

abbrev pub is_of_feralfile : Option String → Bool
is_of_feralfile none = false
is_of_feralfile (some source) = source == "feralfile"

module _ (o : Digits) (c : Chains) (source_of : TokenSources) where
  abbrev pub index_id_of : TokenTransferData → String
  index_id_of t = token_index_id c c.ethereum t.contract t.token_id

  -- The loop over the logs. A transaction with a token that Feral File did not publish is no sale.
  unfoldable pub token_txs_of : List Log → TokenTxs → Result (Option TokenTxs)
  token_txs_of [] txs = ok (some txs)
  token_txs_of (l ∷ logs) txs = then_sale (token_transfer_of o l) λ t.
      after (source_of (index_id_of t))
        λ source. if is_of_feralfile source then token_txs_of logs (add_transfer t txs) else ok none
