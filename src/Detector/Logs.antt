-- ===== src/Detector/Logs.antt =====
-- background/worker/workflows_detector.go and utils_eth.go: the logs of a transaction by kind.
use ff_indexer.Prelude.{
  ℕ, String, List, [], ◌∷◌, ◌++◌, Bool, ◌&&◌, ◌||◌, ◌==◌, Option, none, some, eqb, length,
  if◌then◌else◌,
}
use ff_indexer.Exec.{Result, ok, err, panicked}
use ff_indexer.Sales.{after}
use ff_indexer.Detector.{entry_of, put}

-- `types.Log`: the address and the topics as `Hex` writes them, and the bytes of the data.
pub record Log : Type 0 where
  pub address : String
  pub topics : List String
  pub data_bytes : List ℕ

-- `TransferEventSignature`
abbrev pub transfer_event_signature : String
transfer_event_signature = "0xddf252ad1be2c89b69c2b068fc378daa952ba7f163c4a11628f55a4df523b3ef"

-- `TransferSingleEventSignature`
abbrev pub transfer_single_event_signature : String
transfer_single_event_signature =
    "0xc3d58168c5ae7397731d063d5bbf3d657854427343f4c083240f7aacaa2d0f62"

-- `Topics[0]`, which panics where there is none.
abbrev pub first_topic : List String → Result String
first_topic [] = err panicked
first_topic (topic ∷ topics) = ok topic

-- `TransferEventLog`
abbrev pub transfer_event_log : Log → Result Bool
transfer_event_log l = after (first_topic l.topics) λ hash. ok (hash == transfer_event_signature)

-- `ERC20Transfer`
abbrev pub erc20_transfer : Log → Result Bool
erc20_transfer l = after (transfer_event_log l) λ b. ok (b && eqb (length l.topics) 3)

-- `ERC721Transfer`
abbrev pub erc721_transfer : Log → Result Bool
erc721_transfer l = after (transfer_event_log l) λ b. ok (b && eqb (length l.topics) 4)

-- `ERC1155SingleTransfer`
abbrev pub erc1155_single_transfer : Log → Result Bool
erc1155_single_transfer l =
    after (first_topic l.topics)
      λ hash. ok (hash == transfer_single_event_signature && eqb (length l.topics) 4)

-- The logs of ERC20 contracts by address, and those of tokens.
pub record TxLogs : Type 0 where
  pub erc20_transfers : List (String × List Log)
  pub token_transfers : List Log

abbrev pub or_no_logs : Option (List Log) → List Log
or_no_logs none = []
or_no_logs (some logs) = logs

-- `erc20Transfers[address]`
abbrev pub logs_at : String → List (String × List Log) → List Log
logs_at address entries = or_no_logs (entry_of address entries)

abbrev pub append_erc20 : Log → TxLogs → TxLogs
append_erc20 l c = record {
  erc20_transfers = put l.address (logs_at l.address c.erc20_transfers ++ l ∷ []) c.erc20_transfers;
  token_transfers = c.token_transfers;
}

abbrev pub append_token : Log → TxLogs → TxLogs
append_token l c = record {
  erc20_transfers = c.erc20_transfers;
  token_transfers = c.token_transfers ++ l ∷ [];
}

-- One round of the loop: the cases of the switch in order.
abbrev pub classify_log : Log → TxLogs → Result TxLogs
classify_log l c = after (erc20_transfer l) λ is_erc20.
    if is_erc20
    then ok (append_erc20 l c)
    else after (erc1155_single_transfer l) λ is_erc1155.
      after (erc721_transfer l)
        λ is_erc721. ok (if is_erc1155 || is_erc721 then append_token l c else c)

unfoldable pub classify_logs : List (Option Log) → TxLogs → Result TxLogs
classify_logs [] c = ok c
classify_logs (none ∷ logs) c = classify_logs logs c
classify_logs (some l ∷ logs) c = after (classify_log l c) (classify_logs logs)

-- `classifyTxLogs`
unfoldable pub classify_tx_logs : List (Option Log) → Result TxLogs
classify_tx_logs logs = classify_logs logs (record { erc20_transfers = []; token_transfers = [] })
