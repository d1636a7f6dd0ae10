-- ===== src/Workflows/Blocks.antt =====
-- background/worker/workflows_indexer.go: `IndexEthereumTokenSaleInBlockRange`, with the activity
-- `FilterEthereumNFTTxByEventLogs` of activities.go. The child workflows of a run are run one after
-- the other.
pub mod Covered
use ff_indexer.Prelude.{
  ℕ, zero, suc, ◌+◌, ◌%◌, String, List, [], ◌∷◌, Bool, true, false, not, ◌||◌, ◌==◌, Option, none,
  some, ltb, one_of, if◌then◌else◌,
}
use ff_indexer.Exec.{
  Result, ok, err, out_of_fuel, wrong_format, Exec, pure, fail, caught, ◌>>=◌, ◌>>◌,
}
use ff_indexer.Sales.{after}
use ff_indexer.Detector.Logs.{Log, erc721_transfer, erc1155_single_transfer}

-- A log with the hash of its transaction.
abbrev pub TxLog : Type 0
TxLog = String × Log

-- The key is set, whether it was or not.
abbrev pub set_tx : String → List String → List String
set_tx tx txs = if one_of txs tx then txs else tx ∷ txs

abbrev pub add_tx : TxLog → List String → Bool → List String
add_tx l txs true = set_tx l.0 txs
add_tx l txs false = txs

-- `FilterEthereumNFTTxByEventLogs`, from the logs that `FilterLogs` returns: the transactions that
-- transfer tokens, each once.
unfoldable pub nft_txs_of : List TxLog → List String → Result (List String)
nft_txs_of [] txs = ok txs
nft_txs_of (l ∷ logs) txs = after (erc721_transfer l.1) λ is_erc721.
    after (erc1155_single_transfer l.1)
      λ is_erc1155. nft_txs_of logs (add_tx l txs (is_erc721 || is_erc1155))

abbrev pub u64_mod : ℕ
u64_mod = 18446744073709551616

-- `endBlk`
abbrev pub end_block : ℕ → ℕ → ℕ → ℕ
end_block from_blk to_blk batch_size =
    if ltb to_blk ((from_blk + batch_size) % u64_mod)
    then to_blk
    else (from_blk + batch_size) % u64_mod

module _ {S : Type 0} where
  abbrev pub given : {A : Type 0} → Result A → Exec S A
  given (ok a) = pure a
  given (err e) = fail e

  -- The first error of several child workflows that were started together.
  abbrev pub first_error : Result (Unit {0}) → Result (Unit {0}) → Exec S (Unit {0})
  first_error (err e) others = fail e
  first_error (ok u) others = given others

  unfoldable pub run_children : (String → Exec S (Unit {0})) → List String → Exec S (Unit {0})
  run_children child [] = pure tt
  run_children child (tx ∷ txs) =
      caught (child tx) λ r. caught (run_children child txs) λ others. first_error r others

  module _ (filter_logs : ℕ → ℕ → Result (List TxLog)) (child : String → Exec S (Unit {0})) where
    -- How a run ends: `NewContinueAsNewError` from another block, or not.
    abbrev pub continued : ℕ → ℕ → ℕ → Option ℕ
    continued from_blk to_blk batch_size =
        if ltb (end_block from_blk to_blk batch_size) to_blk
        then some ((from_blk + batch_size) % u64_mod)
        else none

    -- One run of `IndexEthereumTokenSaleInBlockRange`
    unfoldable pub index_block_range : ℕ → ℕ → ℕ → Bool → Exec S (Option ℕ)
    index_block_range from_blk to_blk batch_size skip_indexed =
        if not skip_indexed
        then fail wrong_format
        else if ltb to_blk from_blk
        then fail wrong_format
        else (given (
              after (filter_logs from_blk (end_block from_blk to_blk batch_size))
                (λ logs. nft_txs_of logs []))
            >>= λ txs. run_children child txs >> pure (continued from_blk to_blk batch_size))

    -- The runs that continue one another.
    unfoldable pub index_blocks : ℕ → ℕ → ℕ → ℕ → Bool → Exec S (Unit {0})
    index_blocks zero from_blk to_blk batch_size skip_indexed = fail out_of_fuel
    index_blocks (suc fuel) from_blk to_blk batch_size skip_indexed =
        index_block_range from_blk to_blk batch_size skip_indexed >>= λ next. elim next [
          | none ↦ pure tt
          | some from_blk' ↦ index_blocks fuel from_blk' to_blk batch_size skip_indexed
        ]
