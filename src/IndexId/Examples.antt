-- ===== src/IndexId/Examples.antt =====
-- Witnesses for the index ids.
use ff_indexer.Prelude.{◌≡◌, arith}
use ff_indexer.Exec.{ok}
use ff_indexer.IndexId.{token_index_id, parse_token_index_id, blockchain_alias}
use ff_indexer.IndexId.Samples.{chains}
use ff_indexer.IndexId.RoundTrip.{parse-token_index_id}

parse-token_index_id_example :
    parse_token_index_id chains (token_index_id chains "ethereum" "0xc" "7")
    ≡ ok ("eth", "0xC", "7")
unfolding blockchain_alias
parse-token_index_id_example =
    parse-token_index_id chains "ethereum" "0xc" "7" (ground arith) (ground arith)
