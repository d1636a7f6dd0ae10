-- ===== src/IndexId/Samples.antt =====
-- Names of blockchains and one form of addresses, for the tests.
use ff_indexer.Prelude.{refl, ne_of_test}
use ff_indexer.IndexId.{Chains}

abbrev pub chains : Chains
chains = record {
  bitmark = "bitmark";
  ethereum = "ethereum";
  tezos = "tezos";
  checksum = λ a. "0xC";
  bitmark_ne_ethereum = ne_of_test "bitmark" "ethereum" refl;
  tezos_ne_ethereum = ne_of_test "tezos" "ethereum" refl;
  checksum_idem = λ a. refl;
  checksum_no_dash = λ a. (refl, (refl, (refl, tt)));
}
