-- ===== src/Workflows/Examples.antt =====
-- Witnesses for the workflows of background/worker.
use mathlib.Core.List.Memᴰ.{head}
use ff_indexer.Prelude.{
  String, List, [], ◌∷◌, true, some, ◌≡◌, refl, arith, one_of, exists, eq_refl,
}
use ff_indexer.Exec.{ok, Exec, calm}
use ff_indexer.IndexId.Samples.{chains}
use ff_indexer.Sales.{SaleDocument, Tools}
use ff_indexer.Detector.Integers.{pos}
use ff_indexer.Detector.Ethereum.{TokenSale}
use ff_indexer.Detector.Logs.{transfer_event_signature}
use ff_indexer.Workflows.{Texts, is_sale_of}
use ff_indexer.Workflows.Once.{AreReadable, index, index_ethereum_token_sale_once}
use ff_indexer.Workflows.Blocks.{TxLog, index_blocks}
use ff_indexer.Workflows.Blocks.Covered.{index_blocks_lem}

abbrev tools : Tools
tools = record {
  parse_time = λ s. ok 1000;
  parse_decimal128 = λ s. ok 7;
  sort_strings = λ l. l;
  hex_sha1 = λ s. s;
}

abbrev texts : Texts
texts = record { format_time = λ t. "then"; integer_text = λ z. "7" }

abbrev sale : TokenSale
sale = record {
  timestamp = 1000;
  bundle_token_info =
      record {
        contract_address = "0xart";
        token_id = "7";
        seller_address = "0xseller";
        buyer_address = "0xbuyer";
      }
      ∷ [];
  price = pos 7;
  marketplace = "OpenSea";
  blockchain = "ethereum";
  currency = "ETH";
  tx_id = "0xtx";
  platform_fee = pos 0;
  net_revenue = pos 7;
  payment_amount = pos 7;
  shares = ("0xseller", pos 7) ∷ [];
}

abbrev readable : AreReadable tools texts
readable = record {
  time_of = λ t. 1000;
  time_of_text = λ t. refl;
  decimal = λ z. 7;
  decimal_of_integer = λ z exact. refl;
  one = 7;
  decimal_of_one = refl;
}

index_ethereum_token_sale_once_example :
    (s' : List SaleDocument) × (index tools texts readable chains
        (λ tx. ok (some sale))
        "0xtx"
        (calm [])
      ≡ (ok tt, calm s'))
    × (exists (is_sale_of "0xtx" "ethereum") s' ≡ true)
    × (index tools texts readable chains (λ tx. ok (some sale)) "0xtx" (calm s') ≡ (ok tt, calm s'))
index_ethereum_token_sale_once_example =
    index_ethereum_token_sale_once tools texts readable chains (λ tx. ok (some sale)) "0xtx" [] refl
      refl refl
      (
        (
          (omega arith, omega arith),
          (omega arith, omega arith),
          (omega arith, omega arith),
          (omega arith, omega arith),
        ),
        ((refl, (omega arith, omega arith)), tt),
      )

-- A log of a transferred token, which the child workflow notes.
abbrev token_log : TxLog
token_log = (
  "0xtx",
  record {
    address = "0xart";
    topics = transfer_event_signature ∷ "0xseller" ∷ "0xbuyer" ∷ "0x7" ∷ [];
    data_bytes = [];
  },
)

abbrev noted : String → List String → List String
noted tx s = tx ∷ s

abbrev child : String → Exec (List String) (Unit {0})
child tx w = (ok tt, record w { store = noted tx w.store })

is_noted : (tx : String) (s : List String) → one_of (noted tx s) tx ≡ true
is_noted tx s = rw (eq_refl tx)

stays_noted :
    (tx other : String) (s : List String) → one_of s tx ≡ true → one_of (noted other s) tx ≡ true
stays_noted tx other s h = ground arith

index_blocks_lem_example :
    (s' : List String) × (index_blocks (λ a b. ok (token_log ∷ [])) child 3 5 10 2 true (calm [])
      ≡ (ok tt, calm s'))
    × (one_of s' "0xtx" ≡ true)
index_blocks_lem_example =
    index_blocks_lem child noted (λ tx s. refl) (λ tx s. one_of s tx ≡ true) is_noted stays_noted
      (λ a b. token_log ∷ []) (λ x. token_log ∷ []) (λ a b. (refl, tt)) (λ a b x l low high m. m) 3
      5 10 2 [] 7 token_log (omega arith) (omega arith) (omega arith) (omega arith) (omega arith)
      (head refl) refl
