-- ===== src/Detector/Examples.antt =====
-- Witnesses for the sales of workflows_detector.go.
use ff_indexer.Prelude.{String, List, [], ◌∷◌, ◌≡◌, refl, Option, none, some}
use ff_indexer.Exec.{ok, err, panicked}
use ff_indexer.Detector.Integers.{pos, ◌+ℤ◌, ◌-ℤ◌}
use ff_indexer.Detector.{
  PayTransferData, Settings, entry_of, put, add_payments, marketplace_of, marketplace_of_payments,
}
use ff_indexer.Detector.Logs.{
  Log, TxLogs, transfer_event_signature, logs_at, classify_logs, classify_tx_logs,
}
use ff_indexer.Detector.Classes.{
  is_token, is_erc20_of, logs_that, have_topics, classify_tx_logs_lem,
}

abbrev settings : Settings
settings = record {
  to_lower = λ s. s;
  marketplace_contracts = ("0xmarket", "OpenSea") ∷ [];
  platform_fee_wallets = ("0xfees", "OpenSea") ∷ [];
  open_sea_old_fee_wallet = "0xold";
  fixed_fee = λ price. pos 0;
}

-- A buyer pays the marketplace, which pays a splitter and its own fee; the splitter pays two.
abbrev payments : List PayTransferData
payments =
    record { from_address = "0xbuyer"; to_address = "0xmarket"; amount = pos 100 }
    ∷ record { from_address = "0xmarket"; to_address = "0xsplit"; amount = pos 90 }
    ∷ record { from_address = "0xmarket"; to_address = "0xfees"; amount = pos 10 }
    ∷ record { from_address = "0xsplit"; to_address = "0xseller"; amount = pos 80 }
    ∷ record { from_address = "0xsplit"; to_address = "0xartist"; amount = pos 10 }
    ∷ []

on_market : marketplace_of settings "0xrouter" payments ≡ some "OpenSea"
unfolding entry_of marketplace_of_payments
on_market = refl

test_price :
    add_payments settings payments (record { shares = []; price = pos 0; platform_fee = pos 0 })
    ≡ record {
      shares =
          ("0xsplit", pos 0)
          ∷ ("0xfees", pos 10)
          ∷ ("0xseller", pos 80)
          ∷ ("0xartist", pos 10)
          ∷ [];
      price = pos 100;
      platform_fee = pos 10;
    }
unfolding add_payments entry_of put ◌+ℤ◌ ◌-ℤ◌
test_price = refl

-- A payment in an ERC20 token, a log without meaning here, and a transferred token.
abbrev logs : List (Option Log)
logs =
    some (record {
      address = "0xcoin";
      topics = transfer_event_signature ∷ "0xbuyer" ∷ "0xseller" ∷ [];
      data_bytes = 7 ∷ [];
    })
    ∷ none
    ∷ some (record { address = "0xother"; topics = "0xapproval" ∷ []; data_bytes = [] })
    ∷ some (record {
      address = "0xart";
      topics = transfer_event_signature ∷ "0xseller" ∷ "0xbuyer" ∷ "0x1" ∷ [];
      data_bytes = [];
    })
    ∷ []

classify_tx_logs_lem_example :
    (r : TxLogs) × (classify_tx_logs logs ≡ ok r)
    × (r.token_transfers ≡ logs_that is_token logs)
    × ((address : String)
        → logs_at address r.erc20_transfers ≡ logs_that (is_erc20_of address) logs)
unfolding have_topics
classify_tx_logs_lem_example = classify_tx_logs_lem logs refl

-- A log without topics panics.
test_no_topics :
    classify_tx_logs (some (record { address = "0xart"; topics = []; data_bytes = [] }) ∷ [])
    ≡ err panicked
unfolding classify_tx_logs classify_logs
test_no_topics = refl
