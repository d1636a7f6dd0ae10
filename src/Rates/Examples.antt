-- ===== src/Rates/Examples.antt =====
-- Witnesses for the exchange rates of store.go.
use mathlib.Core.List.{Memᴰ}
use mathlib.Core.List.Memᴰ.{head, tail}
use ff_indexer.Prelude.{[], ◌∷◌, ◌≡◌, ◌<◌, arith}
use ff_indexer.Exec.{ok, calm}
use ff_indexer.Mapper.Sales.{ExchangeRate}
use ff_indexer.Rates.{Rates, get_historical_exchange_rate}
use ff_indexer.Rates.Closest.{IsClosest, get_historical_exchange_rate_lem}

abbrev rates : Rates
rates =
    record { timestamp = 10; price = 3; currency_pair = "ETH-USD" }
    ∷ record { timestamp = 20; price = 4; currency_pair = "ETH-USD" }
    ∷ []

rates_dated : (q : ExchangeRate) → Memᴰ q rates → 0 < q.timestamp
rates_dated q (head e) = rw e (omega arith)
rates_dated q (tail (head e)) = rw e (omega arith)
rates_dated q (tail (tail m)) = elim m [ ]

get_historical_exchange_rate_lem_example :
    (r : ExchangeRate) × (get_historical_exchange_rate 14 "ETH-USD" (calm rates)
      ≡ (ok r, calm rates))
    × IsClosest 14 "ETH-USD" rates r
get_historical_exchange_rate_lem_example =
    get_historical_exchange_rate_lem 14 "ETH-USD" rates (omega arith) rates_dated
