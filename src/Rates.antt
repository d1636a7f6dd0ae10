-- ===== src/Rates.antt =====
-- store.go: exchange rates. A lower rate is not more than 292 years away, the range of a Go
-- duration.
pub mod Closest
mod Examples
use ff_indexer.Prelude.{
  ℕ, ◌-◌, String, List, [], ◌∷◌, Bool, true, false, not, ◌&&◌, ◌==◌, Option, none, some, eqb, ltb,
  leb, if◌then◌else◌,
}
use ff_indexer.Exec.{Result, ok, err, no_documents, Exec, perform, pure, fail, caught, ◌>>=◌, ◌>>◌}
use ff_indexer.Mongo.{Collection, or_no_documents, upsert_one}
use ff_indexer.Mapper.Sales.{ExchangeRate}

-- `coinbase.HistoricalExchangeRate`; the fields that the store reads.
pub record HistoricalExchangeRate : Type 0 where
  pub time : ℕ
  pub open_price : ℕ
  pub currency_pair : String

abbrev pub Rates : Type 0
Rates = List ExchangeRate

abbrev pub rate_collection : Collection Rates ExchangeRate
rate_collection = record { get = λ s. s; put = λ l s. l }

abbrev pub same_rate : HistoricalExchangeRate → ExchangeRate → Bool
same_rate r e = eqb e.timestamp r.time && e.currency_pair == r.currency_pair

abbrev pub rate_of : HistoricalExchangeRate → ExchangeRate
rate_of r = record { timestamp = r.time; price = r.open_price; currency_pair = r.currency_pair }

-- `WriteHistoricalExchangeRate`: an ordered bulk write, which stops at the first failing upsert.
unfoldable pub write_historical_exchange_rate : List HistoricalExchangeRate → Exec Rates (Unit {0})
write_historical_exchange_rate [] = pure tt
write_historical_exchange_rate (r ∷ records) = do
  upsert_one rate_collection (same_rate r) (λ e. rate_of r) (rate_of r)
  write_historical_exchange_rate records

-- The first of the documents found, when they are sorted by `precedes`.
abbrev pub better :
    (ExchangeRate → ExchangeRate → Bool) → ExchangeRate → Option ExchangeRate → ExchangeRate
better precedes r none = r
better precedes r (some q) = if precedes q r then q else r

unfoldable pub first_sorted :
    (ExchangeRate → ExchangeRate → Bool) → (ExchangeRate → Bool) → Rates → Option ExchangeRate
first_sorted precedes p [] = none
first_sorted precedes p (r ∷ rates) =
    let rest = first_sorted precedes p rates in if p r then some (better precedes r rest) else rest

abbrev pub is_later : ExchangeRate → ExchangeRate → Bool
is_later q r = ltb r.timestamp q.timestamp

abbrev pub is_earlier : ExchangeRate → ExchangeRate → Bool
is_earlier q r = ltb q.timestamp r.timestamp

abbrev pub find_sorted :
    (ExchangeRate → ExchangeRate → Bool) → (ExchangeRate → Bool) → Exec Rates ExchangeRate
find_sorted precedes p = perform λ rates. (or_no_documents (first_sorted precedes p rates), rates)

abbrev pub no_rate : ExchangeRate
no_rate = record { timestamp = 0; price = 0; currency_pair = "" }

-- A rate that is not found is the zero value.
abbrev pub or_zero : Result ExchangeRate → Exec Rates ExchangeRate
or_zero (ok r) = pure r
or_zero (err no_documents) = pure no_rate
or_zero (err e) = fail e

abbrev pub closest_of : ℕ → ExchangeRate → ExchangeRate → ExchangeRate
closest_of timestamp lower greater =
    if eqb lower.timestamp 0
    then greater
    else if eqb greater.timestamp 0
    then lower
    else if leb (timestamp - lower.timestamp) (greater.timestamp - timestamp)
    then lower
    else greater

abbrev pub not_after : ℕ → String → ExchangeRate → Bool
not_after timestamp pair r = r.currency_pair == pair && leb r.timestamp timestamp

abbrev pub not_before : ℕ → String → ExchangeRate → Bool
not_before timestamp pair r = r.currency_pair == pair && leb timestamp r.timestamp

-- `GetHistoricalExchangeRate`
unfoldable pub get_historical_exchange_rate : ℕ → String → Exec Rates ExchangeRate
get_historical_exchange_rate timestamp pair =
    caught (find_sorted is_later (not_after timestamp pair)) or_zero >>= λ lower.
    if eqb timestamp lower.timestamp
    then pure lower
    else caught (find_sorted is_earlier (not_before timestamp pair)) or_zero >>= λ greater.
        pure (closest_of timestamp lower greater)

-- `GetExchangeRateLastTime`
unfoldable pub get_exchange_rate_last_time : Exec Rates ℕ
get_exchange_rate_last_time =
    caught (find_sorted is_later (λ r. true)) or_zero >>= λ r. pure r.timestamp
