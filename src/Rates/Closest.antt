-- ===== src/Rates/Closest.antt =====
-- `GetHistoricalExchangeRate` of store.go against the closest rate.
use mathlib.Core.List.{Memᴰ}
use mathlib.Core.List.Memᴰ.{head, tail}
use ff_indexer.Prelude.{
  ℕ, ◌+◌, ◌-◌, ◌≤◌, ◌<◌, ◌≡◌, ◌⊎◌, inl, inr, refl, String, [], ◌∷◌, Bool, true, false, ◌==◌, Option,
  none, some, eqb, leb, if◌then◌else◌, arith, Bool-cases,
}
use ff_indexer.Exec.{ok, World, calm, perform, pure}
use ff_indexer.Mongo.{or_no_documents}
use ff_indexer.Mapper.Sales.{ExchangeRate}
use ff_indexer.Rates.{
  Rates, first_sorted, better, is_later, is_earlier, not_after, not_before, no_rate, closest_of,
  or_zero, get_historical_exchange_rate,
}

-- How far apart two times are.
abbrev pub distance : ℕ → ℕ → ℕ
distance a b = (a - b) + (b - a)

-- What a sort by an order relies on.
record Sorts (precedes : ExchangeRate → ExchangeRate → Bool) : Type 0 where
  irrefl : (a : ExchangeRate) → precedes a a ≡ false
  asym : (a b : ExchangeRate) → precedes a b ≡ true → precedes b a ≡ false
  trans :
      (a b c : ExchangeRate) → precedes a b ≡ false → precedes b c ≡ false → precedes a c ≡ false

is_later-Sorts : Sorts is_later
is_later-Sorts = record {
  irrefl = λ a. ground arith;
  asym = λ a b h. ground arith;
  trans = λ a b c h k. ground arith;
}

is_earlier-Sorts : Sorts is_earlier
is_earlier-Sorts = record {
  irrefl = λ a. ground arith;
  asym = λ a b h. ground arith;
  trans = λ a b c h k. ground arith;
}

module _ (precedes : ExchangeRate → ExchangeRate → Bool) (p : ExchangeRate → Bool) where
  -- The answer to the query: the first of those that pass, if some do.
  abbrev IsFirst : Rates → Option ExchangeRate → Type 0
  IsFirst rates none = (q : ExchangeRate) → Memᴰ q rates → p q ≡ false
  IsFirst rates (some r) =
      (p r ≡ true)
      × Memᴰ r rates
      × ((q : ExchangeRate) → Memᴰ q rates → p q ≡ true → precedes q r ≡ false)

  module _ (s : Sorts precedes) where
    skip :
        (r : ExchangeRate) (rates : Rates) (o : Option ExchangeRate)
        → p r ≡ false
        → IsFirst rates o
        → IsFirst (r ∷ rates) o
    skip r rates none fails none_passes = none_still
      where
        none_still : (q : ExchangeRate) → Memᴰ q (r ∷ rates) → p q ≡ false
        none_still q (head e) = rw e fails
        none_still q (tail m) = none_passes q m
    skip r rates (some b) fails (passes, member, best) = (passes, tail member, later_ones)
      where
        later_ones : (q : ExchangeRate) → Memᴰ q (r ∷ rates) → p q ≡ true → precedes q b ≡ false
        later_ones q (head e) h = absurd (let f : p q ≡ false = rw e fails in cc)
        later_ones q (tail m) h = best q m h

    choose :
        (r : ExchangeRate) (rates : Rates) (o : Option ExchangeRate)
        → p r ≡ true
        → IsFirst rates o
        → IsFirst (r ∷ rates) (some (better precedes r o))
    choose r rates none passes none_passes = (passes, head refl, others)
      where
        others : (q : ExchangeRate) → Memᴰ q (r ∷ rates) → p q ≡ true → precedes q r ≡ false
        others q (head e) h = rw e (s.irrefl r)
        others q (tail m) h = absurd (let f = none_passes q m in cc)
    choose r rates (some b) passes (b_passes, member, best) = elim (Bool-cases (precedes b r)) [
      | inl e ↦ rw e (b_passes, tail member, beats e)
      | inr e ↦ rw e (passes, head refl, kept e)
    ]
      where
        beats :
            precedes b r ≡ true
            → (q : ExchangeRate) → Memᴰ q (r ∷ rates)
            → p q ≡ true
            → precedes q b ≡ false
        beats e q (head same) h = rw same (s.asym b r e)
        beats e q (tail m) h = best q m h

        kept :
            precedes b r ≡ false
            → (q : ExchangeRate) → Memᴰ q (r ∷ rates)
            → p q ≡ true
            → precedes q r ≡ false
        kept e q (head same) h = rw same (s.irrefl r)
        kept e q (tail m) h = s.trans q b r (best q m h) e

    first_sorted-IsFirst : (rates : Rates) → IsFirst rates (first_sorted precedes p rates)
    unfolding first_sorted
    first_sorted-IsFirst [] = λ q m. elim m [ ]
    first_sorted-IsFirst (r ∷ rates) = elim (Bool-cases (p r)) [
      | inl e ↦ rw e (choose r rates _ e (first_sorted-IsFirst rates))
      | inr e ↦ rw e (skip r rates _ e (first_sorted-IsFirst rates))
    ]

abbrev or_no_rate : Option ExchangeRate → ExchangeRate
or_no_rate none = no_rate
or_no_rate (some r) = r

found_or_zero :
    (o : Option ExchangeRate) (w : World Rates)
    → or_zero (or_no_documents o) w ≡ (ok (or_no_rate o), w)
unfolding pure
found_or_zero none w = refl
found_or_zero (some r) w = refl

-- What the reader returns for a lower and a greater rate.
abbrev picked : ℕ → Option ExchangeRate → Option ExchangeRate → ExchangeRate
picked timestamp lower greater =
    if eqb timestamp (or_no_rate lower).timestamp
    then or_no_rate lower
    else closest_of timestamp (or_no_rate lower) (or_no_rate greater)

module _ (timestamp : ℕ) (pair : String) where
  abbrev lower_of : Rates → Option ExchangeRate
  lower_of rates = first_sorted is_later (not_after timestamp pair) rates

  abbrev greater_of : Rates → Option ExchangeRate
  greater_of rates = first_sorted is_earlier (not_before timestamp pair) rates

  run_picked :
      (rates : Rates)
      → get_historical_exchange_rate timestamp pair (calm rates)
        ≡ (ok (picked timestamp (lower_of rates) (greater_of rates)), calm rates)
  unfolding get_historical_exchange_rate perform pure
  run_picked rates =
      rw (found_or_zero (lower_of rates) (calm rates))
        (elim (Bool-cases (eqb timestamp (or_no_rate (lower_of rates)).timestamp)) [
          | inl e ↦ rw e refl
          | inr e ↦ rw (e, found_or_zero (greater_of rates) (calm rates)) refl
        ])

  -- The rate is of the pair and none of the pair is closer, or there is none of the pair.
  abbrev pub IsClosest : Rates → ExchangeRate → Type 0
  IsClosest rates r =
      ((r ≡ no_rate) × ((q : ExchangeRate) → Memᴰ q rates → (q.currency_pair == pair) ≡ false))
      ⊎ ((r.currency_pair == pair ≡ true)
          × Memᴰ r rates
          × ((q : ExchangeRate)
              → Memᴰ q rates
              → q.currency_pair == pair ≡ true
              → distance timestamp r.timestamp ≤ distance timestamp q.timestamp))

  picked-IsClosest :
      (rates : Rates) (lower greater : Option ExchangeRate)
      → 0 < timestamp
      → ((q : ExchangeRate) → Memᴰ q rates → 0 < q.timestamp)
      → IsFirst is_later (not_after timestamp pair) rates lower
      → IsFirst is_earlier (not_before timestamp pair) rates greater
      → IsClosest rates (picked timestamp lower greater)
  picked-IsClosest rates none none pos dated no_lower no_greater =
      let differs : eqb timestamp 0 ≡ false = ground arith in
      rw differs (inl (refl, λ q m. ground (arith, no_lower q m, no_greater q m)))
  picked-IsClosest rates none (some g) pos dated no_lower (g_passes, g_member, g_best) =
      let differs : eqb timestamp 0 ≡ false = ground arith in
      rw differs (inr (ground arith, g_member, λ q m h. ground (arith, no_lower q m, g_best q m)))
  picked-IsClosest rates (some l) none pos dated (l_passes, l_member, l_best) no_greater =
      let exists_time = dated l l_member in
      let exact : picked timestamp (some l) none ≡ l = ground arith in
      rw exact (inr (ground arith, l_member, λ q m h. ground (arith, l_best q m, no_greater q m)))
  picked-IsClosest rates (some l) (some g) pos dated (l_passes, l_member, l_best)
        (g_passes, g_member, g_best) =
      let lower_time = dated l l_member in
      let greater_time = dated g g_member in
      elim (Bool-cases (leb (timestamp - l.timestamp) (g.timestamp - timestamp))) [
        | inl e ↦
            let exact : picked timestamp (some l) (some g) ≡ l = ground arith in
            rw exact (inr (ground arith, l_member, λ q m h. ground (arith, l_best q m, g_best q m)))
        | inr e ↦
            let exact : picked timestamp (some l) (some g) ≡ g = ground arith in
            rw exact (inr (ground arith, g_member, λ q m h. ground (arith, l_best q m, g_best q m)))
      ]

  -- For a time after the zero time, where no call fails and no stored rate has the zero time:
  -- GetHistoricalExchangeRate returns a stored rate of the pair such that no stored rate of the
  -- pair is closer in time, or the zero rate if none of the pair is stored.
  pub get_historical_exchange_rate_lem :
      (rates : Rates)
      → 0 < timestamp
      → ((q : ExchangeRate) → Memᴰ q rates → 0 < q.timestamp)
      → (r : ExchangeRate) × (get_historical_exchange_rate timestamp pair (calm rates)
          ≡ (ok r, calm rates))
        × IsClosest rates r
  get_historical_exchange_rate_lem rates pos dated = (
    picked timestamp (lower_of rates) (greater_of rates),
    run_picked rates,
    picked-IsClosest rates _ _ pos dated
        (first_sorted-IsFirst is_later (not_after timestamp pair) is_later-Sorts rates)
        (first_sorted-IsFirst is_earlier (not_before timestamp pair) is_earlier-Sorts rates),
  )
