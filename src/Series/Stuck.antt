-- ===== src/Series/Stuck.antt =====
-- What becomes of a series event whose handler failed, in later rounds of the workers of
-- `StartSeriesRegistryEventWorker` of services/event-processor/server.go.
use mathlib.Core.Path.{subst}
use ff_indexer.Prelude.{
  String, List, [], ◌∷◌, ◌++◌, Bool, true, false, not, ◌&&◌, Option, none, some, ◌==◌, ◌≡◌, ◌≢◌,
  ◌⊎◌, inl, inr, refl, ap, sym, ◌∙◌, arith, one_of, one_of-append, Bool-cases, Option-cases, exists,
  find_first, update_all, eq_iff, eq_refl,
}
use ff_indexer.Exec.{World, Error, Result, ok, err, calm, perform, pure, fail}
use ff_indexer.Series.{
  SeriesEvent, SeriesSession, oldest_series, series_filter, set_series, series_processing,
  series_processed,
}
use ff_indexer.Series.Worker.{
  SeriesProcessor, update_series_registry_event, process_series, handle_series_event, abandon,
  rollback_series, commit_series, get_series_registry_event_transaction, series_event_round,
}
use ff_indexer.Series.Abandon.{passes-oldest_series, held-not_handled}

-- A round of one of the workers, with the rows that others hold.
pub record Round (X : Type 0) : Type 0 where
  pub types : List String
  pub next_stage : String
  pub locked : List String
  pub processor : SeriesProcessor X

unfoldable pub has_id : String → SeriesEvent → Bool
has_id id r = r.id == id

module _ {X : Type 0} where
  abbrev round :
      Round X → World (SeriesSession X) → Result (Option SeriesEvent) × World (SeriesSession X)
  round r = series_event_round r.types r.next_stage r.locked r.processor

  -- What the rounds handle, and the world after them.
  unfoldable pub run_rounds :
      List (Round X)
      → World (SeriesSession X)
      → List (Result (Option SeriesEvent)) × World (SeriesSession X)
  run_rounds [] w = ([], w)
  run_rounds (r ∷ rest) w =
      let (handled, v) = round r w in let (others, u) = run_rounds rest v in (handled ∷ others, u)

-- The round handled the event with the id.
unfoldable pub is_of : String → Result (Option SeriesEvent) → Bool
is_of id (ok (some e)) = e.id == id
is_of id (ok none) = false
is_of id (err x) = false

finishing : String → Bool → SeriesEvent → SeriesEvent
finishing next_stage true = set_series "" series_processed
finishing next_stage false = set_series next_stage ""

Result-cases : {A : Type 0} (r : Result A) → ((a : A) × (r ≡ ok a)) ⊎ ((x : Error) × (r ≡ err x))
Result-cases (ok a) = inl (a, refl)
Result-cases (err x) = inr (x, refl)

module _ {X : Type 0} (r : Round X) (s : SeriesSession X) where
  abbrev chosen : Option SeriesEvent
  chosen =
      oldest_series (λ e. not (one_of (s.held ++ r.locked) e.id) && series_filter r.types e) s.rows

  round-none : chosen ≡ none → round r (calm s) ≡ (ok none, calm (record s { open_tx = none }))
  unfolding series_event_round get_series_registry_event_transaction rollback_series perform pure
      fail
  round-none h = rw h refl

  module _ (e : SeriesEvent) (oldest : chosen ≡ some e) where
    round-failed :
        (why : Error)
        → (r.processor e s.outside).0 ≡ err why
        → round r (calm s) ≡ (
          ok (some e),
          calm (record s {
            open_tx = none;
            held = e.id ∷ s.held;
            outside = (r.processor e s.outside).1;
          }),
        )
    unfolding series_event_round get_series_registry_event_transaction handle_series_event
        process_series update_series_registry_event abandon perform pure
    round-failed why fails = rw oldest (rw fails refl)

    round-handled :
        (b : Bool)
        → (r.next_stage == "") ≡ b
        → (r.processor e s.outside).0 ≡ ok tt
        → round r (calm s) ≡ (
          ok (some e),
          calm (record s {
            rows =
                update_all
                  (has_id e.id)
                  (finishing r.next_stage b)
                  (update_all (has_id e.id) (set_series "" series_processing) s.rows);
            open_tx = none;
            outside = (r.processor e s.outside).1;
          }),
        )
    unfolding series_event_round get_series_registry_event_transaction handle_series_event
        process_series update_series_registry_event commit_series perform pure has_id finishing
    round-handled true last succeeds = rw oldest (rw succeeds (rw last refl))
    round-handled false last succeeds = rw oldest (rw succeeds (rw last refl))

-- A change that keeps ids, of the rows with another id, leaves the row with the id as it is.
find_first-update_all_other :
    (i j : String) (f : SeriesEvent → SeriesEvent)
    → ((x : SeriesEvent) → (f x).id ≡ x.id)
    → i ≢ j
    → (rows : List SeriesEvent)
    → find_first (has_id i) (update_all (has_id j) f rows) ≡ find_first (has_id i) rows
unfolding find_first update_all has_id
find_first-update_all_other i j f keeps other [] = refl
find_first-update_all_other i j f keeps other (x ∷ rows) = elim (Bool-cases (x.id == j)) [
  | inl e ↦ elim (Bool-cases (x.id == i)) [
    | inl d ↦
        let at_i = (eq_iff x.id i).0 d in
        let at_j = (eq_iff x.id j).0 e in let same : i ≡ j = sym at_i ∙ at_j in absurd (other same)
    | inr d ↦ rw (e, keeps x, d, find_first-update_all_other i j f keeps other rows) refl
  ]
  | inr e ↦ rw (e, find_first-update_all_other i j f keeps other rows) refl
]

finishing-keeps : (stage : String) (b : Bool) (x : SeriesEvent) → (finishing stage b x).id ≡ x.id
unfolding finishing
finishing-keeps stage true x = refl
finishing-keeps stage false x = refl

module _ {X : Type 0} where
  -- What is held stays held, and its row stays as it is.
  abbrev Keeps : String → SeriesSession X → SeriesSession X → Type 0
  Keeps i s t =
      (one_of t.held i ≡ true) × (find_first (has_id i) t.rows ≡ find_first (has_id i) s.rows)

  module _ (i : String) (r : Round X) (s : SeriesSession X) (held : one_of s.held i ≡ true) where
    After : Type 0
    After = (t : SeriesSession X) × ((round r (calm s)).1 ≡ calm t) × Keeps i s t

    after-handled : (e : SeriesEvent) → chosen r s ≡ some e → e.id ≢ i → After
    unfolding After
    after-handled e oldest other = elim (Result-cases (r.processor e s.outside).0) [
      | inl (u, succeeds) ↦ (
        _,
        ap (λ p. p.1) (round-handled r s e oldest (r.next_stage == "") refl succeeds),
        (
          held,
          find_first-update_all_other i e.id (finishing r.next_stage (r.next_stage == ""))
                (finishing-keeps r.next_stage (r.next_stage == "")) (λ y. other (sym y)) _
              ∙ find_first-update_all_other i e.id (set_series "" series_processing) (λ x. refl)
                  (λ y. other (sym y)) s.rows,
        ),
      )
      | inr (why, fails) ↦
          (_, ap (λ p. p.1) (round-failed r s e oldest why fails), (rw held (ground arith), refl))
    ]

    round-Keeps : After
    unfolding After
    round-Keeps = elim (Option-cases (chosen r s)) [
      | inl n ↦ (_, ap (λ p. p.1) (round-none r s n), (held, refl))
      | inr (e, oldest) ↦ after-handled e oldest (λ same.
          let e_held : one_of s.held e.id ≡ true =
            subst (λ y. one_of s.held y ≡ true) (sym same) held in
          let free : (not (one_of (s.held ++ r.locked) e.id) && series_filter r.types e) ≡ true =
            passes-oldest_series
              (λ o. not (one_of (s.held ++ r.locked) o.id) && series_filter r.types o) s.rows
              oldest in
          let either = one_of-append s.held r.locked e.id in ground arith)
    ]

  module _ (i : String) (r : Round X) (s : SeriesSession X) (held : one_of s.held i ≡ true) where
    not_this_result :
        (h : Result (Option SeriesEvent)) → (round r (calm s)).0 ≡ h → is_of i h ≡ false
    unfolding is_of
    not_this_result (err x) same = refl
    not_this_result (ok none) same = refl
    not_this_result (ok (some e)) same = elim (Bool-cases (e.id == i)) [
      | inl here ↦
          let free = held-not_handled r.types r.locked r.next_stage r.processor s e same in
          let e_held : one_of s.held e.id ≡ true =
            subst (λ y. one_of s.held y ≡ true) (sym ((eq_iff e.id i).0 here)) held in
          ground arith
      | inr elsewhere ↦ elsewhere
    ]

    -- The round does not handle the event whose row is held.
    not_this : is_of i (round r (calm s)).0 ≡ false
    not_this = not_this_result (round r (calm s)).0 refl

  -- None of the rounds handles the event whose row is held, and its row stays as it is.
  rounds-Keeps :
      (i : String) (rounds : List (Round X)) (s : SeriesSession X)
      → one_of s.held i ≡ true
      → (exists (is_of i) (run_rounds rounds (calm s)).0 ≡ false)
        × (find_first (has_id i) (run_rounds rounds (calm s)).1.store.rows
            ≡ find_first (has_id i) s.rows)
  unfolding run_rounds exists After
  rounds-Keeps i [] s held = (refl, refl)
  rounds-Keeps i (r ∷ rest) s held =
      let (t, same, (still, kept)) = round-Keeps i r s held in
      let (none_later, row) = rounds-Keeps i rest t still in
      rw same (rw (not_this i r s held, none_later, row) (refl, kept))

  -- Where no call of the database fails, take a round whose handler fails on the oldest event that
  -- its worker may take. The round gives that event; in no list of later rounds, of any workers
  -- with any handlers and any rows held by others, does one give an event with its id again; and
  -- its row keeps what it was before the failure, so that it is neither marked failed nor
  -- processed.
  pub series_failure-stuck :
      (types : List String) (next_stage : String) (locked : List String) (f : SeriesProcessor X)
      (s : SeriesSession X) (e : SeriesEvent) (why : Error) (rounds : List (Round X))
      → oldest_series (λ r. not (one_of (s.held ++ locked) r.id) && series_filter types r) s.rows
        ≡ some e
      → (f e s.outside).0 ≡ err why
      → let failed = series_event_round types next_stage locked f (calm s) in
        let later = run_rounds rounds failed.1 in
        (failed.0 ≡ ok (some e))
        × (exists (is_of e.id) later.0 ≡ false)
        × (find_first (has_id e.id) later.1.store.rows ≡ find_first (has_id e.id) s.rows)
  series_failure-stuck types next_stage locked f s e why rounds oldest fails =
      let r : Round X = record {
        types = types;
        next_stage = next_stage;
        locked = locked;
        processor = f;
      } in
      let held = e.id ∷ s.held in
      let (none_later, row) =
        rounds-Keeps e.id rounds
          (record s { open_tx = none; held = held; outside = (f e s.outside).1 })
          (rw (eq_refl e.id) refl) in
      rw (round-failed r s e oldest why fails) (refl, none_later, row)
