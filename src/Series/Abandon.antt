-- ===== src/Series/Abandon.antt =====
-- Which event a round of `StartSeriesRegistryEventWorker` of services/event-processor/server.go
-- handles.
use ff_indexer.Prelude.{
  String, List, [], ◌∷◌, ◌++◌, Bool, true, false, not, ◌&&◌, Option, none, some, ◌≡◌, inl, inr,
  refl, ap, arith, if◌then◌else◌, one_of, one_of-append, leb, Bool-cases, Option-cases, sym, ◌∙◌,
}
use mathlib.Core.Path.{subst}
use mathlib.Core.Option.{some-injective}
use ff_indexer.Exec.Success.{and_then-ok, ok_injective}
use ff_indexer.Exec.{and_then, ok, calm, perform, pure, fail}
use ff_indexer.Series.{SeriesEvent, SeriesSession, oldest_series, older_series, series_filter}
use ff_indexer.Series.Worker.{
  SeriesProcessor, handle_series_event, rollback_series, get_series_registry_event_transaction,
  series_event_round,
}

choose :
    (p : SeriesEvent → Bool) (r e : SeriesEvent) (rest : Option SeriesEvent)
    → ((o : SeriesEvent) → rest ≡ some o → p o ≡ true)
    → (if p r then some (older_series r rest) else rest) ≡ some e
    → p e ≡ true
choose p r e none ih h = elim (Bool-cases (p r)) [
  | inl x ↦ subst (λ y. p y ≡ true) (some-injective r e (ground arith)) x
  | inr x ↦ ground arith
]
choose p r e (some o) ih h = elim (Bool-cases (p r)) [
  | inl x ↦ elim (Bool-cases (leb r.created_at o.created_at)) [
    | inl l ↦ subst (λ y. p y ≡ true) (some-injective r e (ground arith)) x
    | inr l ↦ subst (λ y. p y ≡ true) (some-injective o e (ground arith)) (ih o refl)
  ]
  | inr x ↦ ih e (ground arith)
]

-- The chosen row passes.
pub passes-oldest_series :
    (p : SeriesEvent → Bool) (rows : List SeriesEvent) {e : SeriesEvent}
    → oldest_series p rows ≡ some e
    → p e ≡ true
unfolding oldest_series
passes-oldest_series p [] h = cc
passes-oldest_series p (r ∷ rows) {e} h =
    choose p r e (oldest_series p rows) (λ o k. passes-oldest_series p rows k) h

module _ {X : Type 0} (types locked : List String) (next_stage : String)
    (f : SeriesProcessor X) where
  module _ (s : SeriesSession X) where
    passes : SeriesEvent → Bool
    passes r = not (one_of (s.held ++ locked) r.id) && series_filter types r

    round-none :
        oldest_series passes s.rows ≡ none
        → (series_event_round types next_stage locked f (calm s)).0 ≡ ok none
    unfolding series_event_round get_series_registry_event_transaction rollback_series perform pure
        fail passes
    round-none h = rw h

    round-some :
        (e : SeriesEvent)
        → oldest_series passes s.rows ≡ some e
        → series_event_round types next_stage locked f (calm s)
          ≡ and_then
              (handle_series_event next_stage f e
                (calm (record s { open_tx = some (λ rows. rows) })))
              (λ _. pure (some e))
    unfolding series_event_round get_series_registry_event_transaction perform pure passes
    round-some e h = rw h

    -- Where no call fails, the event that a round handles is not one whose row is held.
    pub held-not_handled :
        (e : SeriesEvent)
        → (series_event_round types next_stage locked f (calm s)).0 ≡ ok (some e)
        → one_of s.held e.id ≡ false
    unfolding passes pure
    held-not_handled e handled = elim (Option-cases (oldest_series passes s.rows)) [
      | inl n ↦ let other = round-none n in cc
      | inr (o, h) ↦
          let (u, _, same) =
            and_then-ok
              (handle_series_event next_stage f o
                (calm (record s { open_tx = some (λ rows. rows) })))
              (λ _. pure (some o)) (ap (λ r. r.0) (sym (round-some o h)) ∙ handled) in
          let o_is_e = some-injective o e (
            ok_injective (some o) (some e)
              (ap (λ r. r.0) (sym same) ∙ ap (λ r. r.0) (sym (round-some o h)) ∙ handled)) in
          subst (λ y. one_of s.held y.id ≡ false) o_is_e
            (ground (arith, passes-oldest_series passes s.rows h, one_of-append s.held locked o.id))
    ]
