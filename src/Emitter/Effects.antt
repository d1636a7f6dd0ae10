-- ===== src/Emitter/Effects.antt =====
-- What the processing of logs in services/ethereum-event-emitter/service.go does to the event queue
-- that it pushes to, with no failing call.
use ff_indexer.Prelude.{
  ℕ, String, List, [], ◌∷◌, Bool, true, Option, none, some, ◌≡◌, inl, inr, refl, ap, ◌∙◌, ltb,
  Bool-cases, All,
}
use ff_indexer.Exec.{Result, ok, err, Exec, calm, perform, pure, ◌>>◌}
use ff_indexer.Events.{NftEvent}
use ff_indexer.Series.{create_series_registry_event}
use ff_indexer.Detector.Logs.{first_topic}
use ff_indexer.Emitter.{
  EthLog, EmitterState, Node, Heard, unheard, no_transfer, heard, heard_of, on_queue, on_series,
  advance, submit, process_nft_transfer_log, get_eth_block_time,
}
use ff_indexer.Emitter.Fetch.{
  process_series_registry_log, process_all, series_type_of, typed_by, at_block_time, with_contract,
  submit_series, series_event, series_data,
}
use ff_indexer.Emitter.Queue.{is_known, push-is_known}

-- Reading the log does not panic.
abbrev pub IsWhole : Node → EthLog → Type 0
IsWhole o l = (h : Heard) × (heard_of o l ≡ ok h)

-- The queue has the event that a log tells of, if it does.
abbrev pub Knows : Result Heard → EmitterState → Type 0
Knows (ok (heard e)) s = is_known e s.queue ≡ true
Knows other s = Unit

abbrev pub Keeps : EmitterState → EmitterState → Type 0
Keeps s s' = (e : NftEvent) → is_known e s.queue ≡ true → is_known e s'.queue ≡ true

pub same_queue-Keeps : (s s' : EmitterState) → s'.queue ≡ s.queue → Keeps s s'
same_queue-Keeps s s' same e h = ap (is_known e) same ∙ h

Knows-Keeps : (r : Result Heard) (s s' : EmitterState) → Keeps s s' → Knows r s → Knows r s'
Knows-Keeps (err x) s s' keeps h = tt
Knows-Keeps (ok unheard) s s' keeps h = tt
Knows-Keeps (ok no_transfer) s s' keeps h = tt
Knows-Keeps (ok (heard e)) s s' keeps h = keeps e h

-- What a piece of the emitter does to the queue with no failing call, where `Known` says that the
-- queue knows what the piece reads.
abbrev pub Effect : Exec EmitterState (Unit {0}) → (EmitterState → Type 0) → Type 0
Effect m Known =
    (s : EmitterState)
    → (s' : EmitterState) × (m (calm s) ≡ (ok tt, calm s'))
      × Keeps s s'
      × Known s'
      × (Known s → s'.queue ≡ s.queue)

-- Knowledge that is kept by what keeps the queue's.
abbrev pub IsKept : (EmitterState → Type 0) → Type 0
IsKept Known = (s s' : EmitterState) → Keeps s s' → Known s → Known s'

pub then-Effect :
    (m n : Exec EmitterState (Unit {0})) (Known Known' : EmitterState → Type 0)
    → IsKept Known
    → IsKept Known'
    → Effect m Known
    → Effect n Known'
    → Effect (m >> n) (λ s. Known s × Known' s)
then-Effect m n Known Known' kept kept' f g s =
    let (s1, run, keeps, known, same) = f s in
    let (s2, run', keeps', known', same') = g s1 in
    (
      s2,
      rw run run',
      (λ e h. keeps' e (keeps e h)),
      (kept s1 s2 keeps' known, known'),
      λ both. same' (kept' s s1 keeps both.1) ∙ same both.0,
    )

module _ (o : Node) where
  advance-calm :
      (l : EthLog) (s : EmitterState)
      → (s' : EmitterState) × (advance o l (calm s) ≡ (ok tt, calm s')) × (s'.queue ≡ s.queue)
  unfolding advance perform pure
  advance-calm l s = elim (Bool-cases (ltb s.current_last_stopped_block l.block_number)) [
    | inl e ↦ (
      record s {
        current_last_stopped_block = l.block_number;
        last_block = some (o.decimal_text l.block_number);
      },
      rw e refl,
      refl,
    )
    | inr e ↦ (s, rw e refl, refl)
  ]

  module _ (new_id : EthLog → String) (now : EthLog → ℕ) where
    submit-Effect : (l : EthLog) (h : Heard) → Effect (submit o new_id now l h) (Knows (ok h))
    unfolding pure on_queue
    submit-Effect l unheard s = (s, refl, (λ e h. h), tt, λ h. refl)
    submit-Effect l no_transfer s =
        let (s', run, same) = advance-calm l s in
        (s', run, same_queue-Keeps s s' same, tt, λ h. same)
    submit-Effect l (heard e) s =
        let (db, run, known, kept, idle) = push-is_known (new_id l) (now l) e s.queue in
        let (s', run', same) = advance-calm l (record s { queue = db }) in
        (
          s',
          rw run run',
          (λ other h. ap (is_known other) same ∙ kept other h),
          ap (is_known e) same ∙ known,
          λ h. same ∙ idle h,
        )

    process_nft_transfer_log-Effect :
        (l : EthLog)
        → IsWhole o l
        → Effect (process_nft_transfer_log o new_id now l) (Knows (heard_of o l))
    unfolding process_nft_transfer_log pure
    process_nft_transfer_log-Effect l (h, read) = rw read (submit-Effect l h)

    abbrev pub KnowsAll : List EthLog → EmitterState → Type 0
    KnowsAll ls s = All (λ l. Knows (heard_of o l) s) ls

    pub KnowsAll-IsKept : (ls : List EthLog) → IsKept (KnowsAll ls)
    KnowsAll-IsKept [] s s' keeps h = tt
    KnowsAll-IsKept (l ∷ ls) s s' keeps h =
        (Knows-Keeps (heard_of o l) s s' keeps h.0, KnowsAll-IsKept ls s s' keeps h.1)

    pub process_all-Effect :
        (ls : List EthLog)
        → All (IsWhole o) ls
        → Effect (process_all o new_id now (process_nft_transfer_log o new_id now) ls) (KnowsAll ls)
    unfolding process_all pure
    process_all-Effect [] whole = λ s. (s, refl, (λ e h. h), tt, λ h. refl)
    process_all-Effect (l ∷ ls) whole =
        then-Effect (process_nft_transfer_log o new_id now l)
          (process_all o new_id now (process_nft_transfer_log o new_id now) ls)
          (Knows (heard_of o l)) (KnowsAll ls) (Knows-Keeps (heard_of o l)) (KnowsAll-IsKept ls)
          (process_nft_transfer_log-Effect l whole.0) (process_all-Effect ls whole.1)

    -- What the logs of the registry do to the queue: nothing.
    abbrev pub Leaves : Exec EmitterState (Unit {0}) → Type 0
    Leaves m =
        (s : EmitterState)
        → (s' : EmitterState) × (m (calm s) ≡ (ok tt, calm s')) × (s'.queue ≡ s.queue)

    submit_series-Leaves :
        (l : EthLog) (type : String) (time : ℕ) (fields : Result (List (String × String)))
        → Leaves (submit_series o new_id now l type time fields)
    unfolding pure on_series create_series_registry_event perform
    submit_series-Leaves l type time (err e) s = (s, refl, refl)
    submit_series-Leaves l type time (ok fields) s = advance-calm l (record s {
      series =
          (create_series_registry_event (new_id l) (now l) (series_event o l type time fields)
            (calm s.series)).1.store;
    })

    typed_by-Leaves :
        (l : EthLog) (time : ℕ) (kind : Option (String × Bool))
        → Leaves (typed_by o new_id now l time kind)
    unfolding pure
    typed_by-Leaves l time none s = (s, refl, refl)
    typed_by-Leaves l time (some kind) s =
        submit_series-Leaves l kind.0 time (series_data o l kind) s

    at_block_time-Leaves :
        (l : EthLog) (time : Result ℕ) (topic : String)
        → first_topic l.log.topics ≡ ok topic
        → Leaves (at_block_time o new_id now l time)
    unfolding pure
    at_block_time-Leaves l (err e) topic first s = (s, refl, refl)
    at_block_time-Leaves l (ok time) topic first s =
        rw first (typed_by-Leaves l time (series_type_of o topic) s)

    process_series_registry_log-Leaves :
        (l : EthLog) (topic : String)
        → first_topic l.log.topics ≡ ok topic
        → Leaves (process_series_registry_log o new_id now l)
    unfolding pure process_series_registry_log
    process_series_registry_log-Leaves l topic first = by_registry o.registry.new_series_registry
      where
        by_registry : (made : Result (Unit {0})) → Leaves (with_contract o new_id now l made)
        by_registry (err e) = λ s. (s, refl, refl)
        by_registry (ok u) = at_block_time-Leaves l (get_eth_block_time o l.block_hash) topic first

    pub process_series-Leaves :
        (ls : List EthLog)
        → All (λ l. (topic : String) × (first_topic l.log.topics ≡ ok topic)) ls
        → Leaves (process_all o new_id now (process_series_registry_log o new_id now) ls)
    unfolding process_all pure
    process_series-Leaves [] topics s = (s, refl, refl)
    process_series-Leaves (l ∷ ls) topics s =
        let (s1, run, same) = process_series_registry_log-Leaves l topics.0.0 topics.0.1 s in
        let (s2, run', same') = process_series-Leaves ls topics.1 s1 in
        (s2, rw run run', same' ∙ same)
