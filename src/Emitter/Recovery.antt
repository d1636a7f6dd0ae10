-- ===== src/Emitter/Recovery.antt =====
-- `fetchLogsFromLastStoppedBlock` of services/ethereum-event-emitter/service.go with the event queue
-- of the event processor.
use mathlib.Core.List.{Memᴰ}
use ff_indexer.Prelude.{
  ℕ, zero, suc, ◌+◌, ◌-◌, ◌≤◌, ◌<◌, String, List, ◌≡◌, refl, ap, ◌∙◌, inl, inr, arith, All,
  All-of_mem, eqb, Bool-cases,
}
use mathlib.Core.Path.{subst}
use ff_indexer.Exec.{ok, Exec, calm, pure, ◌>>◌}
use ff_indexer.Detector.Logs.{first_topic}
use ff_indexer.Emitter.{EthLog, EmitterState, Node, heard_of, process_nft_transfer_log}
use ff_indexer.Emitter.Fetch.{
  process_series_registry_log, process_all, if_found, fetch_blocks,
  fetch_logs_from_last_stopped_block,
}
use ff_indexer.Emitter.Effects.{
  IsWhole, Knows, Effect, IsKept, then-Effect, same_queue-Keeps, Leaves, KnowsAll, KnowsAll-IsKept,
  process_all-Effect, process_series-Leaves,
}

abbrev HasTopic : EthLog → Type 0
HasTopic l = (topic : String) × (first_topic l.log.topics ≡ ok topic)

fetches_blocks :
    (o : Node) (new_id : EthLog → String) (now : EthLog → ℕ) (last latest : ℕ)
    → o.block_number ≡ ok latest
    → fetch_logs_from_last_stopped_block o new_id now last
      ≡ fetch_blocks o new_id now (latest + 1 - last) last
unfolding fetch_logs_from_last_stopped_block
fetches_blocks o new_id now last latest h =
    ap (λ r. if_found o new_id now r λ latest. fetch_blocks o new_id now (latest + 1 - last) last) h

module _ (o : Node) (transfers registry_logs : ℕ → List EthLog)
    (nft : (i : ℕ) → o.nft_logs i ≡ ok (transfers i))
    (registry : (i : ℕ) → o.series_logs i ≡ ok (registry_logs i))
    (whole : (i : ℕ) → All (IsWhole o) (transfers i))
    (topics : (i : ℕ) → All HasTopic (registry_logs i)) where
  -- The queue knows the transfers of `n` blocks.
  abbrev KnowsBlocks : ℕ → ℕ → EmitterState → Type 0
  KnowsBlocks zero i s = Unit
  KnowsBlocks (suc n) i s =
      All (λ l. Knows (heard_of o l) s) (transfers i) × KnowsBlocks n (suc i) s

  module _ (new_id : EthLog → String) (now : EthLog → ℕ) where
    KnowsBlocks-IsKept : (n i : ℕ) → IsKept (KnowsBlocks n i)
    KnowsBlocks-IsKept zero i s s' keeps h = tt
    KnowsBlocks-IsKept (suc n) i s s' keeps h = (
      KnowsAll-IsKept o new_id now (transfers i) s s' keeps h.0,
      KnowsBlocks-IsKept n (suc i) s s' keeps h.1,
    )

    leaves-Effect :
        (m n : Exec EmitterState (Unit {0})) (Known : EmitterState → Type 0)
        → IsKept Known
        → Leaves o new_id now m
        → Effect n Known
        → Effect (m >> n) Known
    leaves-Effect m n Known kept f g s =
        let (s1, run, same) = f s in
        let (s2, run', keeps, known, idle) = g s1 in
        (
          s2,
          rw run run',
          (λ e h. keeps e (same_queue-Keeps s s1 same e h)),
          known,
          λ h. idle (kept s s1 (same_queue-Keeps s s1 same) h) ∙ same,
        )

    fetch_blocks-Effect : (n i : ℕ) → Effect (fetch_blocks o new_id now n i) (KnowsBlocks n i)
    unfolding fetch_blocks pure
    fetch_blocks-Effect zero i = λ s. (s, refl, (λ e h. h), tt, λ h. refl)
    fetch_blocks-Effect (suc n) i =
        let first =
          process_all o new_id now (process_nft_transfer_log o new_id now) (transfers i) in
        let second =
          process_all o new_id now (process_series_registry_log o new_id now) (registry_logs i) in
        let rest = fetch_blocks o new_id now n (suc i) in
        rw (nft i, registry i)
          (then-Effect first (second >> rest) (KnowsAll o new_id now (transfers i))
            (KnowsBlocks n (suc i)) (KnowsAll-IsKept o new_id now (transfers i))
            (KnowsBlocks-IsKept n (suc i)) (process_all-Effect o new_id now (transfers i) (whole i))
            (leaves-Effect second rest (KnowsBlocks n (suc i)) (KnowsBlocks-IsKept n (suc i))
              (process_series-Leaves o new_id now (registry_logs i) (topics i))
              (fetch_blocks-Effect n (suc i))))

  of_block :
      (n i x : ℕ) (s : EmitterState)
      → i ≤ x
      → x < i + n
      → KnowsBlocks n i s
      → All (λ l. Knows (heard_of o l) s) (transfers x)
  of_block zero i x s low high h = absurd (omega arith)
  of_block (suc n) i x s low high h = elim (Bool-cases (eqb i x)) [
    | inl e ↦
        let same : i ≡ x = ground arith in
        subst (λ x. All (λ l. Knows (heard_of o l) s) (transfers x)) same h.0
    | inr e ↦ of_block n (suc i) x s (ground arith) (omega arith) h.1
  ]

  -- Take a node that returns the logs of each block, of which reading those of transfers does not
  -- panic and those of the registry have a topic. With no failing call, fetching the logs from a
  -- block on succeeds; then the queue or the archive of the event processor has the event of every
  -- log of a transfer, from that block to the latest, that tells of one; and fetching them again
  -- succeeds and leaves queue and archive as they are.
  pub fetch_logs_from_last_stopped_block_lem :
      (new_id new_id' : EthLog → String) (now now' : EthLog → ℕ) (last latest : ℕ)
      (s : EmitterState)
      → o.block_number ≡ ok latest
      → (s' : EmitterState) × (fetch_logs_from_last_stopped_block o new_id now last (calm s)
          ≡ (ok tt, calm s'))
        × ((x : ℕ) (l : EthLog)
            → last ≤ x
            → x ≤ latest
            → Memᴰ l (transfers x)
            → Knows (heard_of o l) s')
        × ((s'' : EmitterState) × (fetch_logs_from_last_stopped_block o new_id' now' last (calm s')
              ≡ (ok tt, calm s''))
            × (s''.queue ≡ s'.queue))
  fetch_logs_from_last_stopped_block_lem new_id new_id' now now' last latest s h =
      let n = latest + 1 - last in
      let (s1, run, keeps, known, idle) = fetch_blocks-Effect new_id now n last s in
      let (s2, run', keeps', known', idle') = fetch_blocks-Effect new_id' now' n last s1 in
      (
        s1,
        ap (λ m. m (calm s)) (fetches_blocks o new_id now last latest h) ∙ run,
        (λ x l low high m.
            All-of_mem (λ l. Knows (heard_of o l) s1) (transfers x) l
              (of_block n last x s1 low (omega arith) known) m),
        (
          s2,
          ap (λ m. m (calm s1)) (fetches_blocks o new_id' now' last latest h) ∙ run',
          idle' known,
        ),
      )
