-- ===== src/Events/Drain.antt =====
-- The workers of `ProcessEvents` (services/event-processor/server.go), round after round, with no
-- failing call: the queue comes to rest.
use ff_indexer.Prelude.{
  ℕ, ◌+◌, ◌*◌, ◌≤◌, ◌<◌, String, List, [], ◌∷◌, false, ◌≡◌, ◌⊎◌, refl, ap, ◌∙◌, inl, inr, arith,
  exists, length, Bool-cases, All,
}
use mathlib.Core.Path.{subst⁻¹}
use ff_indexer.Exec.{pure}
use ff_indexer.Events.{nft_event_stages, NftEvent, Db}
use ff_indexer.Events.Worker.{Processor, NftWorker, nft_workers}
use ff_indexer.Events.Selection.{eligible}
use ff_indexer.Events.Conservation.{HasUniqueIds}
use ff_indexer.Events.Rounds.{
  takes, IsOld, Advances, nft_workers-Advances, IsReady, Rests, at_rest, rests_iff, weight-takes,
  run_all, run_workers-Outcome,
}
use ff_indexer.Events.Weight.{stages_left, weight, total_weight}

-- A queue with nothing to come has no row for a worker.
rests-of_zero :
    (k : NftWorker) (es : List NftEvent)
    → 0 < stages_left (nft_event_stages k.current_stage)
    → total_weight es ≤ 0
    → exists (takes k) es ≡ false
unfolding exists total_weight
rests-of_zero k [] positive h = refl
rests-of_zero k (e ∷ es) positive h = elim (Bool-cases (takes k e)) [
  | inl taken ↦ absurd (omega (arith, weight-takes k e taken))
  | inr free ↦ rw free (rests-of_zero k es positive (omega arith))
]

All-Rests :
    (d : ℕ) (ks : List NftWorker) (db : Db)
    → All (Advances d) ks
    → total_weight db.events ≤ 0
    → All (Rests db) ks
All-Rests d [] db advances h = tt
All-Rests d (k ∷ ks) db advances h =
    (rests-of_zero k db.events advances.0.1 h, All-Rests d ks db advances.1 h)

weight-le : (e : NftEvent) → weight e ≤ 3
unfolding weight
weight-le e = ground arith

total_weight-le : (es : List NftEvent) → total_weight es ≤ 3 * length es
unfolding total_weight
total_weight-le [] = omega arith
total_weight-le (e ∷ es) = omega (arith, weight-le e, total_weight-le es)

module _ {X : Type 0} (handlers : NftWorker → Processor X) (new_id : ℕ → NftWorker → String)
    (delay start : ℕ) where
  -- All workers rest already, or there are times enough for what is to come.
  run_all-Rests :
      (times : List ℕ) (db : Db) (x : X)
      → All (λ now. start ≤ now) times
      → IsReady (delay + 60) start db
      → All (Rests db) (nft_workers delay) ⊎ (total_weight db.events ≤ length times)
      → (db' : Db) × (x' : X) × ((run_all handlers new_id delay times (at_rest db x)).1
          ≡ at_rest db' x')
        × IsReady (delay + 60) start db'
        × All (Rests db') (nft_workers delay)
  unfolding run_all pure
  run_all-Rests [] db x later ready enough = (
    db,
    x,
    refl,
    ready,
    elim enough [
      | inl rest ↦ rest
      | inr few ↦ All-Rests (delay + 60) (nft_workers delay) db (nft_workers-Advances delay) few
    ],
  )
  run_all-Rests (now ∷ times) db x later ready enough =
      let (db1, x1, run1, ready1, out) =
        run_workers-Outcome (delay + 60) start now later.0 handlers new_id (nft_workers delay) db x
          (nft_workers-Advances delay) ready in
      let next : All (Rests db1) (nft_workers delay) ⊎ (total_weight db1.events ≤ length times) =
        elim out [
          | inl (same, rest) ↦ inl (subst⁻¹ (λ b. All (Rests b) (nft_workers delay)) same rest)
          | inr (less, busy) ↦ elim enough [
            | inl rest ↦ absurd (busy rest)
            | inr few ↦ inr (omega arith)
          ]
        ] in
      let (db2, x2, run2, ready2, rest2) = run_all-Rests times db1 x1 later.1 ready1 next in
      (db2, x2, ap (λ w. (run_all handlers new_id delay times w).1) run1 ∙ run2, ready2, rest2)

  -- Take a queue with unique ids, whose rows are older at the start than a minute and the delay of
  -- the workers, and rounds of all six workers at times not before the start, at least three times
  -- as many as there are rows, with no failing call of the database and any handlers. Afterwards
  -- no row is for any worker, at any time from the start on.
  pub run_all_drains :
      (times : List ℕ) (db : Db) (x : X)
      → All (λ now. start ≤ now) times
      → HasUniqueIds db.events
      → All (λ e. e.created_at + (delay + 60) < start) db.events
      → 3 * length db.events ≤ length times
      → (now : ℕ) → start ≤ now
      → All
          (λ k.
            exists
              (eligible k now [])
              (run_all handlers new_id delay times (at_rest db x)).1.store.db.events
            ≡ false)
          (nft_workers delay)
  run_all_drains times db x later unique old enough now at =
      let (db', x', run, ready, rest) =
        run_all-Rests times db x later (unique, old)
          (inr (omega (arith, total_weight-le db.events))) in
      subst⁻¹
        (λ w. All (λ k. exists (eligible k now []) w.store.db.events ≡ false) (nft_workers delay))
        run (taken_by_none (nft_workers delay) db' (nft_workers-Advances delay) ready.1 rest)
    where
      taken_by_none :
          (ks : List NftWorker) (db : Db)
          → All (Advances (delay + 60)) ks
          → All (IsOld (delay + 60) start) db.events
          → All (Rests db) ks
          → All (λ k. exists (eligible k now []) db.events ≡ false) ks
      taken_by_none [] db advances old rest = tt
      taken_by_none (k ∷ ks) db advances old rest = (
        rests_iff (delay + 60) start now at k db advances.0.0 old ∙ rest.0,
        taken_by_none ks db advances.1 old rest.1,
      )
