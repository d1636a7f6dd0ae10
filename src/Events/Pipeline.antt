-- ===== src/Events/Pipeline.antt =====
-- The stages that an event of each type goes through, by the workers that `ProcessEvents` of
-- services/event-processor/server.go starts.
use ff_indexer.Prelude.{
  ℕ, ◌-◌, ◌<◌, ◌≤◌, suc, String, List, [], ◌∷◌, true, false, Option, none, some, ◌≡◌, ◌≢◌, inl, inr,
  ◌⊎◌, arith, if◌then◌else◌, All, eq_iff, one_of, find_first,
}
use mathlib.Core.Option
use ff_indexer.Events.{
  Stage, done, init, full_sync, token_sale_indexing, double_sync, nft_event_stages, failed, created,
  processing, mint, burned, transfer, token_updated, NftEvent,
}
use ff_indexer.Events.Transaction.{passes}
use ff_indexer.Events.Worker.{NftWorker, nft_filters, nft_workers}

pub data Kind : Type 0 where
  minting burning moving updating : Kind

abbrev pub kind_type : Kind → String
kind_type minting = mint
kind_type burning = burned
kind_type moving = transfer
kind_type updating = token_updated

-- The intended order of stages.
abbrev pub route : Kind → Stage → Option Stage
route minting init = some full_sync
route minting full_sync = some token_sale_indexing
route burning init = some full_sync
route burning full_sync = some done
route moving init = some full_sync
route moving full_sync = some token_sale_indexing
route moving token_sale_indexing = some done
route updating init = some double_sync
route updating double_sync = some done
route _ _ = none

-- The next stage that the first worker which takes the event gives it.
abbrev pub next_stage_by_workers : ℕ → ℕ → NftEvent → Option Stage
next_stage_by_workers delay now e =
    Option.map (λ k. k.next_stage)
      (find_first (λ k. passes (nft_filters k now) e) (nft_workers delay))

next_stage_at :
    (delay now : ℕ) (κ : Kind) (s : Stage) (e : NftEvent)
    → e.type ≡ kind_type κ
    → e.stage ≡ nft_event_stages s
    → one_of (created ∷ processing ∷ []) e.status ≡ true
    → e.created_at < now - 60
    → e.created_at < now - delay
    → next_stage_by_workers delay now e ≡ route κ s
unfolding nft_filters nft_workers find_first passes
next_stage_at delay now minting init e t g c a b = rw (t, g, c) (ground arith)
next_stage_at delay now burning init e t g c a b = rw (t, g, c) (ground arith)
next_stage_at delay now moving init e t g c a b = rw (t, g, c) (ground arith)
next_stage_at delay now updating init e t g c a b = rw (t, g, c) (ground arith)
next_stage_at delay now _ _ e t g c a b = rw (t, g, c) (ground arith)

-- Take an event of one of the four types that stands at a stage, is created or processing, and is
-- older than the delays of the workers. The first worker that takes it gives it the next stage of
-- the table route; where that has none, no worker takes it.
pub next_stage_by_workers-route :
    (delay now : ℕ) (κ : Kind) (s : Stage) (e : NftEvent)
    → e.type ≡ kind_type κ
    → e.stage ≡ nft_event_stages s
    → (e.status ≡ created) ⊎ (e.status ≡ processing)
    → e.created_at < now - 60
    → e.created_at < now - delay
    → next_stage_by_workers delay now e ≡ route κ s
next_stage_by_workers-route delay now κ s e t g (inl c) = next_stage_at delay now κ s e t g (rw c)
next_stage_by_workers-route delay now κ s e t g (inr c) = next_stage_at delay now κ s e t g (rw c)

-- A failed event is taken by no worker.
pub failed-passes_not :
    (delay now : ℕ) (e : NftEvent)
    → e.status ≡ failed
    → All (λ k. passes (nft_filters k now) e ≡ false) (nft_workers delay)
unfolding nft_filters nft_workers passes
failed-passes_not delay now e h = rw h (ground arith)

abbrev pub passing : ℕ → NftEvent → List NftWorker → ℕ
passing now e [] = 0
passing now e (k ∷ ks) =
    let rest = passing now e ks in if passes (nft_filters k now) e then suc rest else rest

abbrev Differ : String → String → Type 0
Differ a b = a ≢ b

distinct_types :
    Differ transfer mint
    × Differ transfer burned
    × Differ transfer token_updated
    × Differ mint token_updated
    × Differ burned token_updated
    × Differ mint burned
distinct_types = (
  ground (arith, eq_iff transfer mint),
  ground (arith, eq_iff transfer burned),
  ground (arith, eq_iff transfer token_updated),
  ground (arith, eq_iff mint token_updated),
  ground (arith, eq_iff burned token_updated),
  ground (arith, eq_iff mint burned),
)

abbrev DifferStages : Stage → Stage → Type 0
DifferStages s t = Differ (nft_event_stages s) (nft_event_stages t)

distinct_stages :
    DifferStages init full_sync
    × DifferStages init token_sale_indexing
    × DifferStages init double_sync
    × DifferStages full_sync token_sale_indexing
distinct_stages = (
  ground (arith, eq_iff (nft_event_stages init) (nft_event_stages full_sync)),
  ground (arith, eq_iff (nft_event_stages init) (nft_event_stages token_sale_indexing)),
  ground (arith, eq_iff (nft_event_stages init) (nft_event_stages double_sync)),
  ground (arith, eq_iff (nft_event_stages full_sync) (nft_event_stages token_sale_indexing)),
)

-- The filters of at most one of the six workers pass a given event.
pub passing-le-one : (delay now : ℕ) (e : NftEvent) → passing now e (nft_workers delay) ≤ 1
unfolding nft_filters nft_workers passes
passing-le-one delay now e = ground (
  arith,
  distinct_types,
  distinct_stages,
  eq_iff transfer e.type,
  eq_iff mint e.type,
  eq_iff burned e.type,
  eq_iff token_updated e.type,
  eq_iff e.stage (nft_event_stages init),
  eq_iff e.stage (nft_event_stages full_sync),
  eq_iff e.stage (nft_event_stages double_sync),
  eq_iff e.stage (nft_event_stages token_sale_indexing),
)
