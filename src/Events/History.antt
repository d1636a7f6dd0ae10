-- ===== src/Events/History.antt =====
-- The tables over any sequence of received events, rounds of the workers of `ProcessEvents` and
-- prunings (services/event-processor/server.go), whichever database calls fail.
use mathlib.Core.List.{Memᴰ}
use ff_indexer.Prelude.{
  ℕ, String, List, [], ◌∷◌, Bool, true, false, ◌≡◌, ◌≢◌, refl, arith, inl, inr, All, All-append,
  All-of_mem, All-remove_all, Bool-cases,
}
use mathlib.Core.Path.{subst⁻¹}
use ff_indexer.Exec.{World, perform, pure, fail}
use ff_indexer.Events.{is_done, mint, processed, NftEvent, ArchivedNftEvent, Db}
use ff_indexer.Events.Store.{insert_nft_event, create_nft_event, push_nft_event, delete_nft_events}
use ff_indexer.Events.Transaction.{passes, archived_row}
use ff_indexer.Events.Worker.{Processor, NftWorker, nft_filters, nft_workers, nft_event_round}
use ff_indexer.Events.Atomic.{is_err}
use ff_indexer.Events.Selection.{eligible, idle, oldest_lem, round-IsAtomic}
use ff_indexer.Events.Conservation.{settled-archive}

abbrev pub with_faults : Db → List Bool → World Db
with_faults db faults = record { store = db; faults = faults }

-- One thing that happens to the tables; `delay` is the configured delay of `RefreshTokenData`.
pub data Step (X : Type 0) (delay : ℕ) : Db → Db → Type 0 where
  receive :
      (id : String) (now : ℕ) (e : NftEvent) (faults : List Bool) (db : Db)
      → Step X delay db (push_nft_event id now e (with_faults db faults)).1.store
  work :
      {k : NftWorker}
      → Memᴰ k (nft_workers delay)
      → (now : ℕ) (locked : List String) (new_id : String) (f : Processor X) (x : X)
        (faults : List Bool) (db : Db)
      → Step X delay db
          (nft_event_round k now locked new_id f
            (idle k now locked new_id f db x faults)).1.store.db
  prune :
      (now duration : ℕ) (faults : List Bool) (db : Db)
      → Step X delay db (delete_nft_events now duration (with_faults db faults)).1.store

pub data History (X : Type 0) (delay : ℕ) (start : Db) : Db → Type 0 where
  at_start : History X delay start start
  then_step :
      {db db' : Db} → History X delay start db → Step X delay db db' → History X delay start db'

-- What an archived row can be: processed, with event index 0, and not a mint.
pub record IsArchivable (a : ArchivedNftEvent) : Type 0 where
  pub is_processed : a.status ≡ processed
  pub has_index_zero : a.event_index ≡ 0
  pub not_mint : a.type ≢ mint

abbrev pub ArchiveOk : Db → Type 0
ArchiveOk db = All IsArchivable db.archive

archive-push :
    (id : String) (now : ℕ) (e : NftEvent) (db : Db) (faults : List Bool)
    → (push_nft_event id now e (with_faults db faults)).1.store.archive ≡ db.archive
unfolding push_nft_event create_nft_event insert_nft_event perform pure fail
archive-push id now e db faults = ground arith

-- A worker with no next stage takes no mint event.
last_worker_takes_no_mint :
    (delay now : ℕ) (e : NftEvent)
    → e.type ≡ mint
    → All
        (λ k. is_done k.next_stage ≡ true → passes (nft_filters k now) e ≡ false)
        (nft_workers delay)
unfolding nft_workers nft_filters passes
last_worker_takes_no_mint delay now e m = rw m (ground arith)

archived_row-IsArchivable :
    (new_id : String) (e : NftEvent) → e.type ≢ mint → IsArchivable (archived_row new_id e)
unfolding archived_row
archived_row-IsArchivable new_id e h = record {
  is_processed = refl;
  has_index_zero = refl;
  not_mint = h;
}

passes_of_eligible :
    (k : NftWorker) (now : ℕ) (locked : List String) (e : NftEvent)
    → eligible k now locked e ≡ true
    → passes (nft_filters k now) e ≡ true
passes_of_eligible k now locked e h = ground arith

taken_by_last_is_no_mint :
    {k : NftWorker} (delay now : ℕ) (locked : List String) (e : NftEvent)
    → Memᴰ k (nft_workers delay)
    → is_done k.next_stage ≡ true
    → eligible k now locked e ≡ true
    → e.type ≢ mint
taken_by_last_is_no_mint {k} delay now locked e m d h t = cc (
  passes_of_eligible k now locked e h,
  All-of_mem _ _ k (last_worker_takes_no_mint delay now e t) m d,
)

work-ArchiveOk :
    {k : NftWorker} {X : Type 0} (delay now : ℕ) (locked : List String) (new_id : String)
    (f : Processor X) (db : Db) (x : X) (faults : List Bool)
    → Memᴰ k (nft_workers delay)
    → ArchiveOk db
    → ArchiveOk
        (nft_event_round k now locked new_id f (idle k now locked new_id f db x faults)).1.store.db
work-ArchiveOk {k} delay now locked new_id f db x faults m ok =
    elim (round-IsAtomic k now locked new_id f db x faults) [
      | inl same ↦ subst⁻¹ ArchiveOk same ok
      | inr (e, chosen, moved) ↦
          let p = oldest_lem (eligible k now locked) db.events chosen in
          subst⁻¹ ArchiveOk moved (
            subst⁻¹ (All IsArchivable) (settled-archive new_id e db k.next_stage (is_err (f e x).0))
              (elim (Bool-cases (is_done k.next_stage)) [
                | inl d ↦ rw d (
                    All-append IsArchivable db.archive _ ok (
                      archived_row-IsArchivable new_id e
                          (taken_by_last_is_no_mint delay now locked e m d p.0),
                      tt,
                    ))
                | inr d ↦ rw d ok
              ]))
    ]

prune-ArchiveOk :
    (now duration : ℕ) (faults : List Bool) (db : Db)
    → ArchiveOk db
    → ArchiveOk (delete_nft_events now duration (with_faults db faults)).1.store
unfolding delete_nft_events perform
prune-ArchiveOk now duration [] db ok = All-remove_all IsArchivable _ db.archive ok
prune-ArchiveOk now duration (true ∷ _) db ok = ok
prune-ArchiveOk now duration (false ∷ _) db ok = All-remove_all IsArchivable _ db.archive ok

Step-ArchiveOk :
    {X : Type 0} {delay : ℕ} {db db' : Db} → Step X delay db db' → ArchiveOk db → ArchiveOk db'
Step-ArchiveOk (receive id now e faults db) ok =
    subst⁻¹ (All IsArchivable) (archive-push id now e db faults) ok
Step-ArchiveOk {delay = d} (work m now locked new_id f x faults db) ok =
    work-ArchiveOk d now locked new_id f db x faults m ok
Step-ArchiveOk (prune now duration faults db) ok = prune-ArchiveOk now duration faults db ok

-- Start with empty tables. Whatever events arrive, whatever the handlers do and whichever calls
-- fail, every archived row has status processed and event index 0, and none is a mint: no mint
-- event reaches the end of its stages.
pub History-ArchiveOk :
    {X : Type 0} {delay : ℕ} {db : Db}
    → History X delay (record { events = []; archive = [] }) db
    → ArchiveOk db
History-ArchiveOk at_start = tt
History-ArchiveOk (then_step h s) = Step-ArchiveOk s (History-ArchiveOk h)
