-- ===== src/Events/Conservation.antt =====
-- The events of the queue and the archive before and after a round of a worker
-- (services/event-processor/server.go and store.go).
use ff_indexer.Prelude.{
  ℕ, ◌+◌, suc, String, List, [], ◌∷◌, ◌++◌, Bool, true, false, some, ◌==◌, ◌≡◌, ◌⊎◌, refl, sym, ◌∙◌,
  ap, arith, inl, inr, if◌then◌else◌, eq_refl, eq_iff, exists, remove_all, length, length-append,
  length-update_all, remove_all-none, exists-remove_all, remove_all-update_all, Bool-cases,
  Option-cases,
}
use ff_indexer.Events.{Stage, done, is_done, failed, NftEvent, ArchivedNftEvent, Db}
use ff_indexer.Events.Transaction.{
  set_stage_and_status, set_row, archived_row, save_archived, delete_row, oldest,
}
use ff_indexer.Events.Worker.{Processor, NftWorker, nft_event_round}
use ff_indexer.Events.Atomic.{settled, is_err}
use ff_indexer.Events.Selection.{eligible, idle, round-IsAtomic}

abbrev pub has_id : String → NftEvent → Bool
has_id i r = r.id == i

-- The primary key: no two rows have one id.
abbrev pub HasUniqueIds : List NftEvent → Type 0
HasUniqueIds [] = Unit
HasUniqueIds (r ∷ rs) = (exists (has_id r.id) rs ≡ false) × HasUniqueIds rs

exists-oldest :
    (p : NftEvent → Bool) (es : List NftEvent) {e : NftEvent}
    → oldest p es ≡ some e
    → exists (has_id e.id) es ≡ true
unfolding oldest exists
exists-oldest p [] h = ground arith
exists-oldest p (r ∷ es) {e} h = elim (Option-cases (oldest p es)) [
  | inl n ↦ ground (arith, eq_refl r.id)
  | inr (o, n) ↦ ground (arith, eq_refl r.id, exists-oldest p es n)
]

length-remove_id :
    (i : String) (rs : List NftEvent)
    → HasUniqueIds rs
    → exists (has_id i) rs ≡ true
    → suc (length (remove_all (has_id i) rs)) ≡ length rs
unfolding exists remove_all
length-remove_id i [] u h = ground arith
length-remove_id i (r ∷ rs) u h = elim (Bool-cases (r.id == i)) [
  | inl e ↦
      rw e (ap suc (ap length (remove_all-none (has_id i) rs (rw (sym ((eq_iff r.id i).0 e)) u.0))))
  | inr e ↦ rw e (ap suc (length-remove_id i rs u.1 (ground arith)))
]

module _ (i : String) where
  others-set_row :
      (stage status : String) (db : Db)
      → remove_all (has_id i) (set_row i stage status db).events ≡ remove_all (has_id i) db.events
  unfolding set_row
  others-set_row stage status db = remove_all-update_all (has_id i) _ (λ r. refl) db.events

  length-set_row :
      (stage status : String) (db : Db)
      → length (set_row i stage status db).events ≡ length db.events
  unfolding set_row
  length-set_row stage status db = length-update_all (has_id i) _ db.events

  others-delete_row :
      (db : Db) → remove_all (has_id i) (delete_row i db).events ≡ remove_all (has_id i) db.events
  unfolding delete_row
  others-delete_row db = remove_all-none (has_id i) _ (exists-remove_all (has_id i) db.events)

archive-set_row :
    (i stage status : String) (db : Db) → (set_row i stage status db).archive ≡ db.archive
unfolding set_row
archive-set_row i stage status db = refl

events-delete_row :
    (i : String) (db : Db) → (delete_row i db).events ≡ remove_all (has_id i) db.events
unfolding delete_row
events-delete_row i db = refl

archive-delete_row : (i : String) (db : Db) → (delete_row i db).archive ≡ db.archive
unfolding delete_row
archive-delete_row i db = refl

events-save_archived : (a : ArchivedNftEvent) (db : Db) → (save_archived a db).events ≡ db.events
unfolding save_archived
events-save_archived a db = refl

archive-save_archived :
    (a : ArchivedNftEvent) (db : Db) → (save_archived a db).archive ≡ db.archive ++ a ∷ []
unfolding save_archived
archive-save_archived a db = refl

ruleset row_laws = (
  others-set_row, others-delete_row, length-set_row, archive-set_row, archive-delete_row,
  events-save_archived, archive-save_archived,
)

-- Marking a row as failed is lost when the row is then archived.
pub settled-done :
    (new_id : String) (bad : Bool) (e : NftEvent) (db : Db)
    → settled done new_id bad e db ≡ delete_row e.id (save_archived (archived_row new_id e) db)
unfolding delete_row save_archived set_row
settled-done new_id true e db =
    rw (remove_all-update_all (has_id e.id) (set_stage_and_status "" failed) (λ r. refl) db.events)
settled-done new_id false e db = refl

module _ (new_id : String) (e : NftEvent) (db : Db) where
  -- Rows with other ids stay as they are.
  settled-others :
      (next : Stage) (bad : Bool)
      → remove_all (has_id e.id) (settled next new_id bad e db).events
        ≡ remove_all (has_id e.id) db.events
  settled-others done true = simp row_laws
  settled-others done false = simp row_laws
  settled-others _ true = simp row_laws
  settled-others _ false = simp row_laws

  -- The archive grows by the event, if there is no next stage.
  pub settled-archive :
      (next : Stage) (bad : Bool)
      → (settled next new_id bad e db).archive
        ≡ (if is_done next then db.archive ++ archived_row new_id e ∷ [] else db.archive)
  settled-archive done true = simp row_laws
  settled-archive done false = simp row_laws
  settled-archive _ true = simp row_laws
  settled-archive _ false = simp row_laws

  settled-length :
      (next : Stage) (bad : Bool)
      → HasUniqueIds db.events
      → exists (has_id e.id) db.events ≡ true
      → length (settled next new_id bad e db).events + length (settled next new_id bad e db).archive
        ≡ length db.events + length db.archive
  settled-length done true u h =
      simp (events-delete_row, row_laws, length-append)
        (omega (arith, length-remove_id e.id db.events u h))
  settled-length done false u h =
      simp (events-delete_row, row_laws, length-append)
        (omega (arith, length-remove_id e.id db.events u h))
  settled-length _ true u h = simp row_laws
  settled-length _ false u h = simp row_laws

module _ {X : Type 0} (k : NftWorker) (now : ℕ) (locked : List String) (new_id : String)
    (f : Processor X) (db : Db) (x : X) (faults : List Bool) where
  abbrev after_round : Db
  after_round =
      (nft_event_round k now locked new_id f (idle k now locked new_id f db x faults)).1.store.db

  -- Where ids are unique, a round keeps the number of events, in the queue and the archive taken
  -- together, whichever of its calls fail.
  pub round_conserves :
      HasUniqueIds db.events
      → length after_round.events + length after_round.archive
        ≡ length db.events + length db.archive
  round_conserves u = elim (round-IsAtomic k now locked new_id f db x faults) [
    | inl same ↦ ap (λ d. length d.events + length d.archive) same
    | inr (e, chosen, moved) ↦
        ap (λ d. length d.events + length d.archive) moved
        ∙ settled-length new_id e db k.next_stage (is_err (f e x).0) u
            (exists-oldest (eligible k now locked) db.events chosen)
  ]

  -- A round leaves the tables as they are, or it changes no row of the queue but those with the id
  -- of the oldest event which its worker may take, whichever of its calls fail.
  pub round_changes_one :
      (after_round ≡ db)
      ⊎ ((e : NftEvent) × (oldest (eligible k now locked) db.events ≡ some e)
          × (remove_all (has_id e.id) after_round.events ≡ remove_all (has_id e.id) db.events))
  round_changes_one = elim (round-IsAtomic k now locked new_id f db x faults) [
    | inl same ↦ inl same
    | inr (e, chosen, moved) ↦ inr (
      e,
      chosen,
      ap (λ d. remove_all (has_id e.id) d.events) moved
          ∙ settled-others new_id e db k.next_stage (is_err (f e x).0),
    )
  ]
