-- ===== src/Events/Dedup.antt =====
-- Events that arrive more than once: `CreateNftEvent` of services/event-processor/store.go.
use ff_indexer.Prelude.{
  ℕ, String, [], ◌∷◌, ◌++◌, true, false, ◌≡◌, refl, if◌then◌else◌, eqb, eqb_refl, eq_refl, exists,
  exists-append, Bool-cases, inl, inr,
}
use ff_indexer.Exec.{ok, World, perform, pure, fail}
use ff_indexer.Events.{NftEvent, Db}
use ff_indexer.Events.Store.{
  as_received, is_archived_as, same_key, insert_nft_event, create_nft_event, push_nft_event,
}
use ff_indexer.Events.Transaction.{archived_row, save_archived}

abbrev pub quiet : Db → World Db
quiet db = record { store = db; faults = [] }

pub same_key_self :
    (e : NftEvent) (id : String) (now : ℕ)
    → same_key e (record e { id = id; created_at = now }) ≡ true
unfolding same_key
same_key_self e id now = simp (eq_refl, eqb_refl)

-- Where no call fails, an event that is received a second time is accepted and changes nothing,
-- whatever id and time the database would give it.
pub push_twice :
    (id id' : String) (now now' : ℕ) (e : NftEvent) (db : Db)
    → let once = (push_nft_event id now e (quiet db)).1.store in
      push_nft_event id' now' e (quiet once) ≡ (ok tt, quiet once)
unfolding push_nft_event create_nft_event insert_nft_event perform pure fail
push_twice id id' now now' e db =
    let r = as_received e in
    elim (Bool-cases (exists (is_archived_as r) db.archive)) [
      | inl a ↦ rw (a, a)
      | inr a ↦ elim (Bool-cases (exists (same_key r) db.events)) [
        | inl k ↦ rw (a, k, a, k)
        | inr k ↦ rw (a, k, a, exists-append, k, same_key_self r id now)
      ]
    ]

is_archived_as-archived_row :
    (e : NftEvent) (new_id : String)
    → is_archived_as e (archived_row new_id e) ≡ eqb 0 e.event_index
unfolding is_archived_as archived_row
is_archived_as-archived_row e new_id = simp eq_refl

is_archived_as-as_received : (e : NftEvent) → is_archived_as (as_received e) ≡ is_archived_as e
unfolding is_archived_as
is_archived_as-as_received e = refl

same_key-as_received : (e : NftEvent) → same_key (as_received e) ≡ same_key e
unfolding same_key
same_key-as_received e = refl

-- Take an event that stands neither in the queue nor in the archive, and add its archived row to
-- the archive. If it is then received again with no failing call, it is dropped where its event
-- index is 0, and otherwise it is queued anew.
pub push-archived :
    (id new_id : String) (now : ℕ) (e : NftEvent) (db : Db)
    → exists (is_archived_as e) db.archive ≡ false
    → exists (same_key e) db.events ≡ false
    → (push_nft_event id now e (quiet (save_archived (archived_row new_id e) db))).1.store.events
      ≡ (if eqb 0 e.event_index
          then db.events
          else db.events ++ record (as_received e) { id = id; created_at = now } ∷ [])
unfolding push_nft_event create_nft_event insert_nft_event perform pure fail save_archived
push-archived id new_id now e db a k = elim (Bool-cases (eqb 0 e.event_index)) [
  | inl z ↦
      rw (exists-append, is_archived_as-as_received e, a, is_archived_as-archived_row e new_id, z)
  | inr z ↦ rw (
    exists-append,
    is_archived_as-as_received e,
    a,
    is_archived_as-archived_row e new_id,
    z,
    same_key-as_received e,
    k,
  )
]
