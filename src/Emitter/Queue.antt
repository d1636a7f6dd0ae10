-- ===== src/Emitter/Queue.antt =====
-- What the event queue (services/event-processor/store.go) knows of an event.
use ff_indexer.Prelude.{
  ℕ, String, [], ◌∷◌, ◌++◌, Bool, true, false, ◌||◌, ◌≡◌, inl, inr, refl, arith, exists,
  exists-append, Bool-cases,
}
use ff_indexer.Exec.{ok, calm, perform, pure, fail}
use ff_indexer.Events.{NftEvent, Db}
use ff_indexer.Events.Store.{
  as_received, is_archived_as, same_key, insert_nft_event, create_nft_event, push_nft_event,
}
use ff_indexer.Events.Dedup.{same_key_self}

-- The event is archived or queued.
unfoldable pub is_known : NftEvent → Db → Bool
is_known e db = exists (is_archived_as e) db.archive || exists (same_key e) db.events

pub push-known :
    (id : String) (now : ℕ) (e : NftEvent) (db : Db)
    → is_known e db ≡ true
    → push_nft_event id now e (calm db) ≡ (ok tt, calm db)
unfolding is_known push_nft_event create_nft_event insert_nft_event perform pure fail is_archived_as
    same_key
push-known id now e db h = elim (Bool-cases (exists (is_archived_as e) db.archive)) [
  | inl a ↦ rw a refl
  | inr a ↦ let k : exists (same_key e) db.events ≡ true = ground arith in rw (a, k) refl
]

push-added :
    (id : String) (now : ℕ) (e : NftEvent) (db : Db)
    → is_known e db ≡ false
    → (db' : Db) × (push_nft_event id now e (calm db) ≡ (ok tt, calm db'))
      × (is_known e db' ≡ true)
      × ((other : NftEvent) → is_known other db ≡ true → is_known other db' ≡ true)
      × (is_known e db ≡ true → db' ≡ db)
unfolding is_known push_nft_event create_nft_event insert_nft_event perform pure fail is_archived_as
    same_key
push-added id now e db h =
    let a : exists (is_archived_as e) db.archive ≡ false = ground arith in
    let k : exists (same_key e) db.events ≡ false = ground arith in
    let row = record (as_received e) { id = id; created_at = now } in
    (
      record db { events = db.events ++ row ∷ [] },
      rw (a, k) refl,
      rw (exists-append (same_key e) db.events row, same_key_self e id now) (ground arith),
      (λ other known. rw (exists-append (same_key other) db.events row) (ground arith)),
      λ known. cc,
    )

-- An event that is pushed is known, and what was known stays so; if it was known, nothing changes.
pub push-is_known :
    (id : String) (now : ℕ) (e : NftEvent) (db : Db)
    → (db' : Db) × (push_nft_event id now e (calm db) ≡ (ok tt, calm db'))
      × (is_known e db' ≡ true)
      × ((other : NftEvent) → is_known other db ≡ true → is_known other db' ≡ true)
      × (is_known e db ≡ true → db' ≡ db)
push-is_known id now e db = elim (Bool-cases (is_known e db)) [
  | inl known ↦ (db, push-known id now e db known, known, (λ other h. h), λ known. refl)
  | inr new ↦ push-added id now e db new
]
