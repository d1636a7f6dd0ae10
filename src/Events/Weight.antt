-- ===== src/Events/Weight.antt =====
-- How far the rows of the queue are from the end of their stages, and what the handling of one row
-- does to that (services/event-processor/server.go).
use mathlib.Core.List.{Memᴰ}
use mathlib.Core.List.Memᴰ.{head, tail}
use ff_indexer.Prelude.{
  ℕ, ◌+◌, ◌≤◌, ◌<◌, String, List, [], ◌∷◌, Bool, true, false, ◌&&◌, ◌||◌, ◌==◌, some, ◌≡◌, ◌⊎◌,
  refl, ap, ◌∙◌, inl, inr, leb, arith, if◌then◌else◌, exists, update_all, remove_all, one_of,
  eq_iff, eq_refl, Bool-cases, Option-cases, remove_all-none,
}
use mathlib.Core.Path.{subst⁻¹}
use ff_indexer.Events.{
  Stage, done, init, full_sync, notification, feed, token_sale_indexing, double_sync,
  nft_event_stages, is_done, created, processing, failed, NftEvent, Db,
}
use ff_indexer.Events.Transaction.{
  set_stage_and_status, set_row, delete_row, save_archived, oldest, oldest_of,
}
use ff_indexer.Events.Atomic.{settled}
use ff_indexer.Events.Conservation.{has_id, HasUniqueIds, settled-done}

-- At most so many workers still take an event that stands at a stage.
abbrev pub stages_left : String → ℕ
stages_left stage =
    if stage == nft_event_stages init
    then 3
    else if stage == nft_event_stages full_sync
    then 2
    else if stage == nft_event_stages token_sale_indexing || stage == nft_event_stages double_sync
    then 1
    else 0

abbrev pub is_open : NftEvent → Bool
is_open e = one_of (created ∷ processing ∷ []) e.status

unfoldable pub weight : NftEvent → ℕ
weight e = if is_open e then stages_left e.stage else 0

unfoldable pub total_weight : List NftEvent → ℕ
total_weight [] = 0
total_weight (e ∷ es) = weight e + total_weight es

-- What the handling makes of the row of its event, where there is a next stage.
abbrev pub moved_row : Stage → Bool → NftEvent → NftEvent
moved_row next bad r =
    set_stage_and_status (nft_event_stages next) ""
      (if bad then set_stage_and_status "" failed r else r)

pub weight-moved_row :
    (next : Stage) (bad : Bool) (e : NftEvent)
    → is_done next ≡ false
    → weight (moved_row next bad e) ≤ stages_left (nft_event_stages next)
unfolding weight
weight-moved_row done bad e h = cc
weight-moved_row init bad e h = ground arith
weight-moved_row full_sync bad e h = ground arith
weight-moved_row notification bad e h = ground arith
weight-moved_row feed bad e h = ground arith
weight-moved_row token_sale_indexing bad e h = ground arith
weight-moved_row double_sync bad e h = ground arith

pub oldest-Memᴰ :
    (p : NftEvent → Bool) (es : List NftEvent) {e : NftEvent} → oldest p es ≡ some e → Memᴰ e es
unfolding oldest oldest_of
oldest-Memᴰ p [] h = cc
oldest-Memᴰ p (r ∷ es) {e} h = elim (Option-cases (oldest p es)) [
  | inl n ↦ head (ground arith)
  | inr (o, n) ↦ elim (Bool-cases (p r && leb r.created_at o.created_at)) [
    | inl first ↦ head (ground arith)
    | inr later ↦ tail (oldest-Memᴰ p es (ground arith))
  ]
]

exists-of_Memᴰ : (es : List NftEvent) {e : NftEvent} → Memᴰ e es → exists (has_id e.id) es ≡ true
unfolding exists
exists-of_Memᴰ [] m = elim m [ ]
exists-of_Memᴰ (r ∷ es) {e} (head same) =
    subst⁻¹ (λ e. exists (has_id e.id) (r ∷ es) ≡ true) same (rw (eq_refl r.id))
exists-of_Memᴰ (r ∷ es) {e} (tail m) = ground (arith, exists-of_Memᴰ es m)

-- Another row of the queue has another id.
other_id :
    (r : NftEvent) (es : List NftEvent) {e : NftEvent}
    → exists (has_id r.id) es ≡ false
    → Memᴰ e es
    → (r.id == e.id) ≡ false
other_id r es {e} u m = elim (Bool-cases (r.id == e.id)) [
  | inl same ↦
      let found = exists-of_Memᴰ es m in
      let absent : exists (has_id e.id) es ≡ false = rw (← (eq_iff r.id e.id).0 same) u in cc
  | inr differ ↦ differ
]

update_all-none :
    (p : NftEvent → Bool) (f : NftEvent → NftEvent) (es : List NftEvent)
    → exists p es ≡ false
    → update_all p f es ≡ es
unfolding exists update_all
update_all-none p f [] h = refl
update_all-none p f (r ∷ es) h = ground (arith, update_all-none p f es)

exists-kept :
    (i : String) (p : NftEvent → Bool) (es : List NftEvent)
    → exists (has_id i) es ≡ false
    → exists (has_id i) (remove_all p es) ≡ false
unfolding exists remove_all
exists-kept i p [] h = refl
exists-kept i p (r ∷ es) h = ground (arith, exists-kept i p es)

exists-changed :
    (i : String) (p : NftEvent → Bool) (f : NftEvent → NftEvent)
    → ((r : NftEvent) → (f r).id ≡ r.id)
    → (es : List NftEvent) → exists (has_id i) (update_all p f es) ≡ exists (has_id i) es
unfolding exists update_all
exists-changed i p f keeps [] = refl
exists-changed i p f keeps (r ∷ es) = elim (Bool-cases (p r)) [
  | inl e ↦ rw (e, keeps r, exists-changed i p f keeps es) refl
  | inr e ↦ rw (e, exists-changed i p f keeps es) refl
]

module _ (f : NftEvent → NftEvent) where
  -- The row of an event is the only one that is changed.
  pub total-update_all :
      (es : List NftEvent) {e : NftEvent}
      → HasUniqueIds es
      → Memᴰ e es
      → total_weight (update_all (has_id e.id) f es) + weight e ≡ total_weight es + weight (f e)
  unfolding update_all total_weight
  total-update_all [] u m = elim m [ ]
  total-update_all (r ∷ es) {e} u (head same) =
      subst⁻¹
        (λ e.
          total_weight (update_all (has_id e.id) f (r ∷ es)) + weight e
          ≡ total_weight (r ∷ es) + weight (f e))
        same (rw (eq_refl r.id, update_all-none (has_id r.id) f es u.0) (omega arith))
  total-update_all (r ∷ es) {e} u (tail m) =
      rw (other_id r es u.0 m) (omega (arith, total-update_all es u.1 m))

-- The row of an event is the only one that is removed.
pub total-remove_all :
    (es : List NftEvent) {e : NftEvent}
    → HasUniqueIds es
    → Memᴰ e es
    → total_weight (remove_all (has_id e.id) es) + weight e ≡ total_weight es
unfolding remove_all total_weight
total-remove_all [] u m = elim m [ ]
total-remove_all (r ∷ es) {e} u (head same) =
    subst⁻¹
      (λ e. total_weight (remove_all (has_id e.id) (r ∷ es)) + weight e ≡ total_weight (r ∷ es))
      same (rw (eq_refl r.id, remove_all-none (has_id r.id) es u.0) (omega arith))
total-remove_all (r ∷ es) {e} u (tail m) =
    rw (other_id r es u.0 m) (omega (arith, total-remove_all es u.1 m))

-- Two changes of the rows with an id.
update_all-update_all :
    (i : String) (f g : NftEvent → NftEvent)
    → ((r : NftEvent) → has_id i (f r) ≡ has_id i r)
    → (es : List NftEvent)
    → update_all (has_id i) g (update_all (has_id i) f es) ≡ update_all (has_id i) (λ r. g (f r)) es
unfolding update_all
update_all-update_all i f g keeps [] = refl
update_all-update_all i f g keeps (r ∷ es) = elim (Bool-cases (has_id i r)) [
  | inl e ↦ rw (e, keeps r, e, update_all-update_all i f g keeps es) refl
  | inr e ↦ rw (e, e, update_all-update_all i f g keeps es) refl
]

set_twice :
    (i stage : String) (bad : Bool) (db : Db)
    → (set_row i stage "" (if bad then set_row i "" failed db else db)).events
      ≡ update_all
          (has_id i)
          (λ r. set_stage_and_status stage "" (if bad then set_stage_and_status "" failed r else r))
          db.events
unfolding set_row
set_twice i stage true db =
    update_all-update_all i (set_stage_and_status "" failed) (set_stage_and_status stage "")
      (λ r. refl) db.events
set_twice i stage false db = refl

-- The queue after the handling of an event.
pub settled-events :
    (next : Stage) (new_id : String) (bad : Bool) (e : NftEvent) (db : Db)
    → (settled next new_id bad e db).events ≡ (
        if is_done next
        then remove_all (has_id e.id) db.events
        else update_all (has_id e.id) (moved_row next bad) db.events)
unfolding delete_row save_archived
settled-events done new_id bad e db = ap (λ d. d.events) (settled-done new_id bad e db)
settled-events next new_id bad e db = set_twice e.id (nft_event_stages next) bad db

-- The handling of an event that stands at a stage with more to come than the next one has.
pub total-settled :
    (next : Stage) (new_id : String) (bad : Bool) (e : NftEvent) (db : Db)
    → HasUniqueIds db.events
    → Memᴰ e db.events
    → 0 < weight e
    → (is_done next ≡ true) ⊎ (stages_left (nft_event_stages next) < weight e)
    → total_weight (settled next new_id bad e db).events < total_weight db.events
total-settled next new_id bad e db u m positive falls = elim (Bool-cases (is_done next)) [
  | inl d ↦
      rw (settled-events next new_id bad e db, d) (omega (arith, total-remove_all db.events u m))
  | inr n ↦
      rw (settled-events next new_id bad e db, n)
        (let less : stages_left (nft_event_stages next) < weight e = elim falls [
          | inl d ↦ cc
          | inr h ↦ h
        ] in
          omega (
            arith,
            total-update_all (moved_row next bad) db.events u m,
            weight-moved_row next bad e n,
          ))
]

HasUniqueIds-update_all :
    (i : String) (f : NftEvent → NftEvent)
    → ((r : NftEvent) → (f r).id ≡ r.id)
    → (es : List NftEvent) → HasUniqueIds es
    → HasUniqueIds (update_all (has_id i) f es)
unfolding update_all
HasUniqueIds-update_all i f keeps [] u = tt
HasUniqueIds-update_all i f keeps (r ∷ es) u = elim (Bool-cases (has_id i r)) [
  | inl e ↦
      rw (e, keeps r)
        (exists-changed r.id (has_id i) f keeps es ∙ u.0, HasUniqueIds-update_all i f keeps es u.1)
  | inr e ↦
      rw e
        (exists-changed r.id (has_id i) f keeps es ∙ u.0, HasUniqueIds-update_all i f keeps es u.1)
]

HasUniqueIds-remove_all :
    (p : NftEvent → Bool) (es : List NftEvent) → HasUniqueIds es → HasUniqueIds (remove_all p es)
unfolding remove_all
HasUniqueIds-remove_all p [] u = tt
HasUniqueIds-remove_all p (r ∷ es) u = elim (Bool-cases (p r)) [
  | inl e ↦ rw e (HasUniqueIds-remove_all p es u.1)
  | inr e ↦ rw e (exists-kept r.id p es u.0, HasUniqueIds-remove_all p es u.1)
]

pub HasUniqueIds-settled :
    (next : Stage) (new_id : String) (bad : Bool) (e : NftEvent) (db : Db)
    → HasUniqueIds db.events
    → HasUniqueIds (settled next new_id bad e db).events
HasUniqueIds-settled next new_id bad e db u = elim (Bool-cases (is_done next)) [
  | inl d ↦
      rw (settled-events next new_id bad e db, d)
        (HasUniqueIds-remove_all (has_id e.id) db.events u)
  | inr n ↦
      rw (settled-events next new_id bad e db, n)
        (HasUniqueIds-update_all e.id (moved_row next bad) (keeps bad) db.events u)
]
  where
    keeps : (bad : Bool) (r : NftEvent) → (moved_row next bad r).id ≡ r.id
    keeps true r = refl
    keeps false r = refl
