-- ===== src/Events/Rounds.antt =====
-- What rounds of the workers of `ProcessEvents` (services/event-processor/server.go) do to the queue
-- with no failing call.
use mathlib.Core.List.{Memᴰ}
use mathlib.Core.List.Memᴰ.{head, tail}
use ff_indexer.Prelude.{
  ℕ, ◌+◌, ◌≤◌, ◌<◌, String, List, [], ◌∷◌, Bool, true, false, ◌-◌, ltb, ◌&&◌, ◌==◌, none, some, ◌≡◌,
  ◌⊎◌, refl, sym, ap, ◌∙◌, inl, inr, arith, exists, update_all, one_of, eq_iff, Bool-cases,
  Option-cases, All, All-of_mem, All-remove_all,
}
use mathlib.Core.Path.{subst, subst⁻¹}
use ff_indexer.Exec.{World, Exec, pure, caught}
use ff_indexer.Events.{is_done, nft_event_stages, NftEvent, Db, Session}
use ff_indexer.Events.Transaction.{passes, oldest}
use ff_indexer.Events.Worker.{Processor, NftWorker, nft_filters, nft_workers, nft_event_round}
use ff_indexer.Events.Atomic.{settled, is_err}
use ff_indexer.Events.Selection.{eligible, oldest_lem, oldest-none, round-calm}
use ff_indexer.Events.Conservation.{has_id, HasUniqueIds}
use ff_indexer.Events.Weight.{
  stages_left, is_open, weight, total_weight, moved_row, oldest-Memᴰ, settled-events, total-settled,
  HasUniqueIds-settled,
}

module _ {X : Type 0} (handlers : NftWorker → Processor X) (new_id : ℕ → NftWorker → String) where
  -- A round of each of some workers, at one time.
  unfoldable pub run_workers : ℕ → List NftWorker → Exec (Session X) (Unit {0})
  run_workers now [] = pure tt
  run_workers now (k ∷ ks) =
      caught (nft_event_round k now [] (new_id now k) (handlers k)) (λ r. run_workers now ks)

  -- A round of each worker, at each of some times.
  unfoldable pub run_all : ℕ → List ℕ → Exec (Session X) (Unit {0})
  run_all delay [] = pure tt
  run_all delay (now ∷ times) =
      caught (run_workers now (nft_workers delay)) (λ r. run_all delay times)

-- What a worker takes of the events that are older than its delay.
abbrev pub takes : NftWorker → NftEvent → Bool
takes k e = one_of k.types e.type && is_open e && e.stage == nft_event_stages k.current_stage

abbrev pub IsOld : ℕ → ℕ → NftEvent → Type 0
IsOld d start e = e.created_at + d < start

eligible-takes :
    (k : NftWorker) (d start now : ℕ) (e : NftEvent)
    → k.defer_second ≤ d
    → start ≤ now
    → IsOld d start e
    → eligible k now [] e ≡ takes k e
unfolding nft_filters passes
eligible-takes k d start now e h n old = elim (Bool-cases (ltb 0 k.defer_second)) [
  | inl defers ↦
      let passed : ltb e.created_at (now - k.defer_second) ≡ true = ground arith in
      rw (defers, passed) (ground arith)
  | inr at_once ↦ rw at_once (ground arith)
]

exists-same :
    (p q : NftEvent → Bool) (P : NftEvent → Type 0)
    → ((e : NftEvent) → P e → p e ≡ q e)
    → (es : List NftEvent) → All P es
    → exists p es ≡ exists q es
unfolding exists
exists-same p q P same [] all = refl
exists-same p q P same (e ∷ es) all = rw (same e all.0, exists-same p q P same es all.1) refl

-- A worker that is not deferred by more than `d`, and gives an event a stage with less to come.
abbrev pub Advances : ℕ → NftWorker → Type 0
Advances d k =
    (k.defer_second ≤ d)
    × (0 < stages_left (nft_event_stages k.current_stage))
    × ((is_done k.next_stage ≡ true)
        ⊎ (stages_left (nft_event_stages k.next_stage)
            < stages_left (nft_event_stages k.current_stage)))

pub nft_workers-Advances : (delay : ℕ) → All (Advances (delay + 60)) (nft_workers delay)
unfolding nft_workers
nft_workers-Advances delay = (
  (omega arith, omega arith, inr (omega arith)),
  (
    (omega arith, omega arith, inl refl),
    (
      (omega arith, omega arith, inr (omega arith)),
      (
        (omega arith, omega arith, inr (omega arith)),
        ((omega arith, omega arith, inl refl), ((omega arith, omega arith, inl refl), tt)),
      ),
    ),
  ),
)

pub weight-takes :
    (k : NftWorker) (e : NftEvent)
    → takes k e ≡ true
    → weight e ≡ stages_left (nft_event_stages k.current_stage)
unfolding weight
weight-takes k e h =
    let open_row : is_open e ≡ true = ground arith in
    let here : (e.stage == nft_event_stages k.current_stage) ≡ true = ground arith in
    rw open_row (ap stages_left ((eq_iff e.stage (nft_event_stages k.current_stage)).0 here))

All-update_all :
    (P : NftEvent → Type 0) (p : NftEvent → Bool) (f : NftEvent → NftEvent)
    → ((e : NftEvent) → P e → P (f e))
    → (es : List NftEvent) → All P es
    → All P (update_all p f es)
unfolding update_all
All-update_all P p f h [] all = tt
All-update_all P p f h (e ∷ es) all = elim (Bool-cases (p e)) [
  | inl t ↦ rw t (h e all.0, All-update_all P p f h es all.1)
  | inr t ↦ rw t (all.0, All-update_all P p f h es all.1)
]

-- Between two rounds no transaction is open.
abbrev pub at_rest : {X : Type 0} → Db → X → World (Session X)
at_rest db x = record { store = record { db = db; tx = none; outside = x }; faults = [] }

-- Ids are unique, and all rows are old.
abbrev pub IsReady : ℕ → ℕ → Db → Type 0
IsReady d start db = HasUniqueIds db.events × All (IsOld d start) db.events

IsReady-settled :
    (d start : ℕ) (k : NftWorker) (new_id : String) (bad : Bool) (e : NftEvent) (db : Db)
    → IsReady d start db
    → IsReady d start (settled k.next_stage new_id bad e db)
IsReady-settled d start k new_id bad e db ready = (
  HasUniqueIds-settled k.next_stage new_id bad e db ready.0,
  subst⁻¹ (All (IsOld d start)) (settled-events k.next_stage new_id bad e db)
      (elim (Bool-cases (is_done k.next_stage)) [
        | inl last ↦ rw last (All-remove_all (IsOld d start) (has_id e.id) db.events ready.1)
        | inr more ↦ rw more (
            All-update_all (IsOld d start) (has_id e.id) (moved_row k.next_stage bad)
              (still_old bad) db.events ready.1)
      ]),
)
  where
    still_old :
        (bad : Bool) (r : NftEvent) → IsOld d start r → IsOld d start (moved_row k.next_stage bad r)
    still_old true r old = old
    still_old false r old = old

-- No row is one that a worker takes.
abbrev pub Rests : Db → NftWorker → Type 0
Rests db k = exists (takes k) db.events ≡ false

-- What a round of a worker, or of several, can come to: nothing, as no row is for them, or less to
-- come.
abbrev pub Outcome : Db → Db → Type 0 → Type 0
Outcome db db' Idle =
    ((db' ≡ db) × Idle) ⊎ ((total_weight db'.events < total_weight db.events) × (Idle → ⊥))

exists-of_mem :
    (p : NftEvent → Bool) (es : List NftEvent) {e : NftEvent}
    → Memᴰ e es
    → p e ≡ true
    → exists p es ≡ true
unfolding exists
exists-of_mem p [] m h = elim m [ ]
exists-of_mem p (r ∷ es) (head same) h = rw (subst (λ e. p e ≡ true) same h)
exists-of_mem p (r ∷ es) (tail m) h = ground (arith, exists-of_mem p es m h)

joined :
    (db db1 db2 : Db) (k : NftWorker) (ks : List NftWorker)
    → Outcome db db1 (Rests db k)
    → Outcome db1 db2 (All (Rests db1) ks)
    → Outcome db db2 (All (Rests db) (k ∷ ks))
joined db db1 db2 k ks (inl (same, rests)) out =
    elim (subst (λ b. Outcome b db2 (All (Rests b) ks)) same out) [
      | inl (same', rest) ↦ inl (same', (rests, rest))
      | inr (less, busy) ↦ inr (less, λ all. busy all.1)
    ]
joined db db1 db2 k ks (inr (less, busy)) (inl (same, rest)) =
    inr (subst⁻¹ (λ b. total_weight b.events < total_weight db.events) same less, λ all. busy all.0)
joined db db1 db2 k ks (inr (less, busy)) (inr (less', busy')) =
    inr (omega arith, λ all. busy all.0)

module _ (d start now : ℕ) (later : start ≤ now) where
  pub rests_iff :
      (k : NftWorker) (db : Db)
      → k.defer_second ≤ d
      → All (IsOld d start) db.events
      → exists (eligible k now []) db.events ≡ exists (takes k) db.events
  rests_iff k db h old =
      exists-same (eligible k now []) (takes k) (IsOld d start)
        (λ e o. eligible-takes k d start now e h later o) db.events old

  round-Outcome :
      {X : Type 0} (k : NftWorker) (new_id : String) (f : Processor X) (db : Db) (x : X)
      → Advances d k
      → IsReady d start db
      → (db' : Db) × (x' : X) × ((nft_event_round k now [] new_id f (at_rest db x)).1
          ≡ at_rest db' x')
        × IsReady d start db'
        × Outcome db db' (Rests db k)
  round-Outcome k new_id f db x (short, positive, falls) ready =
      elim (Option-cases (oldest (eligible k now []) db.events)) [
        | inl n ↦ (
          db,
          x,
          round-calm k now [] new_id f db x none n,
          ready,
          inl (
            refl,
            sym (rests_iff k db short ready.1) ∙ oldest-none (eligible k now []) db.events n,
          ),
        )
        | inr (e, n) ↦
            let here = oldest-Memᴰ (eligible k now []) db.events n in
            let old = All-of_mem (IsOld d start) db.events e ready.1 here in
            let taken : takes k e ≡ true =
              sym (eligible-takes k d start now e short later old)
              ∙ (oldest_lem (eligible k now []) db.events n).0 in
            let weighs = weight-takes k e taken in
            let bad = is_err (f e x).0 in
            (
              settled k.next_stage new_id bad e db,
              (f e x).1,
              round-calm k now [] new_id f db x (some e) n,
              IsReady-settled d start k new_id bad e db ready,
              inr (
                total-settled k.next_stage new_id bad e db ready.0 here (omega (arith, weighs))
                    (elim falls [ inl last ↦ inl last | inr less ↦ inr (omega (arith, weighs)) ]),
                λ rests. let taken_one = exists-of_mem (takes k) db.events here taken in cc,
              ),
            )
      ]

  module _ {X : Type 0} (handlers : NftWorker → Processor X) (new_id : ℕ → NftWorker → String) where
    pub run_workers-Outcome :
        (ks : List NftWorker) (db : Db) (x : X)
        → All (Advances d) ks
        → IsReady d start db
        → (db' : Db) × (x' : X) × ((run_workers handlers new_id now ks (at_rest db x)).1
            ≡ at_rest db' x')
          × IsReady d start db'
          × Outcome db db' (All (Rests db) ks)
    unfolding run_workers pure
    run_workers-Outcome [] db x advances ready = (db, x, refl, ready, inl (refl, tt))
    run_workers-Outcome (k ∷ ks) db x advances ready =
        let (db1, x1, run1, ready1, out1) =
          round-Outcome k (new_id now k) (handlers k) db x advances.0 ready in
        let (db2, x2, run2, ready2, out2) = run_workers-Outcome ks db1 x1 advances.1 ready1 in
        (
          db2,
          x2,
          ap (λ w. (run_workers handlers new_id now ks w).1) run1 ∙ run2,
          ready2,
          joined db db1 db2 k ks out1 out2,
        )
