-- ===== src/Events/Selection.antt =====
-- Which event a round takes: `GetNftEventTransaction` of services/event-processor/store.go and
-- the filters of `StartNftEventWorker` in services/event-processor/server.go.
use ff_indexer.Prelude.{
  ℕ, ◌≤◌, String, List, [], ◌∷◌, Bool, true, false, not, ◌&&◌, Option, none, some, ◌≡◌, refl, sym,
  ◌∙◌, ◌⊎◌, inl, inr, arith, All, Bool-cases, Option-cases, one_of, exists,
}
use mathlib.Core.Path.{subst}
use ff_indexer.Exec.{
  Result, ok, err, World, perform, pure, fail, call_failed, no_documents, store-and_then-pure,
}
use ff_indexer.Events.{NftEvent, Db, Session}
use ff_indexer.Events.Transaction.{
  oldest, oldest_of, passes, begin, rollback, get_nft_event_transaction,
}
use ff_indexer.Events.Worker.{
  Processor, NftWorker, nft_filters, nft_event_round, handle_nft_event, after_query,
}
use ff_indexer.Events.Atomic.{settled, opened, is_err, handled, handle-calm, handle-atomic}

module _ (p : NftEvent → Bool) where
  -- No row that passes is older than `e`.
  abbrev pub IsOldest : NftEvent → List NftEvent → Type 0
  IsOldest e = All (λ r. (p r ≡ false) ⊎ (e.created_at ≤ r.created_at))

  IsOldest-trans :
      (e o : NftEvent) (es : List NftEvent)
      → e.created_at ≤ o.created_at
      → IsOldest o es
      → IsOldest e es
  IsOldest-trans e o [] h all = tt
  IsOldest-trans e o (r ∷ es) h all = (ground (arith, all.0), IsOldest-trans e o es h all.1)

  IsOldest-of_none : (e : NftEvent) (es : List NftEvent) → oldest p es ≡ none → IsOldest e es
  unfolding oldest
  IsOldest-of_none e [] h = tt
  IsOldest-of_none e (r ∷ es) h = (ground arith, IsOldest-of_none e es (ground arith))

  -- The row that the query chooses passes the filter, and no row of the queue that passes it is
  -- older.
  pub oldest_lem :
      (es : List NftEvent) {e : NftEvent} → oldest p es ≡ some e → (p e ≡ true) × IsOldest e es
  unfolding oldest
  oldest_lem [] h = ground arith
  oldest_lem (r ∷ es) {e} h = elim (Option-cases (oldest p es)) [
    | inl n ↦ (ground arith, (ground arith, IsOldest-of_none e es n))
    | inr (o, n) ↦
        let (po, all) = oldest_lem es n in
        (ground arith, (ground arith, IsOldest-trans e o es (ground arith) all))
  ]

  -- Nothing is chosen exactly when no row passes.
  pub oldest-none : (es : List NftEvent) → oldest p es ≡ none → exists p es ≡ false
  unfolding oldest exists
  oldest-none [] h = refl
  oldest-none (r ∷ es) h = ground (arith, oldest-none es)

  pub oldest-some :
      (es : List NftEvent) → exists p es ≡ true → (e : NftEvent) × (oldest p es ≡ some e)
  unfolding oldest exists
  oldest-some [] h = ground arith
  oldest-some (r ∷ es) h = elim (Bool-cases (p r)) [
    | inl pr ↦ (oldest_of r (oldest p es), rw pr)
    | inr no_r ↦ rw no_r (oldest-some es (ground arith))
  ]

-- The rows that a round of worker `k` may take.
abbrev pub eligible : NftWorker → ℕ → List String → NftEvent → Bool
eligible k now locked e = not (one_of locked e.id) && passes (nft_filters k now) e

module _ {X : Type 0} (k : NftWorker) (now : ℕ) (locked : List String) (new_id : String)
    (f : Processor X) (db : Db) (x : X) where
  abbrev pub idle : List Bool → World (Session X)
  idle faults = record { store = record { db = db; tx = none; outside = x }; faults = faults }

  found : List Bool → Option NftEvent → Result NftEvent × World (Session X)
  found later none = (err no_documents, idle later)
  found later (some e) = (ok e, opened f e new_id db x later)

  -- What the query returns, by the faults of `Begin` and of the query itself.
  queried : List Bool → Option NftEvent → Result NftEvent × World (Session X)
  unfolding found
  queried [] o = found [] o
  queried (true ∷ later) o = (err call_failed, idle later)
  queried (false ∷ []) o = found [] o
  queried (false ∷ true ∷ later) o = (err call_failed, idle later)
  queried (false ∷ false ∷ later) o = found later o

  get_nft_event_transaction_lem :
      (faults : List Bool)
      → get_nft_event_transaction locked (nft_filters k now) (idle faults)
        ≡ queried faults (oldest (eligible k now locked) db.events)
  unfolding get_nft_event_transaction begin perform rollback pure fail queried
  get_nft_event_transaction_lem (true ∷ later) = refl
  get_nft_event_transaction_lem (false ∷ true ∷ later) = refl
  get_nft_event_transaction_lem _ = elim (Option-cases (oldest (eligible k now locked) db.events)) [
    | inl n ↦ rw n
    | inr (e, n) ↦ rw n
  ]

  -- The tables are as before, or as the handling of the chosen row leaves them.
  abbrev pub IsAtomic : Db → Type 0
  IsAtomic db' =
      (db' ≡ db)
      ⊎ ((e : NftEvent) × (oldest (eligible k now locked) db.events ≡ some e)
          × (db' ≡ settled k.next_stage new_id (is_err (f e x).0) e db))

  abbrev rest_of_round : Result NftEvent × World (Session X) → Db
  rest_of_round (r, w) = (after_query k.next_stage new_id f r w).1.store.db

  round_of_found :
      (later : List Bool) (o : Option NftEvent)
      → oldest (eligible k now locked) db.events ≡ o
      → IsAtomic (rest_of_round (found later o))
  unfolding found pure
  round_of_found later none n = inl refl
  round_of_found later (some e) n =
      let w = opened f e new_id db x later in
      subst (λ v. IsAtomic v.store.db)
        (sym (store-and_then-pure (handle_nft_event k.next_stage new_id f e w) (some e)))
        (elim (handle-atomic f e new_id db x k.next_stage later) [
          | inl same ↦ inl same
          | inr moved ↦ inr (e, n, moved)
        ])

  round_of_queried :
      (faults : List Bool)
      → IsAtomic (rest_of_round (queried faults (oldest (eligible k now locked) db.events)))
  unfolding queried pure
  round_of_queried [] = round_of_found [] _ refl
  round_of_queried (true ∷ later) = inl refl
  round_of_queried (false ∷ []) = round_of_found [] _ refl
  round_of_queried (false ∷ true ∷ later) = inl refl
  round_of_queried (false ∷ false ∷ later) = round_of_found later _ refl

  -- Whichever calls of the database fail, a round of a worker leaves the committed tables
  -- unchanged, or it leaves them as handling one event with no failing call does, and that event
  -- is the oldest that the worker may take.
  pub round-IsAtomic :
      (faults : List Bool)
      → IsAtomic (nft_event_round k now locked new_id f (idle faults)).1.store.db
  unfolding nft_event_round
  round-IsAtomic faults = rw get_nft_event_transaction_lem (round_of_queried faults)

  -- With no failing call a round handles the oldest event that it may take, if there is one.
  pub round-calm :
      (o : Option NftEvent)
      → oldest (eligible k now locked) db.events ≡ o
      → (nft_event_round k now locked new_id f (idle [])).1
        ≡ elim o [ none ↦ idle [] | some e ↦ handled f e new_id db x k.next_stage ]
  unfolding nft_event_round queried found pure
  round-calm none n = rw (get_nft_event_transaction_lem, n) refl
  round-calm (some e) n =
      rw (get_nft_event_transaction_lem, n)
        (store-and_then-pure (handle_nft_event k.next_stage new_id f e (opened f e new_id db x []))
            (some e)
          ∙ handle-calm f e new_id db x k.next_stage)
