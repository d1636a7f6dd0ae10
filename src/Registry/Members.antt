-- ===== src/Registry/Members.antt =====
-- `indexCollection` of series_registry_event_processor.go, and the assets of the collection.
use ff_indexer.Prelude.{
  String, List, [], ◌∷◌, ◌++◌, Bool, true, false, not, ◌&&◌, ◌||◌, ◌==◌, ◌≡◌, inl, inr, refl, ap,
  if◌then◌else◌, map, exists, update_first, remove_all, one_of, Bool-cases, eq_iff, eq_refl, arith,
}
use ff_indexer.Exec.{ok, calm, perform, pure}
use ff_indexer.Mongo.{upsert_one}
use ff_indexer.Catalog.{CollectionAsset, Store}
use ff_indexer.Collections.{is_member_of, index_collection_asset}
use ff_indexer.Registry.{Outside, Met, start_workflows, wait_for_workflows, new_member}

abbrev pub is_row : String → String → CollectionAsset → Bool
is_row collection_id index_id a = is_member_of collection_id a && a.token_index_id == index_id

-- Rows after the upsert of one.
abbrev pub put_row : CollectionAsset → List CollectionAsset → List CollectionAsset
put_row m rows =
    if exists (is_row m.collection_id m.token_index_id) rows
    then update_first (is_row m.collection_id m.token_index_id) (λ b. m) rows
    else rows ++ m ∷ []

unfoldable pub put_rows : List CollectionAsset → List CollectionAsset → List CollectionAsset
put_rows [] rows = rows
put_rows (m ∷ members) rows = put_rows members (put_row m rows)

pub run-index_collection_asset :
    (members : List CollectionAsset) (s : Store)
    → index_collection_asset members (calm s)
      ≡ (ok tt, calm (record s { collection_assets = put_rows members s.collection_assets }))
unfolding index_collection_asset put_rows upsert_one perform pure
run-index_collection_asset [] s = refl
run-index_collection_asset (m ∷ members) s =
    run-index_collection_asset members
      (record s { collection_assets = put_row m s.collection_assets })

-- The index after the workflows.
unfoldable pub after_workflows : Outside → List Met → Store → Store
after_workflows o [] s = s
after_workflows o ((blockchain, contract, id) ∷ ms) s =
    after_workflows o ms (o.index_token_workflow contract id s)

pub run-start_workflows :
    (o : Outside) (ms : List Met) (s : Store) → start_workflows o ms (calm s) ≡ (ok tt, calm s)
unfolding start_workflows perform pure
run-start_workflows o [] s = refl
run-start_workflows o (m ∷ ms) s = run-start_workflows o ms s

pub run-wait_for_workflows :
    (o : Outside) (ms : List Met) (s : Store)
    → wait_for_workflows o ms (calm s) ≡ (ok tt, calm (after_workflows o ms s))
unfolding wait_for_workflows after_workflows perform pure
run-wait_for_workflows o [] s = refl
run-wait_for_workflows o ((blockchain, contract, id) ∷ ms) s =
    run-wait_for_workflows o ms (o.index_token_workflow contract id s)

module _ (collection_id run_id : String) where
  abbrev is_of_run : CollectionAsset → Bool
  is_of_run a = is_member_of collection_id a && a.run_id == run_id

  abbrev pub is_deprecated : CollectionAsset → Bool
  is_deprecated a = is_member_of collection_id a && not (a.run_id == run_id)

  module _ (id : String) where
    abbrev is_row_of_run : CollectionAsset → Bool
    is_row_of_run a = is_row collection_id id a && a.run_id == run_id

    -- What is left of the collection is of the run.
    exists-kept :
        (rows : List CollectionAsset)
        → exists (is_row collection_id id) (remove_all is_deprecated rows)
          ≡ exists is_row_of_run rows
    unfolding exists remove_all
    exists-kept [] = refl
    exists-kept (a ∷ rows) = ground (arith, exists-kept rows)

    exists-append :
        (p : CollectionAsset → Bool) (rows : List CollectionAsset) (m : CollectionAsset)
        → exists p (rows ++ m ∷ []) ≡ (p m || exists p rows)
    unfolding exists
    exists-append p [] m = refl
    exists-append p (a ∷ rows) m = ground (arith, exists-append p rows m)

    -- A new row replaces one for the same token only.
    exists-replaced :
        (x : String) (rows : List CollectionAsset)
        → exists (is_row collection_id x) rows ≡ true
        → exists is_row_of_run
            (update_first (is_row collection_id x) (λ b. new_member collection_id run_id x) rows)
          ≡ (x == id || exists is_row_of_run rows)
    unfolding exists update_first
    exists-replaced x [] h = cc
    exists-replaced x (a ∷ rows) h = elim (Bool-cases (is_row collection_id x a)) [
      | inl e ↦
          let token : a.token_index_id ≡ x = (eq_iff a.token_index_id x).0 (ground arith) in
          let same : (a.token_index_id == id) ≡ (x == id) = ap (λ t. t == id) token in
          rw e (ground (arith, eq_refl collection_id, eq_refl run_id, same))
      | inr e ↦ rw e (ground (arith, exists-replaced x rows))
    ]

    exists-put_row :
        (x : String) (rows : List CollectionAsset)
        → exists is_row_of_run (put_row (new_member collection_id run_id x) rows)
          ≡ (x == id || exists is_row_of_run rows)
    exists-put_row x rows = elim (Bool-cases (exists (is_row collection_id x) rows)) [
      | inl e ↦ rw e (exists-replaced x rows e)
      | inr e ↦
          rw (e, exists-append is_row_of_run rows (new_member collection_id run_id x))
            (ground (arith, eq_refl collection_id, eq_refl run_id))
    ]

    exists-put_rows :
        (live : List String) (rows : List CollectionAsset)
        → exists is_row_of_run (put_rows (map (new_member collection_id run_id) live) rows)
          ≡ (one_of live id || exists is_row_of_run rows)
    unfolding put_rows
    exists-put_rows [] rows = refl
    exists-put_rows (x ∷ live) rows =
        let first = exists-put_row x rows in
        let rest = exists-put_rows live (put_row (new_member collection_id run_id x) rows) in
        rw (rest, first) (ground arith)

    none_of_run :
        (rows : List CollectionAsset)
        → exists (λ a. a.run_id == run_id) rows ≡ false
        → exists is_row_of_run rows ≡ false
    unfolding exists
    none_of_run [] h = refl
    none_of_run (a ∷ rows) h = ground (arith, none_of_run rows)

    -- The rows of the collection are the live tokens.
    pub rows_of_collection :
        (live : List String) (rows : List CollectionAsset)
        → exists (λ a. a.run_id == run_id) rows ≡ false
        → exists
            (is_row collection_id id)
            (remove_all is_deprecated (put_rows (map (new_member collection_id run_id) live) rows))
          ≡ one_of live id
    rows_of_collection live rows fresh =
        rw
          (
            exists-kept (put_rows (map (new_member collection_id run_id) live) rows),
            exists-put_rows live rows,
            none_of_run rows fresh,
          )
          (ground arith)
