-- ===== src/Registry/Index.antt =====
-- `indexCollection` of series_registry_event_processor.go, from the event to the index.
use mathlib.Core.Path.{subst⁻¹}
use ff_indexer.Prelude.{
  ℕ, String, List, [], ◌∷◌, ◌++◌, Bool, true, false, not, Option, none, some, ◌==◌, ◌≡◌, inl, inr,
  refl, sym, if◌then◌else◌, map, length, exists, find_first, update_first, remove_all, All, one_of,
  eqb, Bool-cases, eq_iff, eq_refl, arith, find_first-added, find_first-update_first,
  found-of_exists,
}
use ff_indexer.Exec.{ok, calm, perform, pure}
use ff_indexer.Mongo.{find_one, upsert_one, delete_many, select, or_no_documents}
use ff_indexer.Catalog.{CollectionDocument, Store}
use ff_indexer.IndexId.{Chains}
use ff_indexer.Ownership.Query.{is_burned_id, filter_burned_index_ids_lem}
use ff_indexer.Collections.{
  has_collection_id, updated_at, index_collection, delete_deprecated_collection_asset,
}
use ff_indexer.Series.{SeriesEvent}
use ff_indexer.Registry.{
  Outside, Told, TokenRegistry, met, met_index_id, told_by, get_collection_by_id, or_no_collection,
  or_new, described, collection_id, new_member, index_members, index_collection_event,
}
use ff_indexer.Registry.Blank.{IsBlankIn, blank_rows}
use ff_indexer.Registry.Members.{
  is_row, is_deprecated, put_rows, after_workflows, rows_of_collection, run-start_workflows,
  run-wait_for_workflows, run-index_collection_asset,
}

-- The ids of which no token is burned.
abbrev pub live_of : Store → List String → List String
live_of s ids = select (λ id. not (is_burned_id s.tokens id)) ids

abbrev put_collection : ℕ → CollectionDocument → Store → Store
put_collection now d s = record s {
  collections =
      if exists (has_collection_id d.id) s.collections
      then update_first (has_collection_id d.id) (λ old. updated_at now d) s.collections
      else s.collections ++ updated_at now d ∷ [];
}

run-index_collection :
    (now : ℕ) (d : CollectionDocument) (s : Store)
    → index_collection now d (calm s) ≡ (ok tt, calm (put_collection now d s))
unfolding index_collection upsert_one perform
run-index_collection now d s = refl

or_no_collection_lem :
    (found : Option CollectionDocument) (s : Store)
    → or_no_collection (or_no_documents found) (calm s) ≡ (ok found, calm s)
unfolding pure
or_no_collection_lem none s = refl
or_no_collection_lem (some d) s = refl

run-get_collection_by_id :
    (id : String) (s : Store)
    → get_collection_by_id id (calm s)
      ≡ (ok (find_first (has_collection_id id) s.collections), calm s)
unfolding get_collection_by_id find_one perform
run-get_collection_by_id id s = or_no_collection_lem _ s

-- The index ids of the tokens of a registry
abbrev pub index_ids : Chains → TokenRegistry → List String
index_ids c r = map (met_index_id c) (met c r)

module _ (c : Chains) (o : Outside) (now : ℕ) (run_id : String) (d : CollectionDocument)
    (r : TokenRegistry) (s : Store) where
  -- The index when the tokens are indexed.
  abbrev pub indexed : Store
  indexed = after_workflows o (met c r) s

  abbrev with_members : Store
  with_members = record indexed {
    collection_assets = remove_all (is_deprecated d.id run_id) (
        put_rows (map (new_member d.id run_id) (live_of indexed (index_ids c r)))
          indexed.collection_assets);
  }

  abbrev finished : Store
  finished =
      put_collection now (record d { items = length (live_of indexed (index_ids c r)) })
        with_members

  run-index_members : index_members c o now run_id d r (calm s) ≡ (ok tt, calm finished)
  unfolding delete_deprecated_collection_asset delete_many perform
  run-index_members =
      rw
        (
          run-start_workflows o (met c r) s,
          run-wait_for_workflows o (met c r) s,
          filter_burned_index_ids_lem (index_ids c r) indexed,
          run-index_collection_asset
              (map (new_member d.id run_id) (live_of indexed (index_ids c r))) indexed,
        )
        (run-index_collection now _ with_members)

find_first-passes :
    (p : CollectionDocument → Bool) (l : List CollectionDocument) {d : CollectionDocument}
    → find_first p l ≡ some d
    → p d ≡ true
unfolding find_first
find_first-passes p [] h = cc
find_first-passes p (x ∷ l) {d} h = elim (Bool-cases (p x)) [
  | inl e ↦ subst⁻¹ (λ y. p y ≡ true) (some_injective (sym (unfold_found e))) e
  | inr e ↦ find_first-passes p l (ground arith)
]
  where
    unfold_found : p x ≡ true → some x ≡ some d
    unfold_found e = ground arith

    some_injective : {a b : CollectionDocument} → some a ≡ some b → a ≡ b
    some_injective h = cc

-- The first document of the id is the one that was put.
found-put_collection :
    (now : ℕ) (d : CollectionDocument) (s : Store)
    → find_first (has_collection_id d.id) (put_collection now d s).collections
      ≡ some (updated_at now d)
found-put_collection now d s = elim (Bool-cases (exists (has_collection_id d.id) s.collections)) [
  | inl e ↦
      let (x, found) = found-of_exists (has_collection_id d.id) s.collections e in
      rw e (
        find_first-update_first (has_collection_id d.id) (λ old. updated_at now d)
          (has_collection_id d.id) (λ y h. h) s.collections found
          (find_first-passes (has_collection_id d.id) s.collections found) same_id)
  | inr e ↦
      rw e (find_first-added (has_collection_id d.id) s.collections (updated_at now d) e same_id)
]
  where
    same_id : has_collection_id d.id (updated_at now d) ≡ true
    same_id = elim (Bool-cases (eqb d.last_updated_time 0)) [
      | inl e ↦ rw e (eq_refl d.id)
      | inr e ↦ rw e (eq_refl d.id)
    ]

-- What the handler first writes: the collection of the index or a new one, with what it was told.
abbrev pub collection_of : SeriesEvent → Told → Store → CollectionDocument
collection_of e t s = described e t (
    or_new e t.series_id (find_first (has_collection_id (collection_id t.series_id)) s.collections))

id-collection_of :
    (e : SeriesEvent) (t : Told) (s : Store) → (collection_of e t s).id ≡ collection_id t.series_id
unfolding described
id-collection_of e t s =
    of_found (find_first (has_collection_id (collection_id t.series_id)) s.collections) refl
  where
    of_found :
        (found : Option CollectionDocument)
        → find_first (has_collection_id (collection_id t.series_id)) s.collections ≡ found
        → (or_new e t.series_id found).id ≡ collection_id t.series_id
    of_found none h = refl
    of_found (some d) h =
        (eq_iff d.id (collection_id t.series_id)).0
          (find_first-passes (has_collection_id (collection_id t.series_id)) s.collections h)

module _ (c : Chains) (o : Outside) (now : ℕ) (run_id : String) (e : SeriesEvent) (t : Told)
    (s : Store) where
  -- The index when the collection is written and its tokens are indexed.
  abbrev pub index_of_event : Store
  index_of_event =
      indexed c o now run_id (collection_of e t s) t.token_data
        (put_collection now (collection_of e t s) s)

  abbrev after_event : Store
  after_event =
      finished c o now run_id (collection_of e t s) t.token_data
        (put_collection now (collection_of e t s) s)

  run-index_collection_event :
      told_by o e ≡ ok t
      → index_collection_event c o now run_id e (calm s) ≡ (ok tt, calm after_event)
  unfolding index_collection_event pure
  run-index_collection_event told =
      rw
        (
          told,
          run-get_collection_by_id (collection_id t.series_id) s,
          run-index_collection now (collection_of e t s) s,
        )
        (run-index_members c o now run_id (collection_of e t s) t.token_data _)

  -- Where no call fails, the reads of an event to index succeed, and the run id is new: the
  -- handler succeeds; afterwards the index has a row of the collection for just those tokens of
  -- the series of which none is burned, and the collection has their number as its items.
  pub index_collection_event-members :
      told_by o e ≡ ok t
      → exists (λ a. a.run_id == run_id) index_of_event.collection_assets ≡ false
      → (s' : Store) × (index_collection_event c o now run_id e (calm s) ≡ (ok tt, calm s'))
        × ((id : String)
            → exists (is_row (collection_id t.series_id) id) s'.collection_assets
              ≡ one_of (live_of s' (index_ids c t.token_data)) id)
        × ((d : CollectionDocument) × (find_first
                (has_collection_id (collection_id t.series_id))
                s'.collections
              ≡ some d)
            × (d.items ≡ length (live_of s' (index_ids c t.token_data))))
  index_collection_event-members told fresh = (
    after_event,
    run-index_collection_event told,
    λ id.
        subst⁻¹
          (λ i.
            exists (is_row i id) after_event.collection_assets
            ≡ one_of (live_of after_event (index_ids c t.token_data)) id)
          (sym (id-collection_of e t s))
          (rows_of_collection (collection_of e t s).id run_id id
            (live_of after_event (index_ids c t.token_data)) index_of_event.collection_assets
            fresh),
    (
      updated_at now counted,
      subst⁻¹
          (λ i.
            find_first (has_collection_id i) after_event.collections
            ≡ some (updated_at now counted))
          (sym (id-collection_of e t s))
          (found-put_collection now counted (
            with_members c o now run_id (collection_of e t s) t.token_data
              (put_collection now (collection_of e t s) s))),
      items-updated_at,
    ),
  )
    where
      counted : CollectionDocument
      counted = record (collection_of e t s) {
        items = length (live_of index_of_event (index_ids c t.token_data));
      }

      items-updated_at : (updated_at now counted).items ≡ counted.items
      items-updated_at = elim (Bool-cases (eqb counted.last_updated_time 0)) [
        | inl z ↦ rw z refl
        | inr z ↦ rw z refl
      ]

  -- Where no call fails, the reads of an event to index succeed, and the run id is new: afterwards
  -- every row of the collection has edition 0 and no activity time, whatever the workflows of its
  -- tokens wrote there.
  pub index_collection_event-blank :
      told_by o e ≡ ok t
      → exists (λ a. a.run_id == run_id) index_of_event.collection_assets ≡ false
      → (s' : Store) × (index_collection_event c o now run_id e (calm s) ≡ (ok tt, calm s'))
        × All (IsBlankIn (collection_id t.series_id)) s'.collection_assets
  index_collection_event-blank told fresh = (
    after_event,
    run-index_collection_event told,
    subst⁻¹ (λ i. All (IsBlankIn i) after_event.collection_assets) (sym (id-collection_of e t s))
        (blank_rows (collection_of e t s).id run_id
          (live_of index_of_event (index_ids c t.token_data)) index_of_event.collection_assets
          fresh),
  )
