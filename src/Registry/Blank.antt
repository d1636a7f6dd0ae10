-- ===== src/Registry/Blank.antt =====
-- `indexCollection` of series_registry_event_processor.go, and the fields of the rows it writes.
use ff_indexer.Prelude.{
  String, List, [], ◌∷◌, ◌++◌, true, false, ◌==◌, ◌≡◌, inl, inr, refl, map, exists, remove_all, All,
  All-update_first, Bool-cases, arith,
}
use ff_indexer.Catalog.{CollectionAsset}
use ff_indexer.Collections.{is_member_of}
use ff_indexer.Registry.{new_member}
use ff_indexer.Registry.Members.{is_row, is_deprecated, put_row, put_rows}

-- A row of the collection with no edition and no activity.
abbrev pub IsBlankIn : String → CollectionAsset → Type 0
IsBlankIn collection_id a =
    is_member_of collection_id a ≡ true → (a.edition ≡ 0) × (a.last_activity_time ≡ 0)

module _ (collection_id run_id : String) where
  abbrev IsBlankOfRun : CollectionAsset → Type 0
  IsBlankOfRun a = (a.run_id == run_id) ≡ true → (a.edition ≡ 0) × (a.last_activity_time ≡ 0)

  blank_of_fresh :
      (rows : List CollectionAsset)
      → exists (λ a. a.run_id == run_id) rows ≡ false
      → All IsBlankOfRun rows
  unfolding exists
  blank_of_fresh [] fresh = tt
  blank_of_fresh (a ∷ rows) fresh = (λ h. absurd (ground arith), blank_of_fresh rows (ground arith))

  All-append_one :
      (rows : List CollectionAsset) (m : CollectionAsset)
      → All IsBlankOfRun rows
      → IsBlankOfRun m
      → All IsBlankOfRun (rows ++ m ∷ [])
  All-append_one [] m all h = (h, tt)
  All-append_one (a ∷ rows) m all h = (all.0, All-append_one rows m all.1 h)

  blank-put_row :
      (x : String) (rows : List CollectionAsset)
      → All IsBlankOfRun rows
      → All IsBlankOfRun (put_row (new_member collection_id run_id x) rows)
  blank-put_row x rows all = elim (Bool-cases (exists (is_row collection_id x) rows)) [
    | inl e ↦ rw e (All-update_first _ _ IsBlankOfRun (λ a h k r. (refl, refl)) rows all)
    | inr e ↦ rw e (All-append_one rows _ all (λ r. (refl, refl)))
  ]

  blank-put_rows :
      (live : List String) (rows : List CollectionAsset)
      → All IsBlankOfRun rows
      → All IsBlankOfRun (put_rows (map (new_member collection_id run_id) live) rows)
  unfolding put_rows
  blank-put_rows [] rows all = all
  blank-put_rows (x ∷ live) rows all = blank-put_rows live _ (blank-put_row x rows all)

  blank-kept :
      (rows : List CollectionAsset)
      → All IsBlankOfRun rows
      → All (IsBlankIn collection_id) (remove_all (is_deprecated collection_id run_id) rows)
  unfolding remove_all
  blank-kept [] all = tt
  blank-kept (a ∷ rows) all = elim (Bool-cases (is_deprecated collection_id run_id a)) [
    | inl e ↦ rw e (blank-kept rows all.1)
    | inr e ↦ rw e (λ h. all.0 (ground arith), blank-kept rows all.1)
  ]

  -- No row of the collection keeps an edition or an activity.
  pub blank_rows :
      (live : List String) (rows : List CollectionAsset)
      → exists (λ a. a.run_id == run_id) rows ≡ false
      → All (IsBlankIn collection_id) (
          remove_all
            (is_deprecated collection_id run_id)
            (put_rows (map (new_member collection_id run_id) live) rows))
  blank_rows live rows fresh = blank-kept _ (blank-put_rows live rows (blank_of_fresh rows fresh))
