-- ===== src/Sales/Stored.antt =====
-- `WriteTimeSeriesData` of store.go: the sales that are stored afterwards.
use Prim.Native.String.{String}
use mathlib.Core.Path.{subst⁻¹}
use ff_indexer.Prelude.{
  ℕ, List, [], ◌∷◌, ◌++◌, ◌||◌, ◌==◌, Option, none, some, ◌≡◌, inl, inr, refl, ap, sym, ◌∙◌, exists,
  find_first, remove_all, Bool-cases, arith, append_nil,
}
use ff_indexer.Exec.{ok, calm, perform, pure}
use ff_indexer.Exec.Success.{ok_injective}
use ff_indexer.Mongo.{delete_many, select}
use ff_indexer.Mapper.Sales.{GenericSalesTimeSeries}
use ff_indexer.Sales.{
  SaleDocument, Tools, after, key_of, document_of, has_unique_id, delete_old, insert_many,
  write_time_series_data,
}
use ff_indexer.Sales.Documents.{
  documents_of, covers, after-ok, exists-append_one, remove_twice, remove_none, id-document_of,
  AreSingle, select-append, none_selected, none_found, some_found, no_documents_single,
  documents_of-AreSingle, select-removed,
}

module _ (o : Tools) where
  run-insert_many :
      (docs stored : List SaleDocument)
      → insert_many o docs (calm stored) ≡ (ok tt, calm (stored ++ docs))
  unfolding perform pure
  run-insert_many [] stored = ap (λ l. (ok tt, calm l)) (sym (append_nil stored))
  run-insert_many (d ∷ docs) stored = refl

  -- Valid records are run through, and the stored sales of their ids are gone.
  pub run-delete_old :
      (records more : List GenericSalesTimeSeries) (inserts : List SaleDocument)
      (stored : List SaleDocument) {all : List SaleDocument}
      → documents_of o records inserts ≡ ok all
      → delete_old o (records ++ more) inserts (calm (remove_all (covers inserts) stored))
        ≡ delete_old o more all (calm (remove_all (covers all) stored))
  unfolding documents_of delete_old delete_many perform pure
  run-delete_old [] more inserts stored {all} h =
      ap (λ l. delete_old o more l (calm (remove_all (covers l) stored)))
        (ok_injective inserts all h)
  run-delete_old (r ∷ records) more inserts stored {all} h =
      let (key, is_key, later) = after-ok (key_of o r) _ h in
      elim (Bool-cases (exists (has_unique_id o key.1) inserts)) [
        | inl e ↦
            let next : documents_of o records inserts ≡ ok all = ground arith in
            rw (is_key, e) (run-delete_old records more inserts stored next)
        | inr e ↦
            let next : after (document_of o key r) (λ d. documents_of o records (inserts ++ d ∷ []))
                ≡ ok all =
              ground arith in
            let (d, made, last) = after-ok (document_of o key r) _ next in
            rw (is_key, e, made, deleted key d inserts (id-document_of o key r made) stored)
              (run-delete_old records more (inserts ++ d ∷ []) stored last)
      ]
    where
      deleted :
          (key : ℕ × String) (d : SaleDocument) (inserts : List SaleDocument)
          → d.unique_id ≡ key.1
          → (l : List SaleDocument)
          → remove_all (has_unique_id o key.1) (remove_all (covers inserts) l)
            ≡ remove_all (covers (inserts ++ d ∷ [])) l
      deleted key d inserts same =
          remove_twice (covers inserts) (has_unique_id o key.1) (covers (inserts ++ d ∷ [])) λ x.
            exists-append_one (λ y. x.unique_id == y.unique_id) inserts d
            ∙ ap (λ i. covers inserts x || x.unique_id == i) same

  -- What a query for an id returns after the records: their document, or what was stored before.
  abbrev pub or_stored : List SaleDocument → String → Option SaleDocument → List SaleDocument
  or_stored stored id none = select (has_unique_id o id) stored
  or_stored stored id (some d) = d ∷ []

  selected_after :
      (docs stored : List SaleDocument) (id : String)
      → AreSingle o docs
      → (found : Option SaleDocument) → find_first (has_unique_id o id) docs ≡ found
      → select (has_unique_id o id) (remove_all (covers docs) stored ++ docs)
        ≡ or_stored stored id found
  selected_after docs stored id single none h =
      let absent = none_found o (has_unique_id o id) docs h in
      rw
        (
          select-append o (has_unique_id o id) (remove_all (covers docs) stored) docs,
          select-removed o docs id stored,
          absent,
          none_selected o (has_unique_id o id) docs absent,
        )
        (append_nil _)
  selected_after docs stored id single (some d) h =
      let present = some_found o (has_unique_id o id) docs h in
      rw
        (
          select-append o (has_unique_id o id) (remove_all (covers docs) stored) docs,
          select-removed o docs id stored,
          present,
          single id,
          h,
        )
        refl

  ended :
      (docs stored : List SaleDocument)
      → delete_old o [] docs (calm stored) ≡ (ok docs, calm stored)
  unfolding delete_old pure
  ended docs stored = refl

  pub run-write_time_series_data :
      (records : List GenericSalesTimeSeries) (stored : List SaleDocument)
      {docs : List SaleDocument}
      → documents_of o records [] ≡ ok docs
      → write_time_series_data o records (calm stored)
        ≡ (ok tt, calm (remove_all (covers docs) stored ++ docs))
  unfolding write_time_series_data
  run-write_time_series_data records stored {docs} h =
      let deleted : delete_old o records [] (calm stored)
          ≡ (ok docs, calm (remove_all (covers docs) stored)) =
        subst⁻¹
          (λ l. delete_old o l [] (calm stored) ≡ (ok docs, calm (remove_all (covers docs) stored)))
          (sym (append_nil records))
          (subst⁻¹
            (λ l.
              delete_old o (records ++ []) [] (calm l)
              ≡ (ok docs, calm (remove_all (covers docs) stored)))
            (sym (remove_none stored)) (run-delete_old records [] [] stored h ∙ ended docs _)) in
      rw deleted (run-insert_many docs (remove_all (covers docs) stored))

  -- Where no call fails and all records are valid, WriteTimeSeriesData succeeds, and afterwards a
  -- query for a unique id returns the document of the first record with it alone, or, if no record
  -- has it, what was stored before.
  pub write_time_series_data_lem :
      (records : List GenericSalesTimeSeries) (stored : List SaleDocument)
      {docs : List SaleDocument}
      → documents_of o records [] ≡ ok docs
      → (s' : List SaleDocument) × (write_time_series_data o records (calm stored)
          ≡ (ok tt, calm s'))
        × ((id : String)
            → select (has_unique_id o id) s'
              ≡ or_stored stored id (find_first (has_unique_id o id) docs))
  write_time_series_data_lem records stored {docs} h = (
    remove_all (covers docs) stored ++ docs,
    run-write_time_series_data records stored h,
    λ id.
        selected_after docs stored id
          (documents_of-AreSingle o records [] (no_documents_single o) h) _ refl,
  )
