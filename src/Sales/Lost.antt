-- ===== src/Sales/Lost.antt =====
-- `WriteTimeSeriesData` of store.go, where a record is refused after others.
use ff_indexer.Prelude.{List, [], ◌∷◌, ◌++◌, ◌≡◌, refl, sym, remove_all}
use mathlib.Core.Path.{subst⁻¹}
use ff_indexer.Exec.{Error, ok, err, calm, fail}
use ff_indexer.Mapper.Sales.{GenericSalesTimeSeries}
use ff_indexer.Sales.{SaleDocument, Tools, key_of, delete_old, write_time_series_data}
use ff_indexer.Sales.Documents.{documents_of, covers, remove_none}
use ff_indexer.Sales.Stored.{run-delete_old}

module _ (o : Tools) where
  refused :
      (bad : GenericSalesTimeSeries) (more : List GenericSalesTimeSeries) (e : Error)
      (docs stored : List SaleDocument)
      → key_of o bad ≡ err e
      → delete_old o (bad ∷ more) docs (calm stored) ≡ (err e, calm stored)
  unfolding delete_old fail
  refused bad more e docs stored h = rw h refl

  deleted_before :
      (records more : List GenericSalesTimeSeries) (stored : List SaleDocument)
      {docs : List SaleDocument}
      → documents_of o records [] ≡ ok docs
      → delete_old o (records ++ more) [] (calm stored)
        ≡ delete_old o more docs (calm (remove_all (covers docs) stored))
  deleted_before records more stored {docs} h =
      subst⁻¹
        (λ l.
          delete_old o (records ++ more) [] (calm l)
          ≡ delete_old o more docs (calm (remove_all (covers docs) stored)))
        (sym (remove_none stored)) (run-delete_old o records more [] stored h)

  -- Where no call fails, and a record whose time, metadata or transaction ids are refused follows
  -- valid ones, WriteTimeSeriesData returns that error and inserts nothing, and the stored sales
  -- with the unique ids of the records before it are gone.
  pub write_time_series_data-refused :
      (records : List GenericSalesTimeSeries) (bad : GenericSalesTimeSeries)
      (more : List GenericSalesTimeSeries) (stored : List SaleDocument) {docs : List SaleDocument}
      {e : Error}
      → documents_of o records [] ≡ ok docs
      → key_of o bad ≡ err e
      → write_time_series_data o (records ++ bad ∷ more) (calm stored)
        ≡ (err e, calm (remove_all (covers docs) stored))
  unfolding write_time_series_data
  write_time_series_data-refused records bad more stored {docs} {e} valid invalid =
      rw
        (
          deleted_before records (bad ∷ more) stored valid,
          refused bad more e docs (remove_all (covers docs) stored) invalid,
        )
        refl
