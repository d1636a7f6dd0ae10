-- ===== src/Sales/Documents.antt =====
-- `WriteTimeSeriesData` of store.go: the documents that it makes of records, one for an id.
use Prim.Native.String.{String}
use mathlib.Core.Path.{subst⁻¹}
use ff_indexer.Prelude.{
  ℕ, List, [], ◌∷◌, ◌++◌, Bool, true, false, ◌||◌, ◌==◌, Option, none, some, ◌≡◌, inl, inr, refl,
  ap, sym, ◌∙◌, if◌then◌else◌, exists, find_first, remove_all, Bool-cases, eq_iff, arith,
  append_nil, find_first-added,
}
use ff_indexer.Exec.{Result, ok, err}
use ff_indexer.Exec.Success.{ok_injective}
use ff_indexer.Mongo.{select}
use ff_indexer.Mapper.Sales.{GenericSalesTimeSeries}
use ff_indexer.Sales.{SaleDocument, Tools, after, key_of, document_of, has_unique_id, decimals_of}

pub after-ok :
    {A B : Type 0} (r : Result A) (f : A → Result B) {b : B}
    → after r f ≡ ok b
    → (a : A) × (r ≡ ok a) × (f a ≡ ok b)
after-ok (ok a) f h = (a, refl, h)
after-ok (err e) f h = cc

-- The documents of valid records, one for each unique id: the first of it.
unfoldable pub documents_of :
    Tools → List GenericSalesTimeSeries → List SaleDocument → Result (List SaleDocument)
documents_of o [] inserts = ok inserts
documents_of o (r ∷ records) inserts = after (key_of o r) λ key.
    let skipped = documents_of o records inserts in
    let written = (after (document_of o key r) λ d. documents_of o records (inserts ++ d ∷ [])) in
    if exists (has_unique_id o key.1) inserts then skipped else written

-- Whether one of the documents has the unique id of a sale.
abbrev pub covers : List SaleDocument → SaleDocument → Bool
covers docs x = exists (λ d. x.unique_id == d.unique_id) docs

pub exists-append_one :
    (p : SaleDocument → Bool) (docs : List SaleDocument) (d : SaleDocument)
    → exists p (docs ++ d ∷ []) ≡ (exists p docs || p d)
unfolding exists
exists-append_one p [] d = ground arith
exists-append_one p (x ∷ docs) d = ground (arith, exists-append_one p docs d)

pub remove_twice :
    (p q r : SaleDocument → Bool)
    → ((x : SaleDocument) → r x ≡ (p x || q x))
    → (l : List SaleDocument) → remove_all q (remove_all p l) ≡ remove_all r l
unfolding remove_all
remove_twice p q r same [] = refl
remove_twice p q r same (x ∷ l) = ground (arith, same x, remove_twice p q r same l)

abbrev pub option_list : Option SaleDocument → List SaleDocument
option_list none = []
option_list (some d) = d ∷ []

pub eq_sym : (s t : String) → (s == t) ≡ (t == s)
eq_sym s t = elim (Bool-cases (s == t)) [
  | inl e ↦ rw ((eq_iff s t).0 e) refl
  | inr e ↦ elim (Bool-cases (t == s)) [
    | inl f ↦ absurd (let same = (eq_iff t s).0 f in let g = (eq_iff s t).1 (sym same) in cc)
    | inr f ↦ e ∙ sym f
  ]
]

exists_turned :
    (id : String) (docs : List SaleDocument)
    → exists (λ d. id == d.unique_id) docs ≡ exists (λ d. d.unique_id == id) docs
unfolding exists
exists_turned id [] = refl
exists_turned id (d ∷ docs) = rw (eq_sym id d.unique_id, exists_turned id docs) refl

pub remove_none : (l : List SaleDocument) → remove_all (covers []) l ≡ l
unfolding remove_all exists
remove_none [] = refl
remove_none (x ∷ l) = ap (λ r. x ∷ r) (remove_none l)

module _ (o : Tools) where
  pub id-document_of :
      (key : ℕ × String) (r : GenericSalesTimeSeries) {d : SaleDocument}
      → document_of o key r ≡ ok d
      → d.unique_id ≡ key.1
  unfolding document_of
  id-document_of (timestamp, id) r {d} h =
      let (values, e, later) = after-ok (decimals_of o r.values) _ h in
      let (shares, e', made) = after-ok (decimals_of o r.shares) _ later in
      sym (ap (λ x. unique_id_of x) made)
    where
      unique_id_of : Result SaleDocument → String
      unique_id_of (ok x) = x.unique_id
      unique_id_of (err x) = ""

  -- Each id is that of at most one document, the first with it.
  abbrev pub AreSingle : List SaleDocument → Type 0
  AreSingle docs =
      (id : String)
      → select (has_unique_id o id) docs ≡ option_list (find_first (has_unique_id o id) docs)

  pub select-append :
      (p : SaleDocument → Bool) (l m : List SaleDocument)
      → select p (l ++ m) ≡ select p l ++ select p m
  unfolding select
  select-append p [] m = refl
  select-append p (x ∷ l) m = elim (Bool-cases (p x)) [
    | inl e ↦ rw (e, select-append p l m) refl
    | inr e ↦ rw (e, select-append p l m) refl
  ]

  pub none_selected :
      (p : SaleDocument → Bool) (l : List SaleDocument) → exists p l ≡ false → select p l ≡ []
  unfolding select exists
  none_selected p [] h = refl
  none_selected p (x ∷ l) h = ground (arith, none_selected p l)

  pub none_found :
      (p : SaleDocument → Bool) (l : List SaleDocument) → find_first p l ≡ none → exists p l ≡ false
  unfolding find_first exists
  none_found p [] h = refl
  none_found p (x ∷ l) h = ground (arith, none_found p l)

  pub some_found :
      (p : SaleDocument → Bool) (l : List SaleDocument) {d : SaleDocument}
      → find_first p l ≡ some d
      → exists p l ≡ true
  unfolding find_first exists
  some_found p [] h = cc
  some_found p (x ∷ l) {d} h = elim (Bool-cases (p x)) [
    | inl e ↦ rw e refl
    | inr e ↦ rw e (some_found p l {d = d} (ground arith))
  ]

  pub no_documents_single : AreSingle []
  unfolding select find_first
  no_documents_single id = refl

  found-append_other :
      (p : SaleDocument → Bool) (l : List SaleDocument) (d : SaleDocument)
      → p d ≡ false
      → find_first p (l ++ d ∷ []) ≡ find_first p l
  unfolding find_first
  found-append_other p [] d h = rw h refl
  found-append_other p (x ∷ l) d h = ground (arith, found-append_other p l d)

  AreSingle-append :
      (docs : List SaleDocument) (d : SaleDocument)
      → AreSingle docs
      → exists (has_unique_id o d.unique_id) docs ≡ false
      → AreSingle (docs ++ d ∷ [])
  unfolding select
  AreSingle-append docs d single new id = elim (Bool-cases (d.unique_id == id)) [
    | inl e ↦
        let absent : exists (has_unique_id o id) docs ≡ false =
          subst⁻¹ (λ i. exists (has_unique_id o i) docs ≡ false) (sym ((eq_iff d.unique_id id).0 e))
            new in
        rw
          (
            select-append (has_unique_id o id) docs (d ∷ []),
            none_selected (has_unique_id o id) docs absent,
            find_first-added (has_unique_id o id) docs d absent e,
            e,
          )
          refl
    | inr e ↦
        rw
          (
            select-append (has_unique_id o id) docs (d ∷ []),
            e,
            append_nil (select (has_unique_id o id) docs),
            found-append_other (has_unique_id o id) docs d e,
          )
          (single id)
  ]

  pub documents_of-AreSingle :
      (records : List GenericSalesTimeSeries) (inserts : List SaleDocument)
      {all : List SaleDocument}
      → AreSingle inserts
      → documents_of o records inserts ≡ ok all
      → AreSingle all
  unfolding documents_of
  documents_of-AreSingle [] inserts {all} single h =
      subst⁻¹ AreSingle (sym (ok_injective inserts all h)) single
  documents_of-AreSingle (r ∷ records) inserts {all} single h =
      let (key, is_key, later) = after-ok (key_of o r) _ h in
      elim (Bool-cases (exists (has_unique_id o key.1) inserts)) [
        | inl e ↦ documents_of-AreSingle records inserts single (ground arith)
        | inr e ↦
            let next : after (document_of o key r) (λ d. documents_of o records (inserts ++ d ∷ []))
                ≡ ok all =
              ground arith in
            let (d, made, last) = after-ok (document_of o key r) _ next in
            documents_of-AreSingle records (inserts ++ d ∷ [])
              (AreSingle-append inserts d single (
                subst⁻¹ (λ i. exists (has_unique_id o i) inserts ≡ false)
                  (id-document_of key r made) e))
              last
      ]

  -- Of the stored sales of an id, none is kept if a document has it, and all are otherwise.
  pub select-removed :
      (docs : List SaleDocument) (id : String) (stored : List SaleDocument)
      → select (has_unique_id o id) (remove_all (covers docs) stored)
        ≡ (if exists (has_unique_id o id) docs then [] else select (has_unique_id o id) stored)
  unfolding select remove_all
  select-removed docs id [] = elim (Bool-cases (exists (has_unique_id o id) docs)) [
    | inl e ↦ rw e refl
    | inr e ↦ rw e refl
  ]
  select-removed docs id (x ∷ stored) = elim (Bool-cases (x.unique_id == id)) [
    | inl e ↦
        let covered : covers docs x ≡ exists (has_unique_id o id) docs =
          ap (λ i. exists (λ d. i == d.unique_id) docs) ((eq_iff x.unique_id id).0 e)
          ∙ exists_turned id docs in
        ground (arith, select-removed docs id stored)
    | inr e ↦ ground (arith, select-removed docs id stored)
  ]
