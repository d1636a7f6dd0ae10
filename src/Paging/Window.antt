-- ===== src/Paging/Window.antt =====
-- `GetCollectionsByCreators` of store.go, and the window of the result that it reads.
use ff_indexer.Prelude.{
  ℕ, zero, suc, ◌+◌, ◌-◌, ◌*◌, ◌/◌, ◌%◌, ◌≤◌, ◌<◌, ◌≡◌, inl, inr, refl, sym, String, List, ◌++◌,
  Bool, true, false, ◌||◌, eqb, ltb, if◌then◌else◌, length, take, drop, arith, take-drop, take_add,
  drop-drop, take_all, short_take, Bool-cases,
}
use ff_indexer.Exec.{ok, calm, perform, pure}
use ff_indexer.Catalog.{CollectionDocument, Store}
use ff_indexer.Paging.{
  found_collections, read_pages, get_collections_by_creators, limited, query_page_size,
}

-- What a query for `size` elements returns: all, if the size is a multiple of the page size.
abbrev pub window {ℓ} : {D : Type ℓ} → ℕ → List D → List D
window size l = if eqb (size % query_page_size) 0 then l else take size l

module _ {ℓ} {D : Type ℓ} (l : List D) (size : ℕ) where
  -- The last page completes the window.
  last_page :
      (page : ℕ)
      → page * 25 ≤ size
      → size < page * 25 + 25
      → take (page * 25) l ++ limited (size - page * 25) (drop (page * 25) l) ≡ window size l
  last_page page low high = elim (Bool-cases (eqb (size % 25) 0)) [
    | inl e ↦
        let zero_left : size - page * 25 ≡ 0 = ground arith in
        let full : page * 25 ≡ size = ground arith in rw (e, zero_left) (take-drop (page * 25) l)
    | inr e ↦
        let some_left : eqb (size - page * 25) 0 ≡ false = ground arith in
        rw (e, some_left) (take_add (page * 25) (size - page * 25) size l (omega arith))
  ]

  -- Where a page is short, the window is all there is.
  short_page :
      (page : ℕ)
      → page * 25 + 25 ≤ size
      → length (take (page * 25 + 25) l) < 25
      → take (page * 25 + 25) l ≡ window size l
  short_page page low short =
      let few : length l < 25 = short_take (page * 25 + 25) 25 l (omega arith) short in
      rw (take_all (page * 25 + 25) l (omega arith)) (elim (Bool-cases (eqb (size % 25) 0)) [
        | inl e ↦ rw e refl
        | inr e ↦ rw e (sym (take_all size l (omega arith)))
      ])

or_true : (b : Bool) → (b || true) ≡ true
or_true true = refl
or_true false = refl

or_false : (b : Bool) → (b || false) ≡ b
or_false true = refl
or_false false = refl

-- From a page on, with enough fuel, the loop returns the window.
read_pages_lem :
    (order : List CollectionDocument → List CollectionDocument) (creators : List String)
    (offset size fuel page : ℕ) (s : Store) (l : List CollectionDocument)
    → drop offset (found_collections order creators s) ≡ l
    → page * 25 ≤ size
    → size < (page + fuel) * 25
    → read_pages order fuel creators offset size page (take (page * 25) l) (calm s)
      ≡ (ok (window size l), calm s)
unfolding read_pages perform pure
read_pages_lem order creators offset size zero page s l from low high = absurd (omega arith)
read_pages_lem order creators offset size (suc fuel) page s l from low high =
    elim (Bool-cases (ltb size (page * 25 + 25))) [
      | inl last ↦
          let is_last : ltb (offset + size) (offset + page * 25 + 25) ≡ true = ground arith in
          let limit : offset + size - (offset + page * 25) ≡ size - page * 25 = omega arith in
          rw (is_last, limit, here, last_page l size page low (ground arith), or_true _) refl
      | inr more ↦
          let is_not_last : ltb (offset + size) (offset + page * 25 + 25) ≡ false = ground arith in
          rw (is_not_last, here, take_add (page * 25) 25 (page * 25 + 25) l refl, or_false _)
            (elim (Bool-cases (ltb (length (take (page * 25 + 25) l)) 25)) [
              | inl short ↦ rw (short, short_page l size page (ground arith) (ground arith)) refl
              | inr full ↦
                  rw (full, next)
                    (read_pages_lem order creators offset size fuel (page + 1) s l from
                      (ground arith) (omega arith))
            ])
    ]
  where
    here : drop (offset + page * 25) (found_collections order creators s) ≡ drop (page * 25) l
    here = rw (← from) (sym (drop-drop offset (page * 25) _ _ refl))

    next : page * 25 + 25 ≡ (page + 1) * 25
    next = omega arith

-- Where no call fails, the loop ends within size / 25 + 1 rounds, and returns the first documents
-- from the offset on, as many as the size says; if the size is a multiple of 25, it returns all of
-- them.
pub get_collections_by_creators_lem :
    (order : List CollectionDocument → List CollectionDocument) (creators : List String)
    (offset size : ℕ) (s : Store)
    → get_collections_by_creators order creators offset size (calm s)
      ≡ (ok (window size (drop offset (found_collections order creators s))), calm s)
unfolding get_collections_by_creators take
get_collections_by_creators_lem order creators offset size s =
    read_pages_lem order creators offset size (size / 25 + 1) 0 s _ refl (omega arith) (omega arith)
