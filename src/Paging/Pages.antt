-- ===== src/Paging/Pages.antt =====
-- The pages of ids that store.go asks for.
use ff_indexer.Prelude.{
  ℕ, zero, suc, ◌+◌, ◌-◌, ◌*◌, ◌%◌, ◌≤◌, ◌<◌, ◌≡◌, inl, inr, refl, ap, sym, String, List, [], ◌∷◌,
  ◌++◌, eqb, ltb, length, take, drop, All, arith, take_all, length-drop, Bool-cases,
}
use ff_indexer.Paging.{get_page_counts, page_of, pages_from, pages}

abbrev pub join {ℓ} : {A : Type ℓ} → List (List A) → List A
join [] = []
join (l ∷ ls) = l ++ join ls

-- What stands between two positions comes before what stands after the second.
drop-take-append : (a b : ℕ) (l : List String) → a ≤ b → drop a (take b l) ++ drop b l ≡ drop a l
unfolding take drop
drop-take-append zero zero l le = refl
drop-take-append zero (suc b) [] le = refl
drop-take-append zero (suc b) (x ∷ l) le = ap (λ r. x ∷ r) (drop-take-append zero b l (omega arith))
drop-take-append (suc a) zero l le = absurd (omega arith)
drop-take-append (suc a) (suc b) [] le = refl
drop-take-append (suc a) (suc b) (x ∷ l) le = drop-take-append a b l (omega arith)

drop_all : (n : ℕ) (l : List String) → length l ≤ n → drop n l ≡ []
unfolding drop
drop_all zero [] le = refl
drop_all zero (x ∷ l) le = absurd (omega arith)
drop_all (suc n) [] le = refl
drop_all (suc n) (x ∷ l) le = drop_all n l (omega arith)

-- The end of the list cuts a page as the bound of the slice does.
page_of_lem : (i : ℕ) (ids : List String) → page_of i ids ≡ drop (i * 25) (take ((i + 1) * 25) ids)
unfolding page_of
page_of_lem i ids = elim (Bool-cases (ltb (length ids) ((i + 1) * 25))) [
  | inl short ↦
      rw
        (short, take_all (length ids) ids (omega arith), take_all ((i + 1) * 25) ids (ground arith))
        refl
  | inr full ↦ rw full refl
]

join-pages_from :
    (n i : ℕ) (ids : List String)
    → length ids ≤ (i + n) * 25
    → join (pages_from n i ids) ≡ drop (i * 25) ids
unfolding pages_from
join-pages_from zero i ids le = sym (drop_all (i * 25) ids (omega arith))
join-pages_from (suc n) i ids le =
    rw (page_of_lem i ids, join-pages_from n (i + 1) ids (omega arith))
      (drop-take-append (i * 25) ((i + 1) * 25) ids (omega arith))

-- A page is not empty and has at most 25 ids.
abbrev pub IsPage : List String → Type 0
IsPage p = (0 < length p) × (length p ≤ 25)

length-take-min : (n : ℕ) (l : List String) → n ≤ length l → length (take n l) ≡ n
unfolding take
length-take-min zero l le = refl
length-take-min (suc n) [] le = absurd (omega arith)
length-take-min (suc n) (x ∷ l) le = omega (arith, length-take-min n l)

page_of-IsPage : (i : ℕ) (ids : List String) → i * 25 < length ids → IsPage (page_of i ids)
page_of-IsPage i ids lt = elim (Bool-cases (ltb (length ids) ((i + 1) * 25))) [
  | inl short ↦
      let size : length (page_of i ids) ≡ length ids - i * 25 =
        rw (page_of_lem i ids, take_all ((i + 1) * 25) ids (ground arith))
          (length-drop (i * 25) ids) in
      ground arith
  | inr full ↦
      let size : length (page_of i ids) ≡ (i + 1) * 25 - i * 25 =
        rw
          (
            page_of_lem i ids,
            length-drop (i * 25) (take ((i + 1) * 25) ids),
            length-take-min ((i + 1) * 25) ids (ground arith),
          )
          refl in
      ground arith
]

pages_from-IsPage :
    (n i : ℕ) (ids : List String) → (i + n) * 25 < length ids + 25 → All IsPage (pages_from n i ids)
unfolding pages_from
pages_from-IsPage zero i ids few = tt
pages_from-IsPage (suc n) i ids few =
    (page_of-IsPage i ids (omega arith), pages_from-IsPage n (i + 1) ids (omega arith))

length-pages_from : (n i : ℕ) (ids : List String) → length (pages_from n i ids) ≡ n
unfolding pages_from
length-pages_from zero i ids = refl
length-pages_from (suc n) i ids = ap suc (length-pages_from n (i + 1) ids)

-- The pages are just enough.
get_page_counts_lem :
    (n : ℕ) → (n ≤ get_page_counts n 25 * 25) × (get_page_counts n 25 * 25 < n + 25)
unfolding get_page_counts
get_page_counts_lem n = elim (Bool-cases (eqb (n % 25) 0)) [
  | inl e ↦ rw e (ground arith, ground arith)
  | inr e ↦ rw e (ground arith, ground arith)
]

-- The pages that GetDetailedTokens asks for are, one after another, the ids; none is empty, none
-- has more than 25 ids, and getPageCounts gives their number.
pub pages-partition :
    (ids : List String)
    → (join (pages ids) ≡ ids)
      × All IsPage (pages ids)
      × (length (pages ids) ≡ get_page_counts (length ids) 25)
unfolding pages drop
pages-partition ids =
    let (enough, few) = get_page_counts_lem (length ids) in
    (
      join-pages_from (get_page_counts (length ids) 25) 0 ids (omega arith),
      pages_from-IsPage (get_page_counts (length ids) 25) 0 ids (omega arith),
      length-pages_from (get_page_counts (length ids) 25) 0 ids,
    )
