-- ===== src/Detector/Entries.antt =====
-- Maps of background/worker/workflows_detector.go: what a map holds after a key is set.
use ff_indexer.Prelude.{
  String, List, [], ◌∷◌, ◌==◌, some, ◌≡◌, inl, inr, refl, ap, sym, ◌∙◌, Bool-cases, false,
  if◌then◌else◌, eq_iff,
}
use ff_indexer.Detector.{entry_of, put}

pub entry_of-put :
    {A : Type 0} (key other : String) (value : A) (entries : List (String × A))
    → entry_of other (put key value entries)
      ≡ (if key == other then some value else entry_of other entries)
unfolding entry_of put
entry_of-put key other value [] = refl
entry_of-put key other value (entry ∷ entries) = elim (Bool-cases (entry.0 == key)) [
  | inl e ↦
      let same : (entry.0 == other) ≡ (key == other) =
        ap (λ k. k == other) ((eq_iff entry.0 key).0 e) in
      elim (Bool-cases (key == other)) [
        | inl o ↦ rw (e, same, o) refl
        | inr o ↦ rw (e, same, o) refl
      ]
  | inr e ↦ elim (Bool-cases (key == other)) [
    | inl o ↦
        let apart : (entry.0 == other) ≡ false =
          ap (λ k. entry.0 == k) (sym ((eq_iff key other).0 o)) ∙ e in
        rw (e, apart, entry_of-put key other value entries, o) refl
    | inr o ↦ rw (e, entry_of-put key other value entries, o) refl
  ]
]
