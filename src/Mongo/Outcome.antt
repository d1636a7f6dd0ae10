-- ===== src/Mongo/Outcome.antt =====
-- What a call of the database can leave: the collection as it was, where the call fails, or the
-- change that it stands for.
use ff_indexer.Prelude.{
  update_all, Bool, true, false, List, [], ◌∷◌, Option, none, some, ◌≡◌, ◌⊎◌, inl, inr, refl,
  find_first, update_first,
}
use ff_indexer.Exec.{ok, World, perform}
use ff_indexer.Mongo.{Collection, find_one, update_many, update_one, or_no_documents}

module _ {S D : Type 0} (c : Collection S D) (p : D → Bool) (w : World S) where
  pub store-find_one : (find_one c p w).1.store ≡ w.store
  unfolding find_one perform
  store-find_one = unchanged w.faults
    where
      unchanged : (fs : List Bool) → (find_one c p (record w { faults = fs })).1.store ≡ w.store
      unchanged [] = refl
      unchanged (true ∷ fs) = refl
      unchanged (false ∷ fs) = refl

  pub found-find_one : {d : D} → (find_one c p w).0 ≡ ok d → find_first p (c.get w.store) ≡ some d
  unfolding find_one perform
  found-find_one {d} h = given w.faults h
    where
      from_result : (o : Option D) → or_no_documents o ≡ ok d → o ≡ some d
      from_result none e = cc
      from_result (some x) e = cc

      given :
          (fs : List Bool)
          → (find_one c p (record w { faults = fs })).0 ≡ ok d
          → find_first p (c.get w.store) ≡ some d
      given [] e = from_result _ e
      given (true ∷ fs) e = cc
      given (false ∷ fs) e = from_result _ e

  pub store-update_one :
      (f : D → D)
      → ((update_one c p f w).1.store ≡ w.store)
        ⊎ ((update_one c p f w).1.store ≡ c.put (update_first p f (c.get w.store)) w.store)
  unfolding update_one perform
  store-update_one f = outcome w.faults
    where
      outcome :
          (fs : List Bool)
          → ((update_one c p f (record w { faults = fs })).1.store ≡ w.store)
            ⊎ ((update_one c p f (record w { faults = fs })).1.store
                ≡ c.put (update_first p f (c.get w.store)) w.store)
      outcome [] = inr refl
      outcome (true ∷ fs) = inl refl
      outcome (false ∷ fs) = inr refl

  pub store-update_many :
      (f : D → D)
      → (update_many c p f w).0 ≡ ok tt
      → (update_many c p f w).1.store ≡ c.put (update_all p f (c.get w.store)) w.store
  unfolding update_many perform
  store-update_many f = outcome w.faults
    where
      outcome :
          (fs : List Bool)
          → (update_many c p f (record w { faults = fs })).0 ≡ ok tt
          → (update_many c p f (record w { faults = fs })).1.store
            ≡ c.put (update_all p f (c.get w.store)) w.store
      outcome [] h = refl
      outcome (true ∷ fs) h = cc
      outcome (false ∷ fs) h = refl
