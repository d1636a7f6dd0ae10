-- ===== src/Exec.antt =====
-- Code that calls a database or a service: a Go function that returns an error, over the state
-- that its calls change. Which calls fail is for the environment to choose, by a schedule.
pub mod Keeps
pub mod Success
pub mod Honest
use ff_indexer.Prelude.{◌≡◌, refl, Bool, true, false, List, [], ◌∷◌}

-- The errors that the modelled functions return.
pub data Error : Type 0 where
  call_failed unique_violation no_documents no_record_updated nothing_to_update tx_done : Error
  invalid_former_owner unsupported_blockchain burned_into_different_id : Error
  bad_index_id token_not_exist bad_event_data out_of_fuel : Error
  reserved_field wrong_format bad_decimal panicked unset : Error

pub data Result {ℓ} (A : Type ℓ) : Type ℓ where
  ok : A → Result A
  err : Error → Result A

-- `faults` says, call by call, which of the coming calls fail; beyond its end none does.
pub record World {ℓ} (S : Type ℓ) : Type ℓ where
  pub store : S
  pub faults : List Bool

-- No call fails.
abbrev pub calm {ℓ} : {S : Type ℓ} → S → World S
calm s = record { store = s; faults = [] }

abbrev pub Exec {ℓ} : Type ℓ → Type ℓ → Type ℓ
Exec S A = World S → Result A × World S

module _ {ℓ} {S A : Type ℓ} where
  attempt : List Bool → (S → Result A × S) → S → Result A × World S
  attempt [] f s = let (r, s') = f s in (r, record { store = s'; faults = [] })
  attempt (true ∷ later) f s = (err call_failed, record { store = s; faults = later })
  attempt (false ∷ later) f s = let (r, s') = f s in (r, record { store = s'; faults = later })

  -- A call of the database: it fails and changes nothing, or it does what `f` says.
  unfoldable pub perform : (S → Result A × S) → Exec S A
  unfolding attempt
  perform f w = attempt w.faults f w.store

  unfoldable pub pure : A → Exec S A
  pure a w = (ok a, w)

  unfoldable pub fail : Error → Exec S A
  fail e w = (err e, w)

module _ {ℓ} {S A B : Type ℓ} where
  abbrev pub and_then : Result A × World S → (A → Exec S B) → Result B × World S
  and_then (ok a, w) f = f a w
  and_then (err e, w) f = (err e, w)

  infixl 10 ◌>>=◌ ◌>>◌
  abbrev pub ◌>>=◌ : Exec S A → (A → Exec S B) → Exec S B
  ◌>>=◌ m f w = and_then (m w) f

  abbrev pub ◌>>◌ : Exec S A → Exec S B → Exec S B
  m >> n = m >>= λ _. n

  -- Goes on whether or not `m` failed, with what it returned: for code that logs an error.
  abbrev pub caught : Exec S A → (Result A → Exec S B) → Exec S B
  caught m f w = let (r, w') = m w in f r w'

-- What follows and cannot fail or change anything leaves the world as it is.
module _ {ℓ} {S A B : Type ℓ} where
  pub store-and_then-pure : (r : Result A × World S) (b : B) → (and_then r (λ _. pure b)).1 ≡ r.1
  unfolding pure
  store-and_then-pure (ok a, w) b = refl
  store-and_then-pure (err e, w) b = refl
