-- ===== src/Mapper/Formats.antt =====
-- What sdk/grpc-gateway/mapper.go takes from the packages time, encoding/json and primitive, and
-- the loops that convert lists.
use ff_indexer.Prelude.{ℕ, String, List, [], ◌∷◌, Option, ◌≡◌, refl, map}
use ff_indexer.Exec.{Result, ok, err}
use ff_indexer.Json.{Fields}

-- `time.Parse` and `Format` with the layout `RFC3339Nano`, `json.Unmarshal` and `json.Marshal` of a
-- map, which is none where it is nil, the texts of a `Decimal128`, whose bits are a number, and
-- `structpb.NewStruct` and `AsMap`. What is written is read back: a time is one of the years 0 to
-- 9999. Of decimals this is not said, since not all of their bits are canonical.
pub record Codec : Type 0 where
  pub format_time : ℕ → String
  pub parse_time : String → Result ℕ
  pub parse_time-format_time : (t : ℕ) → parse_time (format_time t) ≡ ok t
  pub marshal : Option Fields → Result String
  pub unmarshal : String → Result (Option Fields)
  pub unmarshal-marshal : (m : Option Fields) (s : String) → marshal m ≡ ok s → unmarshal s ≡ ok m
  pub decimal_string : ℕ → String
  pub parse_decimal128 : String → Result ℕ
  pub new_struct : Option Fields → Result Fields
  pub as_map : Fields → Fields

-- Goes on with the value, or returns the error.
infixl 10 ◌>>=◌
abbrev pub ◌>>=◌ {ℓ} : {A B : Type ℓ} → Result A → (A → Result B) → Result B
ok a >>= f = f a
err e >>= f = err e

-- What has a value has gone on with one.
pub bind-ok {ℓ} :
    {A B : Type ℓ} (r : Result A) (f : A → Result B) {b : B}
    → (r >>= f) ≡ ok b
    → (a : A) × (r ≡ ok a) × (f a ≡ ok b)
bind-ok (ok a) f h = (a, refl, h)
bind-ok (err e) f h = cc

module _ {ℓ} {A B : Type ℓ} where
  -- A loop that converts the elements, and returns at the first error.
  unfoldable pub convert_each : (A → Result B) → List A → Result (List B)
  convert_each f [] = ok []
  convert_each f (a ∷ rest) = f a >>= λ b. convert_each f rest >>= λ bs. ok (b ∷ bs)

-- The loop inverts a map up to `h` if its body does.
pub convert_each-map {ℓ} :
    {A B C : Type ℓ} (f : B → Result C) (g : A → B) (h : A → C)
    → ((a : A) → f (g a) ≡ ok (h a))
    → (l : List A) → convert_each f (map g l) ≡ ok (map h l)
unfolding convert_each
convert_each-map f g h inverse [] = refl
convert_each-map f g h inverse (a ∷ rest) = rw (inverse a, convert_each-map f g h inverse rest)

-- A loop whose body is an inverse is one.
pub convert_each_inverse {ℓ} :
    {A B : Type ℓ} (f : B → Result A) (g : A → B)
    → ((a : A) → f (g a) ≡ ok a)
    → (l : List A) → convert_each f (map g l) ≡ ok l
unfolding convert_each
convert_each_inverse f g inverse [] = refl
convert_each_inverse f g inverse (a ∷ rest) = rw (inverse a, convert_each_inverse f g inverse rest)
