-- ===== src/Mapper/Samples.antt =====
-- A codec for the tests of sdk/grpc-gateway/mapper.go, which writes a time as that many letters.
use mathlib.Core.Path.{subst}
use ff_indexer.Prelude.{
  ℕ, zero, suc, String, arith, Option, none, some, ◌==◌, ◌&&◌, inl, inr, Bool-cases, eq_iff,
  if◌then◌else◌, ◌≡◌, refl, ap,
}
use ff_indexer.Exec.{Result, ok, err, bad_event_data}
use ff_indexer.Exec.Success.{ok_injective}
use ff_indexer.Json.{Fields, end, field, null, truth, number, text_value, array, object}
use ff_indexer.Mapper.Formats.{Codec}

unfoldable pub tally : ℕ → String
tally zero = ""
tally (suc n) = String.◌∷◌ "t" (tally n)

unfoldable pub count : String → ℕ
count String.[] = zero
count (String.◌∷◌ c s) = suc (count s)

pub count-tally : (n : ℕ) → count (tally n) ≡ n
unfolding count tally
count-tally zero = refl
count-tally (suc n) = ap suc (count-tally n)

-- The object with the one field `0xa`, whose value is the text of the decimal 4.
abbrev pub marshal_field : String → String → Result String
marshal_field name value =
    if name == "0xa" && value == "tttt" then ok "{0xa:tttt}" else err bad_event_data

abbrev pub marshal : Option Fields → Result String
marshal none = ok "null"
marshal (some end) = ok "{}"
marshal (some (field name (text_value value) end)) = marshal_field name value
marshal (some _) = err bad_event_data

abbrev pub unmarshal : String → Result (Option Fields)
unmarshal s =
    if s == "null"
    then ok none
    else if s == "{}"
    then ok (some end)
    else if s == "{0xa:tttt}"
    then ok (some (field "0xa" (text_value "tttt") end))
    else err bad_event_data

unmarshal-marshal_field :
    (name value s : String)
    → marshal_field name value ≡ ok s
    → unmarshal s ≡ ok (some (field name (text_value value) end))
unmarshal-marshal_field name value s writes = elim (Bool-cases (name == "0xa" && value == "tttt")) [
  | inl same ↦
      let at_name : name ≡ "0xa" = (eq_iff name "0xa").0 (ground arith) in
      let at_value : value ≡ "tttt" = (eq_iff value "tttt").0 (ground arith) in
      rw
        (
          ← ok_injective _ _
              (subst (λ b. (if b then ok "{0xa:tttt}" else err bad_event_data) ≡ ok s) same writes),
          at_name,
          at_value,
        )
        refl
  | inr other ↦ ground arith
]

pub unmarshal-marshal : (m : Option Fields) (s : String) → marshal m ≡ ok s → unmarshal s ≡ ok m
unmarshal-marshal none s writes = rw (← ok_injective _ _ writes) refl
unmarshal-marshal (some end) s writes = rw (← ok_injective _ _ writes) refl
unmarshal-marshal (some (field name (text_value value) end)) s writes =
    unmarshal-marshal_field name value s writes
unmarshal-marshal (some (field name (text_value value) (field n v r))) s writes = cc
unmarshal-marshal (some (field name null rest)) s writes = cc
unmarshal-marshal (some (field name (truth b) rest)) s writes = cc
unmarshal-marshal (some (field name (number n) rest)) s writes = cc
unmarshal-marshal (some (field name (array a) rest)) s writes = cc
unmarshal-marshal (some (field name (object o) rest)) s writes = cc

abbrev pub or_end : Option Fields → Fields
or_end none = end
or_end (some m) = m

unfoldable pub tally_codec : Codec
unfolding tally count
tally_codec = record {
  format_time = tally;
  parse_time = λ s. ok (count s);
  parse_time-format_time = λ t. ap ok (count-tally t);
  marshal = marshal;
  unmarshal = unmarshal;
  unmarshal-marshal = unmarshal-marshal;
  decimal_string = tally;
  parse_decimal128 = λ s. ok (count s);
  new_struct = λ m. ok (or_end m);
  as_map = λ m. m;
}
