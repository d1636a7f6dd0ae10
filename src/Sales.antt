-- ===== src/Sales.antt =====
-- store.go: `WriteTimeSeriesData` of `MongodbIndexerStore`, which validates sales and stores them.
-- `insertsMap` and the entries of a map stand in the order in which a loop ranges over them.
pub mod Documents
pub mod Stored
pub mod Lost
mod Examples
use Prim.Native.String.{String, ◌++◌}
use mathlib.Core.List as List
use ff_indexer.Prelude.{
  ℕ, List, [], ◌∷◌, Bool, true, false, ◌==◌, Option, none, some, if◌then◌else◌, one_of, exists,
}
use ff_indexer.Exec.{
  Result, ok, err, reserved_field, wrong_format, bad_decimal, panicked, Exec, perform, pure, fail,
  ◌>>=◌,
}
use ff_indexer.Json.{Json, Items, Fields, null, text_value, array, object, nil, item, end, field}
use ff_indexer.Mongo.{Collection, delete_many}
use ff_indexer.Mapper.Sales.{GenericSalesTimeSeries}

-- A document of the sales: its time, metadata with the unique id, values and shares.
pub record SaleDocument : Type 0 where
  pub timestamp : ℕ
  pub unique_id : String
  pub metadata : Option Fields
  pub values : List (String × ℕ)
  pub shares : List (String × ℕ)

abbrev pub sale_collection : Collection (List SaleDocument) SaleDocument
sale_collection = record { get = λ s. s; put = λ l s. l }

-- `time.Parse` with the layout `RFC3339Nano`, `ParseDecimal128`, whose bits are a number,
-- `sort.Strings` and `HexSha1`.
pub record Tools : Type 0 where
  pub parse_time : String → Result ℕ
  pub parse_decimal128 : String → Result ℕ
  pub sort_strings : List String → List String
  pub hex_sha1 : String → String

-- `reserved`
abbrev pub is_reserved : String → Bool
is_reserved =
    one_of ("_id" ∷ "id" ∷ "metadata" ∷ "shares" ∷ "timestamp" ∷ "values" ∷ "uniqueID" ∷ [])

abbrev pub after : {A B : Type 0} → Result A → (A → Result B) → Result B
after (ok a) f = f a
after (err e) f = err e

-- The value of a key, nil where it is missing.
unfoldable pub value_of : String → Fields → Json
value_of name end = null
value_of name (field n value rest) =
    let later = value_of name rest in if n == name then value else later

abbrev pub of_metadata : String → Option Fields → Json
of_metadata name none = null
of_metadata name (some fields) = value_of name fields

-- An assertion that a value is a text, which panics.
abbrev pub must_be_text : Json → Result String
must_be_text (text_value s) = ok s
must_be_text other = err panicked

-- The address of a contract may be missing.
abbrev pub contract_of : Json → Result String
contract_of null = ok ""
contract_of (text_value s) = ok s
contract_of other = err wrong_format

abbrev pub token_of : Option Fields → Json → Result String
token_of metadata (object m) = after (contract_of (value_of "contractAddress" m)) λ contract.
    after (must_be_text (of_metadata "blockchain" metadata)) λ blockchain.
      after (must_be_text (value_of "tokenID" m))
        λ id. ok (blockchain ++ ("-" ++ (contract ++ ("-" ++ id))))
token_of metadata other = err wrong_format

unfoldable pub tokens_of_items : Option Fields → Items → Result (List String)
tokens_of_items metadata nil = ok []
tokens_of_items metadata (item j js) =
    after (token_of metadata j)
      λ token. after (tokens_of_items metadata js) λ tokens. ok (token ∷ tokens)

abbrev pub bundle_of : Option Fields → Json → Result (List String)
bundle_of metadata (array js) = tokens_of_items metadata js
bundle_of metadata other = err wrong_format

-- The loop over the metadata: the tokens of the sale, unless a name is reserved.
unfoldable pub tokens_of_fields : Option Fields → Fields → Result (List String)
tokens_of_fields metadata end = ok []
tokens_of_fields metadata (field name value rest) =
    let later = tokens_of_fields metadata rest in
    if is_reserved name
    then err reserved_field
    else if name == "bundleTokenInfo"
    then after (bundle_of metadata value) (λ tokens. after later λ more. ok (List.◌++◌ tokens more))
    else later

abbrev pub sale_tokens : Option Fields → Result (List String)
sale_tokens none = ok []
sale_tokens (some fields) = tokens_of_fields (some fields) fields

unfoldable pub texts_of : Items → Result (List String)
texts_of nil = ok []
texts_of (item (text_value s) js) = after (texts_of js) λ texts. ok (s ∷ texts)
texts_of (item other js) = err wrong_format

abbrev pub transaction_ids_of : Json → Result (List String)
transaction_ids_of (array js) = texts_of js
transaction_ids_of other = err wrong_format

-- `strings.Join(texts, ",")`
unfoldable pub join_commas : List String → String
join_commas [] = ""
join_commas (s ∷ []) = s
join_commas (s ∷ t ∷ texts) = s ++ ("," ++ join_commas (t ∷ texts))

module _ (o : Tools) where
  open o use {parse_time, parse_decimal128, sort_strings, hex_sha1}

  abbrev pub unique_id : List String → List String → String
  unique_id transaction_ids tokens =
      hex_sha1
        (join_commas (sort_strings transaction_ids) ++ ("|" ++ join_commas (sort_strings tokens)))

  -- The time and the unique id of a record
  unfoldable pub key_of : GenericSalesTimeSeries → Result (ℕ × String)
  key_of r = after (parse_time r.timestamp) λ timestamp. after (sale_tokens r.metadata) λ tokens.
      after (transaction_ids_of (of_metadata "transactionIDs" r.metadata))
        λ transaction_ids. ok (timestamp, unique_id transaction_ids tokens)

  abbrev pub decimal_of : Result ℕ → Result ℕ
  decimal_of (ok d) = ok d
  decimal_of (err e) = err bad_decimal

  unfoldable pub decimals_of : List (String × String) → Result (List (String × ℕ))
  decimals_of [] = ok []
  decimals_of ((k, v) ∷ entries) =
      let later = decimals_of entries in
      if is_reserved k
      then err reserved_field
      else after (decimal_of (parse_decimal128 v)) λ d. after later λ rest. ok ((k, d) ∷ rest)

  unfoldable pub document_of : ℕ × String → GenericSalesTimeSeries → Result SaleDocument
  document_of (timestamp, unique_id) r = after (decimals_of r.values) λ values.
      after (decimals_of r.shares) λ shares. ok (record {
        timestamp = timestamp;
        unique_id = unique_id;
        metadata = r.metadata;
        values = values;
        shares = shares;
      })

  abbrev pub has_unique_id : String → SaleDocument → Bool
  has_unique_id id d = d.unique_id == id

  abbrev pub lift : {A : Type 0} → Result A → Exec (List SaleDocument) A
  lift (ok a) = pure a
  lift (err e) = fail e

  -- The loop: the stored sales of the id are deleted, and the document is kept for the end.
  unfoldable pub delete_old :
      List GenericSalesTimeSeries → List SaleDocument → Exec (List SaleDocument) (List SaleDocument)
  delete_old [] inserts = pure inserts
  delete_old (r ∷ records) inserts = lift (key_of r) >>= λ key.
      let skipped = delete_old records inserts in
      let written =
        (lift (document_of key r) >>= λ d.
        delete_many sale_collection (has_unique_id key.1) >>= λ u.
        delete_old records (List.◌++◌ inserts (d ∷ []))) in
      if exists (has_unique_id key.1) inserts then skipped else written

  abbrev pub insert_many : List SaleDocument → Exec (List SaleDocument) (Unit {0})
  insert_many [] = pure tt
  insert_many (d ∷ inserts) = perform λ s. (ok tt, List.◌++◌ s (d ∷ inserts))

  -- `WriteTimeSeriesData`
  unfoldable pub write_time_series_data :
      List GenericSalesTimeSeries → Exec (List SaleDocument) (Unit {0})
  write_time_series_data records = delete_old records [] >>= insert_many
