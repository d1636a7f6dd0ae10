-- ===== src/Identities.antt =====
-- store.go: the identities and accounts of `MongodbIndexerStore`. `now` is what `time.Now()` returns.
pub mod Agreement
mod Examples
use ff_indexer.Prelude.{
  ℕ, String, List, [], ◌∷◌, Bool, true, false, ◌==◌, Option, none, some, eqb, if◌then◌else◌, one_of,
}
use ff_indexer.Exec.{Result, ok, err, no_documents, Exec, pure, fail, caught, ◌>>=◌, ◌>>◌}
use ff_indexer.Mongo.{Collection, find_one, find, upsert_one}

-- schema.go: `AccountIdentity`
pub record AccountIdentity : Type 0 where
  pub account_number : String
  pub blockchain : String
  pub name : String
  pub last_updated_time : ℕ

-- structs.go: `Account`
pub record Account : Type 0 where
  pub account : String
  pub blockchain : String
  pub last_updated_time : ℕ
  pub last_activity_time : ℕ

-- The collections `identities`, `ff_identities` and `accounts`
pub record People : Type 0 where
  pub identities : List AccountIdentity
  pub ff_identities : List AccountIdentity
  pub accounts : List Account

abbrev pub identity_collection : Collection People AccountIdentity
identity_collection = record { get = λ s. s.identities; put = λ l s. record s { identities = l } }

abbrev pub ff_identity_collection : Collection People AccountIdentity
ff_identity_collection = record {
  get = λ s. s.ff_identities;
  put = λ l s. record s { ff_identities = l };
}

abbrev pub account_collection : Collection People Account
account_collection = record { get = λ s. s.accounts; put = λ l s. record s { accounts = l } }

abbrev pub has_number : String → AccountIdentity → Bool
has_number number i = i.account_number == number

abbrev pub no_identity : AccountIdentity
no_identity = record { account_number = ""; blockchain = ""; name = ""; last_updated_time = 0 }

abbrev pub or_no_identity : Result AccountIdentity → Exec People AccountIdentity
or_no_identity (ok i) = pure i
or_no_identity (err no_documents) = pure no_identity
or_no_identity (err e) = fail e

-- An error of the second query is not returned, whatever it is.
abbrev pub or_first : AccountIdentity → Result AccountIdentity → Exec People AccountIdentity
or_first i (ok j) = pure j
or_first i (err e) = pure i

-- `GetIdentity`
unfoldable pub get_identity : String → Exec People AccountIdentity
get_identity number =
    caught (find_one identity_collection (has_number number)) or_no_identity >>= λ i.
    if i.name == ""
    then caught (find_one ff_identity_collection (has_number number)) (or_first i)
    else pure i

-- A map from account numbers
abbrev pub Identities : Type 0
Identities = List (String × AccountIdentity)

unfoldable pub lookup_identity : String → Identities → Option AccountIdentity
lookup_identity number [] = none
lookup_identity number (e ∷ m) =
    let later = lookup_identity number m in if e.0 == number then some e.1 else later

-- What is put last stands first.
unfoldable pub put_identities : List AccountIdentity → Identities → Identities
put_identities [] m = m
put_identities (i ∷ found) m = put_identities found ((i.account_number, i) ∷ m)

abbrev pub is_blank : Option AccountIdentity → Bool
is_blank none = true
is_blank (some i) = i.name == ""

unfoldable pub put_ff_identities : List AccountIdentity → Identities → Identities
put_ff_identities [] m = m
put_ff_identities (i ∷ found) m =
    put_ff_identities found
      (if is_blank (lookup_identity i.account_number m) then (i.account_number, i) ∷ m else m)

-- `GetIdentities`
unfoldable pub get_identities : List String → Exec People Identities
get_identities numbers = do
  found ← find identity_collection (λ i. one_of numbers i.account_number)
  ff_found ← find ff_identity_collection (λ i. one_of numbers i.account_number)
  pure (put_ff_identities ff_found (put_identities found []))

-- `IndexIdentity`
unfoldable pub index_identity : ℕ → AccountIdentity → Exec People (Unit {0})
index_identity now identity =
    let i = record identity { last_updated_time = now } in
    upsert_one identity_collection (has_number i.account_number) (λ old. i) i

abbrev pub account_dated : ℕ → Account → Account
account_dated now a = if eqb a.last_updated_time 0 then record a { last_updated_time = now } else a

-- `IndexAccount`
unfoldable pub index_account : ℕ → Account → Exec People (Unit {0})
index_account now account =
    let a = account_dated now account in
    upsert_one account_collection (λ b. b.account == account.account) (λ old. a) a

abbrev pub no_account : Account
no_account = record { account = ""; blockchain = ""; last_updated_time = 0; last_activity_time = 0 }

abbrev pub or_no_account : Result Account → Exec People Account
or_no_account (ok a) = pure a
or_no_account (err no_documents) = pure no_account
or_no_account (err e) = fail e

-- `GetAccount`
unfoldable pub get_account : String → Exec People Account
get_account owner = caught (find_one account_collection (λ a. a.account == owner)) or_no_account
