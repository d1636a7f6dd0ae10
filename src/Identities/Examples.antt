-- ===== src/Identities/Examples.antt =====
-- Witnesses for the identities of store.go.
use ff_indexer.Prelude.{[], ◌∷◌, ◌≡◌, refl, inr, exists}
use ff_indexer.Exec.{ok, calm}
use ff_indexer.Identities.{
  AccountIdentity, People, Identities, get_identity, get_identities, lookup_identity,
}
use ff_indexer.Identities.Agreement.{or_zero_identity, get_identities-get_identity}

abbrev unnamed : AccountIdentity
unnamed = record {
  account_number = "0xa";
  blockchain = "ethereum";
  name = "";
  last_updated_time = 3;
}

abbrev people : People
people = record {
  identities = unnamed ∷ [];
  ff_identities = record unnamed { name = "Ann" } ∷ [];
  accounts = [];
}

get_identities-get_identity_example :
    (m : Identities) × (get_identities ("0xa" ∷ "0xb" ∷ []) (calm people) ≡ (ok m, calm people))
    × (get_identity "0xa" (calm people)
        ≡ (ok (or_zero_identity (lookup_identity "0xa" m)), calm people))
unfolding exists
get_identities-get_identity_example =
    get_identities-get_identity ("0xa" ∷ "0xb" ∷ []) "0xa" people refl (inr refl, tt) (inr refl, tt)
