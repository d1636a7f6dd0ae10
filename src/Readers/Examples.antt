-- ===== src/Readers/Examples.antt =====
-- Witnesses for the readers of store.go.
use ff_indexer.Prelude.{
  ℕ, String, List, [], ◌∷◌, ◌≡◌, length, take, drop, take_all, append_nil, ◌∙◌, arith,
}
use ff_indexer.Exec.{ok, calm}
use ff_indexer.Catalog.{Store}
use ff_indexer.Catalog.Samples.{sample_base, sample_store}
use ff_indexer.Paging.Pages.{join}
use ff_indexer.Readers.{Criteria, slices_of, check_address_own_token_by_criteria}
use ff_indexer.Readers.Source.{meets, check_address_own_token_by_criteria_lem}

-- One range for all places.
abbrev one_range : ℕ → List (ℕ × ℕ)
one_range n = (0, n) ∷ []

whole : (l : List String) → join (slices_of l (one_range (length l))) ≡ l
unfolding drop
whole l = append_nil (take (length l) l) ∙ take_all (length l) l (omega arith)

abbrev holder : Store
holder = record sample_store {
  account_tokens =
      record {
        base = sample_base;
        index_id = "eth-0xc-7";
        owner_account = "0xa";
        balance = 1;
        last_activity_time = 5;
        last_refreshed_time = 6;
      }
      ∷ [];
}

abbrev criteria : Criteria
criteria = record { index_id = ""; source = "opensea" }

check_address_own_token_by_criteria_lem_example :
    check_address_own_token_by_criteria one_range "0xa" criteria (calm holder)
    ≡ (ok (meets "0xa" criteria holder), calm holder)
check_address_own_token_by_criteria_lem_example =
    check_address_own_token_by_criteria_lem one_range whole "0xa" criteria holder
