-- ===== src/Mapper/RoundTrip.antt =====
-- sdk/grpc-gateway/mapper.go: tokens and account tokens that travel to the client and back.
use ff_indexer.Prelude.{ℕ, List, [], ◌∷◌, some, map, ◌≡◌, refl, ap}
use ff_indexer.Exec.{ok}
use ff_indexer.Catalog.{BaseTokenInfo, Provenance}
use ff_indexer.Mapper.{
  HeldToken, PendingAccountToken, deref_string, map_grpc_token_info, map_indexer_token_info,
  map_grpc_provenance, map_indexer_provenance, map_grpc_provenances, map_indexer_provenances,
  map_grpc_token, map_indexer_token, map_grpc_account_token, map_indexer_account_token,
  map_grpc_account_tokens, map_indexer_account_tokens, convert_times_to_time_strings,
  convert_time_strings_to_times,
}
use ff_indexer.Mapper.Formats.{Codec, convert_each_inverse, convert_each-map}

-- A provenance as the client has it: an absent former owner is the empty text.
unfoldable pub received_provenance : Provenance → Provenance
received_provenance p = record p { former_owner = some (deref_string p.former_owner) }

-- A token as the client has it.
unfoldable pub received_held : HeldToken → HeldToken
received_held h = record h {
  document = record h.document {
    swapped_from = some (deref_string h.document.swapped_from);
    swapped_to = some (deref_string h.document.swapped_to);
    provenances = map received_provenance h.document.provenances;
    last_activity_time = h.document.last_refreshed_time;
  };
}

token_info_round_trip :
    (l : List BaseTokenInfo) → map_grpc_token_info (map_indexer_token_info l) ≡ l
unfolding map_grpc_token_info map_indexer_token_info
token_info_round_trip [] = refl
token_info_round_trip (b ∷ l) = ap (λ r. b ∷ r) (token_info_round_trip l)

module _ (c : Codec) where
  open c use {parse_time-format_time, format_time, parse_time}

  provenance_round_trip :
      (p : Provenance)
      → map_grpc_provenance c (map_indexer_provenance c p) ≡ ok (received_provenance p)
  unfolding received_provenance
  provenance_round_trip p = rw (parse_time-format_time p.timestamp)

  -- x
  pub map_grpc_provenances-map_indexer_provenances :
      (l : List Provenance)
      → map_grpc_provenances c (map_indexer_provenances c l) ≡ ok (map received_provenance l)
  unfolding map_grpc_provenances map_indexer_provenances
  map_grpc_provenances-map_indexer_provenances l =
      convert_each-map (map_grpc_provenance c) (map_indexer_provenance c) received_provenance
        provenance_round_trip l

  -- x
  pub map_grpc_token-map_indexer_token :
      (h : HeldToken) → map_grpc_token c (map_indexer_token c h) ≡ ok (received_held h)
  unfolding map_grpc_token map_indexer_token received_held
  map_grpc_token-map_indexer_token h = rw (
    parse_time-format_time h.document.minted_at,
    parse_time-format_time h.document.last_refreshed_time,
    map_grpc_provenances-map_indexer_provenances h.document.provenances,
    token_info_round_trip h.document.origin_token_info,
  )

  times_round_trip :
      (l : List ℕ) → convert_time_strings_to_times c (convert_times_to_time_strings c l) ≡ ok l
  unfolding convert_time_strings_to_times convert_times_to_time_strings
  times_round_trip l = convert_each_inverse parse_time format_time parse_time-format_time l

  account_token_round_trip :
      (p : PendingAccountToken) → map_grpc_account_token c (map_indexer_account_token c p) ≡ ok p
  account_token_round_trip p = rw (
    parse_time-format_time p.account.last_activity_time,
    parse_time-format_time p.account.last_refreshed_time,
    times_round_trip p.last_pending_time,
  )

  -- Account tokens that are mapped to messages and back are the same, with all their fields.
  pub map_grpc_account_tokens-map_indexer_account_tokens :
      (l : List PendingAccountToken)
      → map_grpc_account_tokens c (map_indexer_account_tokens c l) ≡ ok l
  unfolding map_grpc_account_tokens map_indexer_account_tokens
  map_grpc_account_tokens-map_indexer_account_tokens l =
      convert_each_inverse (map_grpc_account_token c) (map_indexer_account_token c)
        account_token_round_trip l
