-- ===== src/Detector/Bundle.antt =====
-- `ParseEthereumTokenSale` of workflows_detector.go: who sold and who bought a token that a
-- transaction transfers several times.
use ff_indexer.Prelude.{
  String, List, [], ◌∷◌, Bool, true, false, ◌==◌, Option, none, some, ◌≡◌, inl, inr, refl, ap, sym,
  ◌∙◌, if◌then◌else◌, All, find_first, Bool-cases, eq_iff,
}
use ff_indexer.Exec.{ok}
use ff_indexer.IndexId.{Chains}
use ff_indexer.Detector.{entry_of}
use ff_indexer.Detector.Entries.{entry_of-put}
use ff_indexer.Detector.Logs.{Log}
use ff_indexer.Detector.Transfers.{
  Digits, TokenTransferData, TokenTxs, TokenSources, token_transfer_of, token_tx_map_key,
  joined_transfer, add_transfer, index_id_of, token_txs_of,
}

-- The logs are those of transfers.
abbrev pub AreTransfers : Digits → List Log → List TokenTransferData → Type 0
AreTransfers o [] [] = Unit
AreTransfers o [] (t ∷ ts) = ⊥
AreTransfers o (l ∷ logs) [] = ⊥
AreTransfers o (l ∷ logs) (t ∷ ts) = (token_transfer_of o l ≡ ok (some t)) × AreTransfers o logs ts

abbrev pub is_of_token : String → TokenTransferData → Bool
is_of_token key t = token_tx_map_key t == key

abbrev or_this : Option TokenTransferData → Option TokenTransferData → Option TokenTransferData
or_this none this = this
or_this (some later) this = some later

-- The last that passes a test.
unfoldable pub find_last :
    (TokenTransferData → Bool) → List TokenTransferData → Option TokenTransferData
find_last p [] = none
find_last p (t ∷ ts) = or_this (find_last p ts) (if p t then some t else none)

-- What the map holds for a token: the last transfer, with the sender of what it held before, or of
-- the first.
abbrev merged :
    Option TokenTransferData
    → Option TokenTransferData
    → Option TokenTransferData
    → Option TokenTransferData
merged old first none = old
merged (some f) first (some t) = some (record t { from = f.from })
merged none (some f) (some t) = some (record t { from = f.from })
merged none none (some t) = some t

merged-joined_transfer :
    (old first last : Option TokenTransferData) (t : TokenTransferData)
    → merged (some (joined_transfer old t)) first last ≡ merged old (some t) (or_this last (some t))
merged-joined_transfer none first none t = refl
merged-joined_transfer (some f) first none t = refl
merged-joined_transfer none first (some u) t = refl
merged-joined_transfer (some f) first (some u) t = refl

or_this-none : (o : Option TokenTransferData) → or_this o none ≡ o
or_this-none none = refl
or_this-none (some t) = refl

merged-add_transfer :
    (mine : Bool) (old first last : Option TokenTransferData) (t : TokenTransferData)
    → merged (if mine then some (joined_transfer old t) else old) first last
      ≡ merged old (if mine then some t else first) (or_this last (if mine then some t else none))
merged-add_transfer true old first last t = merged-joined_transfer old first last t
merged-add_transfer false old first last t = ap (merged old first) (sym (or_this-none last))

entry_of-add_transfer :
    (key : String) (t : TokenTransferData) (txs : TokenTxs)
    → entry_of key (add_transfer t txs) ≡ (
        if is_of_token key t then some (joined_transfer (entry_of key txs) t) else entry_of key txs)
entry_of-add_transfer key t txs = elim (Bool-cases (is_of_token key t)) [
  | inl e ↦
      rw
        (
          entry_of-put (token_tx_map_key t) key
              (joined_transfer (entry_of (token_tx_map_key t) txs) t) txs,
          e,
        )
        (ap (λ k. some (joined_transfer (entry_of k txs) t))
          ((eq_iff (token_tx_map_key t) key).0 e))
  | inr e ↦
      rw
        (
          entry_of-put (token_tx_map_key t) key
              (joined_transfer (entry_of (token_tx_map_key t) txs) t) txs,
          e,
        )
        refl
]

module _ (o : Digits) (c : Chains) (source_of : TokenSources) where
  -- Feral File published the tokens.
  abbrev pub AreOfFeralfile : List TokenTransferData → Type 0
  AreOfFeralfile = All (λ t. source_of (index_id_of o c source_of t) ≡ ok (some "feralfile"))

  token_txs_of-merged :
      (key : String) (logs : List Log) (ts : List TokenTransferData) (txs : TokenTxs)
      → AreTransfers o logs ts
      → AreOfFeralfile ts
      → (r : TokenTxs) × (token_txs_of o c source_of logs txs ≡ ok (some r))
        × (entry_of key r
            ≡ merged
                (entry_of key txs)
                (find_first (is_of_token key) ts)
                (find_last (is_of_token key) ts))
  unfolding token_txs_of find_first find_last
  token_txs_of-merged key [] [] txs transfers sources = (txs, refl, refl)
  token_txs_of-merged key [] (t ∷ ts) txs transfers sources = elim transfers [ ]
  token_txs_of-merged key (l ∷ logs) [] txs transfers sources = elim transfers [ ]
  token_txs_of-merged key (l ∷ logs) (t ∷ ts) txs transfers sources =
      let (r, run, entry) =
        token_txs_of-merged key logs ts (add_transfer t txs) transfers.1 sources.1 in
      (
        r,
        rw (transfers.0, sources.0) run,
        entry
            ∙ ap (λ x. merged x (find_first (is_of_token key) ts) (find_last (is_of_token key) ts))
                (entry_of-add_transfer key t txs)
            ∙ merged-add_transfer (is_of_token key t) (entry_of key txs)
                (find_first (is_of_token key) ts) (find_last (is_of_token key) ts) t,
      )

  -- If every log is a transfer of a token that Feral File published, the loop over them succeeds,
  -- and keeps of a token that is transferred one transfer: the last one, with the sender of the
  -- first.
  pub token_txs_of_lem :
      (key : String) (logs : List Log) (ts : List TokenTransferData)
      {first last : TokenTransferData}
      → AreTransfers o logs ts
      → AreOfFeralfile ts
      → find_first (is_of_token key) ts ≡ some first
      → find_last (is_of_token key) ts ≡ some last
      → (r : TokenTxs) × (token_txs_of o c source_of logs [] ≡ ok (some r))
        × (entry_of key r ≡ some (record last { from = first.from }))
  unfolding entry_of
  token_txs_of_lem key logs ts {first} {last} transfers sources is_first is_last =
      let (r, run, entry) = token_txs_of-merged key logs ts [] transfers sources in
      (r, run, entry ∙ held)
    where
      held :
          merged
            (entry_of key [])
            (find_first (is_of_token key) ts)
            (find_last (is_of_token key) ts)
          ≡ some (record last { from = first.from })
      held = rw (is_first, is_last) refl
