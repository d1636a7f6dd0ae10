-- ===== src/Detector/Classes.antt =====
-- `classifyTxLogs` of workflows_detector.go: each log is in the class that its topics tell.
use ff_indexer.Prelude.{
  ℕ, String, List, [], ◌∷◌, ◌++◌, ◌==◌, Option, none, some, ◌≡◌, inl, inr, refl, ap, sym, ◌∙◌,
  Bool-cases, Bool, true, false, ◌&&◌, ◌||◌, eqb, length, if◌then◌else◌, arith, eq_iff,
  append_assoc, append_nil,
}
use ff_indexer.Exec.{ok}
use ff_indexer.Sales.{after}
use ff_indexer.Detector.Entries.{entry_of-put}
use ff_indexer.Detector.{entry_of}
use ff_indexer.Detector.Logs.{
  Log, TxLogs, transfer_event_signature, transfer_single_event_signature, logs_at, append_erc20,
  append_token, classify_log, classify_logs, classify_tx_logs,
}

-- The topics of a transfer of an ERC20 contract: the signature and two addresses.
abbrev pub are_erc20 : List String → Bool
are_erc20 (hash ∷ a ∷ b ∷ []) = hash == transfer_event_signature
are_erc20 other = false

-- The topics of a transfer of a token: one of the two signatures and three more.
abbrev pub are_token : List String → Bool
are_token (hash ∷ a ∷ b ∷ c ∷ []) =
    hash == transfer_single_event_signature || hash == transfer_event_signature
are_token other = false

-- The logs that pass a test.
unfoldable pub logs_that : (Log → Bool) → List (Option Log) → List Log
logs_that p [] = []
logs_that p (none ∷ logs) = logs_that p logs
logs_that p (some l ∷ logs) = let rest = logs_that p logs in if p l then l ∷ rest else rest

abbrev pub has_topic : Log → Bool
has_topic l = elim l.topics [ [] ↦ false | _ ∷ _ ↦ true ]

-- Whether no log is without topics.
unfoldable pub have_topics : List (Option Log) → Bool
have_topics [] = true
have_topics (none ∷ logs) = have_topics logs
have_topics (some l ∷ logs) = has_topic l && have_topics logs

-- The class of a log by its topics.
abbrev classed : Log → TxLogs → TxLogs
classed l c =
    if are_erc20 l.topics
    then append_erc20 l c
    else if are_token l.topics
    then append_token l c
    else c

abbrev log_of : String → List String → List ℕ → Log
log_of address topics d = record { address = address; topics = topics; data_bytes = d }

classify_log-classed :
    (address : String) (topics : List String) (d : List ℕ) (c : TxLogs)
    → has_topic (log_of address topics d) ≡ true
    → classify_log (log_of address topics d) c ≡ ok (classed (log_of address topics d) c)
classify_log-classed address [] d c h = ground arith
classify_log-classed address (x ∷ []) d c h = ground arith
classify_log-classed address (x ∷ y ∷ []) d c h = ground arith
classify_log-classed address (x ∷ y ∷ z ∷ []) d c h = ground arith
classify_log-classed address (x ∷ y ∷ z ∷ w ∷ []) d c h =
    elim (Bool-cases (x == transfer_event_signature)) [
      | inl e ↦ elim (Bool-cases (x == transfer_single_event_signature)) [
        | inl f ↦ rw (e, f) refl
        | inr f ↦ rw (e, f) refl
      ]
      | inr e ↦ elim (Bool-cases (x == transfer_single_event_signature)) [
        | inl f ↦ rw (e, f) refl
        | inr f ↦ rw (e, f) refl
      ]
    ]
classify_log-classed address (x ∷ y ∷ z ∷ w ∷ v ∷ more) d c h =
    let not3 : eqb (length (x ∷ y ∷ z ∷ w ∷ v ∷ more)) 3 ≡ false = ground arith in
    let not4 : eqb (length (x ∷ y ∷ z ∷ w ∷ v ∷ more)) 4 ≡ false = ground arith in
    elim (Bool-cases (x == transfer_event_signature)) [
      | inl e ↦ elim (Bool-cases (x == transfer_single_event_signature)) [
        | inl f ↦ rw (not3, not4, e, f) refl
        | inr f ↦ rw (not3, not4, e, f) refl
      ]
      | inr e ↦ elim (Bool-cases (x == transfer_single_event_signature)) [
        | inl f ↦ rw (not3, not4, e, f) refl
        | inr f ↦ rw (not3, not4, e, f) refl
      ]
    ]

-- The logs of an address after one more is appended.
logs_at-append_erc20 :
    (address : String) (l : Log) (c : TxLogs)
    → logs_at address (append_erc20 l c).erc20_transfers
      ≡ logs_at address c.erc20_transfers ++ (if l.address == address then l ∷ [] else [])
logs_at-append_erc20 address l c = elim (Bool-cases (l.address == address)) [
  | inl e ↦
      rw
        (
          entry_of-put l.address address (logs_at l.address c.erc20_transfers ++ l ∷ [])
              c.erc20_transfers,
          e,
        )
        (ap (λ a. logs_at a c.erc20_transfers ++ l ∷ []) ((eq_iff l.address address).0 e))
  | inr e ↦
      rw
        (
          entry_of-put l.address address (logs_at l.address c.erc20_transfers ++ l ∷ [])
              c.erc20_transfers,
          e,
        )
        (sym (append_nil (logs_at address c.erc20_transfers)))
]

-- A log of an ERC20 contract at an address.
abbrev pub is_erc20_of : String → Log → Bool
is_erc20_of address l = are_erc20 l.topics && l.address == address

abbrev pub is_token : Log → Bool
is_token l = are_token l.topics

-- What is in the classes after the logs that are left.
abbrev Classified : List (Option Log) → TxLogs → TxLogs → Type 0
Classified logs c r =
    (r.token_transfers ≡ c.token_transfers ++ logs_that is_token logs)
    × ((address : String)
        → logs_at address r.erc20_transfers
          ≡ logs_at address c.erc20_transfers ++ logs_that (is_erc20_of address) logs)

not_both : (topics : List String) → are_erc20 topics ≡ true → are_token topics ≡ false
not_both [] e = refl
not_both (x ∷ []) e = refl
not_both (x ∷ y ∷ []) e = refl
not_both (x ∷ y ∷ z ∷ []) e = refl
not_both (x ∷ y ∷ z ∷ w ∷ []) e = ground arith
not_both (x ∷ y ∷ z ∷ w ∷ v ∷ more) e = refl

classed-tokens :
    (l : Log) (c : TxLogs)
    → (classed l c).token_transfers ≡ c.token_transfers ++ (if is_token l then l ∷ [] else [])
classed-tokens l c = elim (Bool-cases (are_erc20 l.topics)) [
  | inl e ↦ rw (e, not_both l.topics e) (sym (append_nil c.token_transfers))
  | inr e ↦ elim (Bool-cases (are_token l.topics)) [
    | inl t ↦ rw (e, t) refl
    | inr t ↦ rw (e, t) (sym (append_nil c.token_transfers))
  ]
]

classed-logs_at :
    (address : String) (l : Log) (c : TxLogs)
    → logs_at address (classed l c).erc20_transfers
      ≡ logs_at address c.erc20_transfers ++ (if is_erc20_of address l then l ∷ [] else [])
classed-logs_at address l c = elim (Bool-cases (are_erc20 l.topics)) [
  | inl e ↦ rw e (logs_at-append_erc20 address l c)
  | inr e ↦ elim (Bool-cases (are_token l.topics)) [
    | inl t ↦ rw (e, t) (sym (append_nil (logs_at address c.erc20_transfers)))
    | inr t ↦ rw (e, t) (sym (append_nil (logs_at address c.erc20_transfers)))
  ]
]

logs_that-cons :
    (p : Log → Bool) (l : Log) (logs : List (Option Log))
    → logs_that p (some l ∷ logs) ≡ (if p l then l ∷ [] else []) ++ logs_that p logs
unfolding logs_that
logs_that-cons p l logs = elim (Bool-cases (p l)) [ inl e ↦ rw e refl | inr e ↦ rw e refl ]

-- A list that grew by what one log gives, and then by what the others give.
grown :
    (p : Log → Bool) (l : Log) (logs : List (Option Log)) (r here before : List Log)
    → r ≡ here ++ logs_that p logs
    → here ≡ before ++ (if p l then l ∷ [] else [])
    → r ≡ before ++ logs_that p (some l ∷ logs)
grown p l logs r here before h k =
    h
    ∙ ap (λ a. a ++ logs_that p logs) k
    ∙ append_assoc before (if p l then l ∷ [] else []) (logs_that p logs)
    ∙ ap (λ a. before ++ a) (sym (logs_that-cons p l logs))

classify_logs_lem :
    (logs : List (Option Log)) (c : TxLogs)
    → have_topics logs ≡ true
    → (r : TxLogs) × (classify_logs logs c ≡ ok r) × Classified logs c r
unfolding classify_logs have_topics logs_that
classify_logs_lem [] c h = (
  c,
  refl,
  (
    sym (append_nil c.token_transfers),
    λ address. sym (append_nil (logs_at address c.erc20_transfers)),
  ),
)
classify_logs_lem (none ∷ logs) c h = classify_logs_lem logs c h
classify_logs_lem (some l ∷ logs) c h =
    let topic : has_topic l ≡ true = ground arith in
    let topics : have_topics logs ≡ true = ground arith in
    let (r, run, (tokens, at)) = classify_logs_lem logs (classed l c) topics in
    let first = classify_log-classed l.address l.topics l.data_bytes c topic in
    (
      r,
      ap (λ x. after x (classify_logs logs)) first ∙ run,
      (
        grown is_token l logs r.token_transfers (classed l c).token_transfers c.token_transfers
            tokens (classed-tokens l c),
        λ address.
            grown (is_erc20_of address) l logs (logs_at address r.erc20_transfers)
              (logs_at address (classed l c).erc20_transfers) (logs_at address c.erc20_transfers)
              (at address) (classed-logs_at address l c),
      ),
    )

-- If no log is without topics, classifyTxLogs succeeds, and its token transfers are, in order, the
-- logs with four topics of which the first is one of the two signatures, and its ERC20 transfers
-- of an address are, in order, the logs of that address with three topics of which the first is
-- the signature of a transfer.
pub classify_tx_logs_lem :
    (logs : List (Option Log))
    → have_topics logs ≡ true
    → (r : TxLogs) × (classify_tx_logs logs ≡ ok r)
      × (r.token_transfers ≡ logs_that is_token logs)
      × ((address : String)
          → logs_at address r.erc20_transfers ≡ logs_that (is_erc20_of address) logs)
unfolding classify_tx_logs entry_of
classify_tx_logs_lem logs h =
    let (r, run, (tokens, at)) =
      classify_logs_lem logs (record { erc20_transfers = []; token_transfers = [] }) h in
    (r, run, tokens, at)
