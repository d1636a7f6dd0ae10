-- ===== src/Workflows/Blocks/Covered.antt =====
-- The blocks that the runs of `IndexEthereumTokenSaleInBlockRange` (workflows_indexer.go) read.
use mathlib.Core.List.{Memᴰ}
use mathlib.Core.List.Memᴰ.{head, tail}
use ff_indexer.Prelude.{
  ℕ, zero, suc, ◌+◌, ◌*◌, ◌%◌, ◌≤◌, ◌<◌, String, List, [], ◌∷◌, Bool, true, false, ◌||◌, ◌==◌, none,
  some, ◌≡◌, inl, inr, refl, arith, ltb, one_of, Bool-cases, eq_refl, eq_iff, All,
}
use mathlib.Core.Path.{subst, subst⁻¹}
use ff_indexer.Exec.{Result, ok, err, out_of_fuel, Exec, calm, pure, fail}
use ff_indexer.Detector.Logs.{Log, erc721_transfer, erc1155_single_transfer}
use ff_indexer.Detector.Classes.{are_token, has_topic}
use ff_indexer.Workflows.Blocks.{
  TxLog, set_tx, add_tx, nft_txs_of, u64_mod, end_block, run_children, continued, index_block_range,
  index_blocks,
}

-- Every log has a topic.
abbrev pub HaveTopics : List TxLog → Type 0
HaveTopics = All (λ l. has_topic l.1 ≡ true)

one_of-set_tx :
    (tx other : String) (txs : List String)
    → one_of txs other ≡ true
    → one_of (set_tx tx txs) other ≡ true
one_of-set_tx tx other txs h = ground arith

one_of-set_tx_self : (tx : String) (txs : List String) → one_of (set_tx tx txs) tx ≡ true
one_of-set_tx_self tx txs = elim (Bool-cases (one_of txs tx)) [
  | inl e ↦ rw (e, e) refl
  | inr e ↦ rw (e, eq_refl tx) refl
]

-- Whether a log transfers a token, by its topics.
token_test :
    (l : Log)
    → has_topic l ≡ true
    → (b : Bool) × (b' : Bool) × (erc721_transfer l ≡ ok b)
      × (erc1155_single_transfer l ≡ ok b')
      × ((b || b') ≡ are_token l.topics)
token_test l h = by_topics l.topics h
  where
    by_topics :
        (topics : List String)
        → (elim topics [ [] ↦ false | _ ∷ _ ↦ true ]) ≡ true
        → (b : Bool) × (b' : Bool) × (erc721_transfer (record l { topics = topics }) ≡ ok b)
          × (erc1155_single_transfer (record l { topics = topics }) ≡ ok b')
          × ((b || b') ≡ are_token topics)
    by_topics [] h = cc
    by_topics (x ∷ []) h = (_, _, refl, refl, ground arith)
    by_topics (x ∷ y ∷ []) h = (_, _, refl, refl, ground arith)
    by_topics (x ∷ y ∷ z ∷ []) h = (_, _, refl, refl, ground arith)
    by_topics (x ∷ y ∷ z ∷ w ∷ []) h = (_, _, refl, refl, ground arith)
    by_topics (x ∷ y ∷ z ∷ w ∷ v ∷ more) h = (_, _, refl, refl, ground arith)

nft_txs_of_lem :
    (logs : List TxLog) (txs : List String)
    → HaveTopics logs
    → (r : List String) × (nft_txs_of logs txs ≡ ok r)
      × ((tx : String) → one_of txs tx ≡ true → one_of r tx ≡ true)
      × ((l : TxLog) → Memᴰ l logs → are_token l.1.topics ≡ true → one_of r l.0 ≡ true)
unfolding nft_txs_of
nft_txs_of_lem [] txs have = (txs, refl, (λ tx h. h), λ l m h. elim m [ ])
nft_txs_of_lem (l ∷ logs) txs have =
    let (b, b', is_721, is_1155, same) = token_test l.1 have.0 in
    let (r, run, kept, found) = nft_txs_of_lem logs (add_tx l txs (b || b')) have.1 in
    (
      r,
      rw (is_721, is_1155) run,
      (λ tx h. kept tx (kept_by (b || b') tx h)),
      λ l' m token. in_first l' m token (b || b') same r kept found,
    )
  where
    kept_by : (b : Bool) (tx : String) → one_of txs tx ≡ true → one_of (add_tx l txs b) tx ≡ true
    kept_by true tx h = one_of-set_tx l.0 tx txs h
    kept_by false tx h = h

    in_first :
        (l' : TxLog)
        → Memᴰ l' (l ∷ logs)
        → are_token l'.1.topics ≡ true
        → (b : Bool) → b ≡ are_token l.1.topics
        → (r : List String)
        → ((tx : String) → one_of (add_tx l txs b) tx ≡ true → one_of r tx ≡ true)
        → ((l : TxLog) → Memᴰ l logs → are_token l.1.topics ≡ true → one_of r l.0 ≡ true)
        → one_of r l'.0 ≡ true
    in_first l' (head e) token true same r kept found =
        kept l'.0 (subst⁻¹ (λ k. one_of (set_tx l.0 txs) k.0 ≡ true) e (one_of-set_tx_self l.0 txs))
    in_first l' (head e) token false same r kept found =
        let t : are_token l.1.topics ≡ true = subst (λ k. are_token k.1.topics ≡ true) e token in cc
    in_first l' (tail m) token b same r kept found = found l' m token

-- What is relied on of the child workflow: it ends, what it establishes of a transaction stays so,
-- and it fails for none. And `FilterLogs` returns the logs of all blocks of a range.
module _ {S : Type 0} (child : String → Exec S (Unit {0})) (after_child : String → S → S)
    (runs : (tx : String) (s : S) → child tx (calm s) ≡ (ok tt, calm (after_child tx s)))
    (Indexed : String → S → Type 0)
    (establishes : (tx : String) (s : S) → Indexed tx (after_child tx s))
    (keeps : (tx other : String) (s : S) → Indexed tx s → Indexed tx (after_child other s)) where
  run_children_lem :
      (txs : List String) (s : S)
      → (s' : S) × (run_children child txs (calm s) ≡ (ok tt, calm s'))
        × ((tx : String) → Indexed tx s → Indexed tx s')
        × ((tx : String) → one_of txs tx ≡ true → Indexed tx s')
  unfolding run_children pure
  run_children_lem [] s = (s, refl, (λ tx h. h), λ tx h. cc)
  run_children_lem (t ∷ txs) s =
      let (s', run, kept, found) = run_children_lem txs (after_child t s) in
      (
        s',
        rw (runs t s, run) refl,
        (λ tx h. kept tx (keeps tx t s h)),
        λ tx h. of_first tx h s' kept found,
      )
    where
      of_first :
          (tx : String)
          → one_of (t ∷ txs) tx ≡ true
          → (s' : S) → ((tx : String) → Indexed tx (after_child t s) → Indexed tx s')
          → ((tx : String) → one_of txs tx ≡ true → Indexed tx s')
          → Indexed tx s'
      of_first tx h s' kept found = elim (Bool-cases (t == tx)) [
        | inl e ↦
            kept tx (subst (λ x. Indexed x (after_child t s)) ((eq_iff t tx).0 e) (establishes t s))
        | inr e ↦ found tx (ground arith)
      ]

  module _ (logs : ℕ → ℕ → List TxLog) (block_logs : ℕ → List TxLog)
      (have_topics : (a b : ℕ) → HaveTopics (logs a b))
      (of_blocks : (a b x : ℕ) (l : TxLog)
        → a ≤ x
        → x ≤ b
        → Memᴰ l (block_logs x)
        → Memᴰ l (logs a b)) where
    abbrev filter_logs : ℕ → ℕ → Result (List TxLog)
    filter_logs a b = ok (logs a b)

    index_block_range_lem :
        (from_blk to_blk batch_size : ℕ) (s : S)
        → from_blk ≤ to_blk
        → (s' : S) × (index_block_range filter_logs child from_blk to_blk batch_size true (calm s)
            ≡ (ok (continued filter_logs child from_blk to_blk batch_size), calm s'))
          × ((tx : String) → Indexed tx s → Indexed tx s')
          × ((x : ℕ) (l : TxLog)
              → from_blk ≤ x
              → x ≤ end_block from_blk to_blk batch_size
              → Memᴰ l (block_logs x)
              → are_token l.1.topics ≡ true
              → Indexed l.0 s')
    unfolding index_block_range pure
    index_block_range_lem from_blk to_blk batch_size s order =
        let e = end_block from_blk to_blk batch_size in
        let in_order : ltb to_blk from_blk ≡ false = ground arith in
        let (txs, filtered, kept, found) =
          nft_txs_of_lem (logs from_blk e) [] (have_topics from_blk e) in
        let (s', run, kept', found') = run_children_lem txs s in
        (
          s',
          rw (in_order, filtered, run) refl,
          kept',
          λ x l low high m token. found' l.0 (found l (of_blocks from_blk e x l low high m) token),
        )

    index_blocks-covered :
        (fuel from_blk to_blk batch_size : ℕ) (s : S)
        → from_blk ≤ to_blk
        → 0 < batch_size
        → to_blk + batch_size < u64_mod
        → to_blk < from_blk + fuel * batch_size
        → (s' : S) × (index_blocks filter_logs child fuel from_blk to_blk batch_size true (calm s)
            ≡ (ok tt, calm s'))
          × ((tx : String) → Indexed tx s → Indexed tx s')
          × ((x : ℕ) (l : TxLog)
              → from_blk ≤ x
              → x ≤ to_blk
              → Memᴰ l (block_logs x)
              → are_token l.1.topics ≡ true
              → Indexed l.0 s')
    unfolding index_blocks pure
    index_blocks-covered zero from_blk to_blk batch_size s order some_blocks small enough =
        absurd (omega arith)
    index_blocks-covered (suc fuel) from_blk to_blk batch_size s order some_blocks small enough =
        let (s1, run1, kept1, found1) = index_block_range_lem from_blk to_blk batch_size s order in
        let next : (from_blk + batch_size) % u64_mod ≡ from_blk + batch_size = omega arith in
        elim (Bool-cases (ltb (from_blk + batch_size) to_blk)) [
          | inl more ↦
              let cut : ltb to_blk (from_blk + batch_size) ≡ false = ground arith in
              let ends : end_block from_blk to_blk batch_size ≡ from_blk + batch_size =
                rw (next, cut) refl in
              let goes_on : continued filter_logs child from_blk to_blk batch_size
                  ≡ some (from_blk + batch_size) =
                rw (next, cut, more) refl in
              let (s2, run2, kept2, found2) =
                index_blocks-covered fuel (from_blk + batch_size) to_blk batch_size s1
                  (ground arith) some_blocks small (grind arith) in
              (
                s2,
                rw (run1, goes_on) run2,
                (λ tx h. kept2 tx (kept1 tx h)),
                λ x l low high m token. elim (Bool-cases (ltb x (from_blk + batch_size))) [
                  | inl early ↦ kept2 l.0 (found1 x l low (rw ends (ground arith)) m token)
                  | inr late ↦ found2 x l (ground arith) high m token
                ],
              )
          | inr last ↦
              let ends : end_block from_blk to_blk batch_size ≡ to_blk = rw next (ground arith) in
              let stops : continued filter_logs child from_blk to_blk batch_size ≡ none =
                rw next (ground arith) in
              (
                s1,
                rw (run1, stops) refl,
                kept1,
                λ x l low high m token. found1 x l low (rw ends high) m token,
              )
        ]

    -- Take a batch size that is not 0, blocks below 2^64 less the batch size, a node that returns
    -- at least the logs of the blocks that it is asked for, each with a topic, and child workflows
    -- that succeed, establish something of their transaction, and keep it of others. Then the runs
    -- of IndexEthereumTokenSaleInBlockRange that skip indexed transactions, as all must, and
    -- continue one another end, as soon as the number of runs times the batch size reaches past
    -- the last block, and it holds afterwards of the transaction of every log, in a block of the
    -- range, that transfers a token.
    pub index_blocks_lem :
        (fuel from_blk to_blk batch_size : ℕ) (s : S) (x : ℕ) (l : TxLog)
        → from_blk ≤ x
        → x ≤ to_blk
        → 0 < batch_size
        → to_blk + batch_size < u64_mod
        → to_blk < from_blk + fuel * batch_size
        → Memᴰ l (block_logs x)
        → are_token l.1.topics ≡ true
        → (s' : S) × (index_blocks filter_logs child fuel from_blk to_blk batch_size true (calm s)
            ≡ (ok tt, calm s'))
          × Indexed l.0 s'
    index_blocks_lem fuel from_blk to_blk batch_size s x l low high some_blocks small enough m
          token =
        let (s', run, kept, found) =
          index_blocks-covered fuel from_blk to_blk batch_size s (omega arith) some_blocks small
            enough in
        (s', run, found x l low high m token)

    -- With batches of no blocks the runs continue one another for ever, at the same block.
    pub index_blocks-stuck :
        (fuel from_blk to_blk : ℕ) (s : S)
        → from_blk < to_blk
        → to_blk < u64_mod
        → (index_blocks filter_logs child fuel from_blk to_blk 0 true (calm s)).0 ≡ err out_of_fuel
    unfolding index_blocks fail
    index_blocks-stuck zero from_blk to_blk s order small = refl
    index_blocks-stuck (suc fuel) from_blk to_blk s order small =
        let (s1, run1, kept1, found1) = index_block_range_lem from_blk to_blk 0 s (omega arith) in
        let next : (from_blk + 0) % u64_mod ≡ from_blk = omega arith in
        let goes_on : continued filter_logs child from_blk to_blk 0 ≡ some from_blk =
          rw next (ground arith) in
        rw (run1, goes_on) (index_blocks-stuck fuel from_blk to_blk s1 order small)
