-- ===== src/Blockchain/Verify.antt =====
-- The verification of headers and blocks in src/blockchain/chain.rs: `contextual_check_block_header`,
-- `verify`, `verify_duplicates` and `verify_context`. What changes the database gives it back with the
-- outcome; an outer `none` is a panic.
use rust_bitcoin_node.Prelude.{
  ℕ, zero, suc, ◌%◌, ◌^◌, Bool, false, List, [], ◌∷◌, Option, none, some, nat_beq, ltb, leb, lookup,
  contains_key, nat_eq, length, all, if◌then◌else◌, ◌&&◌, ◌||◌, not, Outcome, ok, err, panic, ◌>>=◌,
  ◌>>◌, reject_if, map_err, expect, assert,
}
use rust_bitcoin_node.Prelude.Partial
use rust_bitcoin_node.Prelude.Words.{add32, add64, as_i32}
use rust_bitcoin_node.Prelude.Int.{ℤ, pos, ltb_ℤ}
use rust_bitcoin_node.Bitcoin.{
  Library, BlockHash, BlockHeader, Block, Transaction, OutPoint, outpoint_eq,
}
use rust_bitcoin_node.Errors.{
  BlockHeaderVerificationError, bad_difficulty_bits, time_too_old, time_too_new, obsolete,
  bad_transaction, non_final, duplicate_txid, bad_witness_commitment, bad_block_weight,
}
use rust_bitcoin_node.Coins.{CoinView}
use rust_bitcoin_node.Protocol.Consensus.{max_future_block_time, bip34_implies_bip30_limit}
use rust_bitcoin_node.Protocol.Network.{NetworkParams}
use rust_bitcoin_node.Primitives.Tx.{Checked, is_final}
use rust_bitcoin_node.Primitives.Block.{Verified, check_body, check_coinbase_height}
use rust_bitcoin_node.Blockchain.Entry.{ChainEntry}
use rust_bitcoin_node.Blockchain.Db.{ChainDb}
use rust_bitcoin_node.Blockchain.Time.{get_median_time}
use rust_bitcoin_node.Blockchain.Chain.{Chain, DeploymentState, has_mtp, has_bip34}
use rust_bitcoin_node.Blockchain.Difficulty.{get_target}
use rust_bitcoin_node.Blockchain.Deployments.{get_deployments}
use rust_bitcoin_node.Blockchain.Inputs.{verify_inputs}

abbrev pub HeaderChecked : Type 0 → Type 0
HeaderChecked A = Outcome BlockHeaderVerificationError A

-- The versions that the soft forks of BIP 34, 66 and 65 retired.
unfoldable pub is_obsolete : NetworkParams → ℤ → ℕ → Bool
is_obsolete network version height =
    (ltb_ℤ version (pos 2) && leb network.bip34_height height)
    || (ltb_ℤ version (pos 3) && leb network.bip66_height height)
    || (ltb_ℤ version (pos 4) && leb network.bip65_height height)

module _ ⦃lib : Library⦄ where
  -- `now` is the clock, in seconds.
  unfoldable pub contextual_check_block_header :
      ℕ → Chain → BlockHeader → ChainEntry → HeaderChecked (Unit {0})
  contextual_check_block_header now chain header prev = do
    assert (nat_beq header.prev_blockhash prev.hash)
    bits ← expect (get_target chain.options.network chain.db header.time (some prev))
    reject_if (not (nat_beq bits header.bits)) bad_difficulty_bits
    mtp ← expect (get_median_time chain.db prev)
    reject_if (leb header.time mtp) time_too_old
    reject_if (leb (add64 now max_future_block_time) header.time) time_too_new
    reject_if (is_obsolete chain.options.network header.version prev.height) obsolete

  -- The checks of `verify` after the body's, with the deployments' state and the median time.
  unfoldable pub verify_with_state : DeploymentState → ℕ → Block → ChainEntry → Verified (Unit {0})
  verify_with_state state mtp block prev = do
    let height = add32 prev.height 1
    let time = if has_mtp state then mtp else block.header.time
    reject_if (not (all (λ (tx : Transaction). is_final tx height (as_i32 time)) block.txdata))
        (bad_transaction non_final)
    (if has_bip34 state then check_coinbase_height block height else ok tt)
    reject_if (not (lib.check_witness_commitment block)) bad_witness_commitment
    reject_if (ltb lib.max_block_weight (lib.block_weight block)) bad_block_weight

  -- `verify` once the body has passed.
  unfoldable pub verify_contents :
      NetworkParams → ChainDb → Block → ChainEntry → Option (ChainDb × Verified (Unit {0}))
  verify_contents network c block prev =
      Partial.◌>>=◌ (get_deployments network c block.header.time prev) (λ found.
        Partial.◌>>=◌ (get_median_time found.0 prev)
          (λ mtp. some (found.0, verify_with_state found.1 mtp block prev)))

  unfoldable pub verify :
      NetworkParams → ChainDb → Block → ChainEntry → Option (ChainDb × Verified (Unit {0}))
  verify network c block prev =
      Partial.◌>>=◌ (Partial.assert (nat_beq block.header.prev_blockhash prev.hash)) (λ _.
        elim (check_body block) [
          | ok _ ↦ verify_contents network c block prev
          | err e ↦ some (c, err e)
          | panic ↦ none
        ])

  -- `ChainDB::has_coins`: whether a coin of one of the `n` outputs from `vout` on is stored. `vout` is a
  -- u32 and wraps.
  unfoldable pub has_coins_from : ChainDb → ℕ → ℕ → ℕ → Bool
  has_coins_from c txid vout zero = false
  has_coins_from c txid vout (suc n) =
      let outpoint : OutPoint = record { txid = txid; vout = vout % 2 ^ 32 } in
      contains_key outpoint c.db.coin || has_coins_from c txid (suc vout) n

  unfoldable pub has_coins : ChainDb → Transaction → Bool
  unfolding has_coins_from
  has_coins c tx = has_coins_from c (lib.txid tx) 0 (length tx.output)

  -- The body of `verify_duplicates` for a transaction whose coins are stored, from the hash that the
  -- network excepts at the height.
  unfoldable pub check_exception : Option BlockHash → BlockHash → Checked (Unit {0})
  check_exception none hash = err duplicate_txid
  check_exception (some excepted) hash = reject_if (not (nat_beq excepted hash)) duplicate_txid

  unfoldable pub check_no_duplicates : Chain → Block → ℕ → List Transaction → Checked (Unit {0})
  check_no_duplicates chain block height [] = ok tt
  check_no_duplicates chain block height (tx ∷ txs) = do
    (if has_coins chain.db tx
        then check_exception (lookup height chain.options.network.bip30)
            (lib.block_hash block.header)
        else ok tt)
    check_no_duplicates chain block height txs

  unfoldable pub verify_duplicates : Chain → Block → ChainEntry → Checked (Unit {0})
  unfolding check_no_duplicates
  verify_duplicates chain block prev =
      check_no_duplicates chain block (add32 prev.height 1) block.txdata

  -- `verify_context` after `verify`.
  unfoldable pub verify_coins :
      Chain → Block → ChainEntry → DeploymentState → Verified (CoinView × DeploymentState)
  verify_coins chain block prev state = do
    (if not (has_bip34 state) || leb bip34_implies_bip30_limit (add32 prev.height 1)
        then map_err bad_transaction (verify_duplicates chain block prev)
        else ok tt)
    view ← verify_inputs chain block prev state
    ok (view, state)

  unfoldable pub verify_context :
      Chain → Block → ChainEntry → Option (Chain × Verified (CoinView × DeploymentState))
  verify_context chain block prev =
      Partial.◌>>=◌ (get_deployments chain.options.network chain.db block.header.time prev)
        (λ found. Partial.◌>>=◌ (verify chain.options.network found.0 block prev) (λ verified.
          let chain' = record chain { db = verified.0 } in
          elim verified.1 [
            | ok _ ↦ some (chain', verify_coins chain' block prev found.1)
            | err e ↦ some (chain', err e)
            | panic ↦ none
          ]))
