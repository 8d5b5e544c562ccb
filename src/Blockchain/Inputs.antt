-- ===== src/Blockchain/Inputs.antt =====
-- `verify_inputs` of src/blockchain/chain.rs: the inputs, fees, locks, signature operations and
-- scripts of a block's transactions, and the view of the coins that they spend and make.
pub mod Laws
use rust_bitcoin_node.Prelude.{
  ℕ, suc, ◌+◌, ◌≤◌, ◌≡◌, Bool, true, false, List, [], ◌∷◌, Option, none, some, ltb, if◌then◌else◌,
  ◌&&◌, not, Outcome, ok, err, panic, ◌>>=◌, ◌>>◌, reject_if, ok_or, map_err, drop,
}
use rust_bitcoin_node.Prelude.Words.{add32, add64, checked_add64}
use rust_bitcoin_node.Prelude.Int.{ℤ, pos, ltb_ℤ}
use rust_bitcoin_node.Bitcoin.{Library, Block, Transaction}
use rust_bitcoin_node.Errors.{
  BlockVerificationError, TransactionVerificationError, bad_transaction, bad_block_sigops,
  bad_coinbase_amount, input_values_out_of_range, fee_out_of_range,
}
use rust_bitcoin_node.Coins.{CoinView, empty_view, spend_inputs, add_tx}
use rust_bitcoin_node.Protocol.Consensus.{
  Flags, max_money, max_block_sigops_cost, get_block_subsidy,
}
use rust_bitcoin_node.Protocol.Network.{NetworkParams}
use rust_bitcoin_node.Primitives.Tx.{Checked, check_inputs, get_sigop_cost}
use rust_bitcoin_node.Primitives.Block.{Verified, get_claimed}
use rust_bitcoin_node.Primitives.Scripts.{verify_scripts}
use rust_bitcoin_node.Blockchain.Entry.{ChainEntry}
use rust_bitcoin_node.Blockchain.Db.{read_coin}
use rust_bitcoin_node.Blockchain.Chain.{Chain, DeploymentState}
use rust_bitcoin_node.Blockchain.Locks.{verify_locks}

-- `view`, `sigops` and `reward` of the source.
pub record Verifying : Type 0 where
  pub view : CoinView
  pub sigops : ℕ
  pub reward : ℕ

-- The checks of the fee: what the reward is after it.
unfoldable pub add_fee : ℕ → ℕ → Checked ℕ
add_fee reward fee = do
  total ← ok_or input_values_out_of_range (checked_add64 reward fee)
  reject_if (ltb max_money total) fee_out_of_range
  ok total

module _ ⦃lib : Library⦄ where
  -- What the loop does for a transaction that is not a coinbase.
  unfoldable pub verify_spends :
      Chain → ChainEntry → ℕ → DeploymentState → Transaction → Verifying → Checked Verifying
  unfolding add_fee
  verify_spends chain prev height state tx v = do
    view ← spend_inputs (read_coin chain.db) v.view tx
    fee ← check_inputs tx view height
    reward ← add_fee v.reward fee
    (if ltb_ℤ tx.version (pos 2) then ok tt else verify_locks chain prev tx view state.lock_flags)
    ok (record v { view = view; reward = reward })

  -- One round of the loop.
  unfoldable pub verify_tx :
      Chain → ChainEntry → ℕ → DeploymentState → Transaction → Verifying → Verified Verifying
  verify_tx chain prev height state tx v = do
    v' ←
        (if lib.is_coin_base tx
          then ok v
          else map_err bad_transaction (verify_spends chain prev height state tx v))
    let sigops = v'.sigops + get_sigop_cost tx v'.view state.script_flags
    reject_if (ltb max_block_sigops_cost sigops) bad_block_sigops
    ok (record v' { view = add_tx v'.view tx height; sigops = sigops })

  unfoldable pub verify_txs :
      Chain → ChainEntry → ℕ → DeploymentState → List Transaction → Verifying → Verified Verifying
  verify_txs chain prev height state [] v = ok v
  verify_txs chain prev height state (tx ∷ txs) v = do
    v' ← verify_tx chain prev height state tx v
    verify_txs chain prev height state txs v'

  -- The scripts of the transactions, in parallel in the source.
  unfoldable pub verify_all_scripts : CoinView → Flags → List Transaction → Verified (Unit {0})
  verify_all_scripts view flags [] = ok tt
  verify_all_scripts view flags (tx ∷ txs) = do
    map_err bad_transaction (verify_scripts tx view flags)
    verify_all_scripts view flags txs

  unfoldable pub verify_inputs : Chain → Block → ChainEntry → DeploymentState → Verified CoinView
  verify_inputs chain block prev state = do
    let height = add32 prev.height 1
    v ←
        verify_txs chain prev height state block.txdata
          (record { view = empty_view; sigops = 0; reward = 0 })
    let reward = add64 v.reward (get_block_subsidy height chain.options.network.halving_interval)
    claimed ← get_claimed block
    reject_if (ltb reward claimed) bad_coinbase_amount
    (if chain.options.verify_scripts
        then verify_all_scripts v.view state.script_flags (drop 1 block.txdata)
        else ok tt)
    ok v.view
