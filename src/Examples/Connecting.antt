-- ===== src/Examples/Connecting.antt =====
-- A block that is verified, connected, and taken off again, on the database of two blocks.
use rust_bitcoin_node.Prelude.{
  ℕ, ◌+◌, ◌≤◌, ◌≡◌, refl, Bool, true, false, List, [], ◌∷◌, Option, none, some, Outcome, ok, arith,
  lookup, contains, contains_key, All, nat_eq, map,
}
use rust_bitcoin_node.Prelude.Int.{pos}
use rust_bitcoin_node.Prelude.Words.{add32}
use rust_bitcoin_node.Bitcoin.{Block, OutPoint, TxOut, outpoint_eq}
use rust_bitcoin_node.Coins.{CoinEntry, CoinView, UndoCoins, empty_view, view_tx, view_txs}
use rust_bitcoin_node.Protocol.Consensus.{
  has_flag, max_money, get_block_subsidy, standard_locktime_flags,
}
use rust_bitcoin_node.Primitives.Block.{get_claimed}
use rust_bitcoin_node.Blockchain.Entry.{ChainEntry}
use rust_bitcoin_node.Blockchain.Db.{ChainDb, read_coin}
use rust_bitcoin_node.Blockchain.Connect.{connect, disconnect}
use rust_bitcoin_node.Blockchain.Roundtrip.{IsOrderly}
use rust_bitcoin_node.Blockchain.Lifecycle.{disconnect-verify_inputs}
use rust_bitcoin_node.Blockchain.Reorg.{disconnect-connect, disconnect-connect_without_undo}
use rust_bitcoin_node.Blockchain.Chain.{DeploymentState, default_deployment_state}
use rust_bitcoin_node.Blockchain.Locks.{verify_locks, verify_locks-kept, IsHeightKept}
use rust_bitcoin_node.Blockchain.Inputs.{verify_inputs}
use rust_bitcoin_node.Blockchain.Inputs.Laws.{Fees, verify_inputs-Fees}
use rust_bitcoin_node.Examples.Setup.{
  small_library, coinbase_tx, spend_tx, third_block, third_entry, second_entry, small_db,
  small_chain, coin_100, outpoint,
}

abbrev verifying_state : DeploymentState
verifying_state = record default_deployment_state { lock_flags = standard_locktime_flags }

-- The view of the block's coins: what the coinbase makes, what is spent, and what the spend makes.
abbrev made_coin : ℕ → Bool → TxOut → CoinEntry
made_coin version coinbase output = record {
  version = pos version;
  height = some 2;
  coinbase = coinbase;
  output = output;
  spent = false;
}

abbrev spent_coin : CoinEntry
spent_coin = record coin_100 { spent = true }

abbrev coinbase_coin : CoinEntry
coinbase_coin = made_coin 1 true (record { value = 5_000_000_010; script_pubkey = 172 ∷ [] })

abbrev first_view : CoinView
first_view = record { map = (outpoint 77 0, coinbase_coin) ∷ []; undo = record { items = [] } }

abbrev third_view : CoinView
third_view = record {
  map =
      (outpoint 77 0, coinbase_coin)
      ∷ (outpoint 5 0, spent_coin)
      ∷ (outpoint 78 0, made_coin 2 false (record { value = 90; script_pubkey = [] }))
      ∷ [];
  undo = record { items = spent_coin ∷ [] };
}

third_block-built : view_txs (read_coin small_db) empty_view 2 third_block.txdata ≡ ok third_view
unfolding rust_bitcoin_node.Coins.view_txs rust_bitcoin_node.Coins.view_tx
    rust_bitcoin_node.Coins.spend_inputs rust_bitcoin_node.Coins.spend_input_list
    rust_bitcoin_node.Coins.spend_input rust_bitcoin_node.Coins.spend_coin
    rust_bitcoin_node.Coins.read_coin rust_bitcoin_node.Coins.add_tx
    rust_bitcoin_node.Coins.index_tx rust_bitcoin_node.Coins.index_outputs
    rust_bitcoin_node.Coins.get_entry rust_bitcoin_node.Coins.get_output
    rust_bitcoin_node.Prelude.lookup rust_bitcoin_node.Prelude.insert
    rust_bitcoin_node.Prelude.contains rust_bitcoin_node.Prelude.contains_key
    rust_bitcoin_node.Prelude.remove rust_bitcoin_node.Prelude.Words.checked_add64
    rust_bitcoin_node.Prelude.Words.add64 rust_bitcoin_node.Prelude.Words.sub64
    rust_bitcoin_node.Prelude.Words.add32 rust_bitcoin_node.Prelude.Words.sub32
    rust_bitcoin_node.Blockchain.Db.read_coin
third_block-built = refl

third_block-verified :
    verify_inputs small_chain third_block second_entry verifying_state ≡ ok third_view
unfolding rust_bitcoin_node.Blockchain.Inputs.verify_inputs
    rust_bitcoin_node.Blockchain.Inputs.verify_txs rust_bitcoin_node.Blockchain.Inputs.verify_tx
    rust_bitcoin_node.Blockchain.Inputs.verify_spends rust_bitcoin_node.Blockchain.Inputs.add_fee
    rust_bitcoin_node.Blockchain.Inputs.verify_all_scripts rust_bitcoin_node.Coins.spend_inputs
    rust_bitcoin_node.Coins.spend_input_list rust_bitcoin_node.Coins.spend_input
    rust_bitcoin_node.Coins.spend_coin rust_bitcoin_node.Coins.read_coin
    rust_bitcoin_node.Coins.add_tx rust_bitcoin_node.Coins.index_tx
    rust_bitcoin_node.Coins.index_outputs rust_bitcoin_node.Coins.get_entry
    rust_bitcoin_node.Coins.get_output rust_bitcoin_node.Prelude.lookup
    rust_bitcoin_node.Prelude.insert rust_bitcoin_node.Prelude.contains
    rust_bitcoin_node.Prelude.Words.checked_add64 rust_bitcoin_node.Prelude.Words.add64
    rust_bitcoin_node.Prelude.Words.add32 rust_bitcoin_node.Prelude.Words.sub32
    rust_bitcoin_node.Primitives.Tx.check_inputs rust_bitcoin_node.Primitives.Tx.check_input_coins
    rust_bitcoin_node.Primitives.Tx.check_coin rust_bitcoin_node.Primitives.Tx.check_maturity
    rust_bitcoin_node.Primitives.Tx.get_output_value rust_bitcoin_node.Primitives.Tx.sum_values
    rust_bitcoin_node.Primitives.Tx.get_sigop_cost
    rust_bitcoin_node.Primitives.Tx.get_legacy_sig_op_count
    rust_bitcoin_node.Primitives.Tx.get_p2sh_sig_ops
    rust_bitcoin_node.Primitives.Tx.get_witness_sig_ops rust_bitcoin_node.Primitives.Tx.p2sh_sig_ops
    rust_bitcoin_node.Blockchain.Locks.verify_locks rust_bitcoin_node.Blockchain.Locks.get_locks
    rust_bitcoin_node.Blockchain.Locks.input_locks rust_bitcoin_node.Blockchain.Locks.coin_height
    rust_bitcoin_node.Blockchain.Locks.check_height_lock
    rust_bitcoin_node.Blockchain.Locks.check_time_lock
    rust_bitcoin_node.Primitives.Script.get_sig_op_count
    rust_bitcoin_node.Primitives.Script.count_sig_ops rust_bitcoin_node.Primitives.Block.get_claimed
    rust_bitcoin_node.Primitives.Block.claimed_of
    rust_bitcoin_node.Primitives.Scripts.verify_scripts
    rust_bitcoin_node.Primitives.Scripts.spent_outputs
    rust_bitcoin_node.Primitives.Scripts.verify_script_list
    rust_bitcoin_node.Protocol.Consensus.has_flag
    rust_bitcoin_node.Protocol.Consensus.get_block_subsidy rust_bitcoin_node.Blockchain.Db.read_coin
    rust_bitcoin_node.Protocol.Network.from_network
third_block-verified = refl

verify_inputs-Fees_example :
    (fee : ℕ) × (claimed : ℕ) × Fees small_chain 2 empty_view third_block.txdata third_view fee
    × (get_claimed third_block ≡ ok claimed)
    × (claimed ≤ fee + get_block_subsidy 2 210_000)
    × (fee ≤ max_money)
unfolding add32 rust_bitcoin_node.Protocol.Network.from_network
verify_inputs-Fees_example =
    verify_inputs-Fees small_chain third_block second_entry verifying_state third_view
      third_block-verified

spend_tx-unlocked :
    verify_locks small_chain second_entry spend_tx third_view standard_locktime_flags ≡ ok tt
unfolding rust_bitcoin_node.Blockchain.Locks.verify_locks
    rust_bitcoin_node.Blockchain.Locks.get_locks rust_bitcoin_node.Blockchain.Locks.input_locks
    rust_bitcoin_node.Blockchain.Locks.coin_height
    rust_bitcoin_node.Blockchain.Locks.check_height_lock
    rust_bitcoin_node.Blockchain.Locks.check_time_lock rust_bitcoin_node.Prelude.lookup
    rust_bitcoin_node.Prelude.insert rust_bitcoin_node.Prelude.contains
    rust_bitcoin_node.Prelude.contains_key rust_bitcoin_node.Prelude.remove
    rust_bitcoin_node.Prelude.Words.checked_add64 rust_bitcoin_node.Prelude.Words.add64
    rust_bitcoin_node.Prelude.Words.sub64 rust_bitcoin_node.Prelude.Words.add32
    rust_bitcoin_node.Prelude.Words.sub32 rust_bitcoin_node.Primitives.Script.get_sig_op_count
    rust_bitcoin_node.Primitives.Script.count_sig_ops rust_bitcoin_node.Primitives.Block.get_claimed
    rust_bitcoin_node.Primitives.Block.claimed_of
    rust_bitcoin_node.Primitives.Scripts.verify_scripts
    rust_bitcoin_node.Primitives.Scripts.spent_outputs
    rust_bitcoin_node.Primitives.Scripts.verify_script_list
    rust_bitcoin_node.Protocol.Consensus.has_flag
    rust_bitcoin_node.Protocol.Consensus.get_block_subsidy rust_bitcoin_node.Blockchain.Db.read_coin
    rust_bitcoin_node.Coins.get_entry
spend_tx-unlocked = refl

verify_locks-kept_example : All (IsHeightKept small_chain second_entry third_view) spend_tx.input
unfolding has_flag contains
verify_locks-kept_example =
    verify_locks-kept small_chain second_entry spend_tx third_view standard_locktime_flags refl refl
      refl spend_tx-unlocked

-- The view after the first transaction.
first_view-built : view_tx (read_coin small_db) empty_view 2 coinbase_tx ≡ ok first_view
unfolding rust_bitcoin_node.Coins.view_txs rust_bitcoin_node.Coins.view_tx
    rust_bitcoin_node.Coins.spend_inputs rust_bitcoin_node.Coins.spend_input_list
    rust_bitcoin_node.Coins.spend_input rust_bitcoin_node.Coins.spend_coin
    rust_bitcoin_node.Coins.read_coin rust_bitcoin_node.Coins.add_tx
    rust_bitcoin_node.Coins.index_tx rust_bitcoin_node.Coins.index_outputs
    rust_bitcoin_node.Coins.get_entry rust_bitcoin_node.Coins.get_output
    rust_bitcoin_node.Prelude.lookup rust_bitcoin_node.Prelude.insert
    rust_bitcoin_node.Prelude.contains rust_bitcoin_node.Prelude.contains_key
    rust_bitcoin_node.Prelude.remove rust_bitcoin_node.Prelude.Words.checked_add64
    rust_bitcoin_node.Prelude.Words.add64 rust_bitcoin_node.Prelude.Words.sub64
    rust_bitcoin_node.Prelude.Words.add32 rust_bitcoin_node.Prelude.Words.sub32
first_view-built = refl

-- Every output of the block is new.
third_block-IsOrderly : IsOrderly (read_coin small_db) empty_view 2 0 third_block.txdata
unfolding read_coin lookup
third_block-IsOrderly = (
  refl,
  (λ p output made. ground arith),
  λ view' e.
      let same : view' ≡ first_view = cc first_view-built in
      (refl, (λ p output made. rw same (ground arith)), λ _ _. tt),
)

third_db : ChainDb
third_db = elim (connect small_db third_entry third_block third_view) [
  | none ↦ small_db
  | some c ↦ c
]

third_block-connected : connect small_db third_entry third_block third_view ≡ some third_db
unfolding third_db rust_bitcoin_node.Blockchain.Connect.connect
    rust_bitcoin_node.Blockchain.Connect.connect_block
    rust_bitcoin_node.Blockchain.Connect.connect_txs
    rust_bitcoin_node.Blockchain.Connect.spend_outputs
    rust_bitcoin_node.Blockchain.Connect.add_outputs rust_bitcoin_node.Blockchain.Connect.save_view
    rust_bitcoin_node.Blockchain.Connect.write_undo rust_bitcoin_node.Blockchain.Db.start
    rust_bitcoin_node.Blockchain.Db.commit rust_bitcoin_node.Blockchain.Db.push_operation
    rust_bitcoin_node.Blockchain.Db.write_cache rust_bitcoin_node.Blockchain.Db.clear_cache
    rust_bitcoin_node.Blockchain.Db.apply_cache_operations
    rust_bitcoin_node.Blockchain.Db.apply_cache_operation rust_bitcoin_node.Blockchain.State.connect
    rust_bitcoin_node.Blockchain.State.add rust_bitcoin_node.Blockchain.State.spend
    rust_bitcoin_node.Blockchain.State.commit rust_bitcoin_node.Blockchain.Disk.write_batch
    rust_bitcoin_node.Blockchain.Disk.apply_operation rust_bitcoin_node.Coins.Encoding.reload
    rust_bitcoin_node.Blockchain.VersionBitsCache.commit
    rust_bitcoin_node.Blockchain.Entry.is_genesis rust_bitcoin_node.Prelude.lookup
    rust_bitcoin_node.Prelude.insert rust_bitcoin_node.Prelude.contains
    rust_bitcoin_node.Prelude.contains_key rust_bitcoin_node.Prelude.remove
    rust_bitcoin_node.Prelude.Words.checked_add64 rust_bitcoin_node.Prelude.Words.add64
    rust_bitcoin_node.Prelude.Words.sub64 rust_bitcoin_node.Prelude.Words.add32
    rust_bitcoin_node.Prelude.Words.sub32 rust_bitcoin_node.Coins.view_txs
    rust_bitcoin_node.Coins.view_tx rust_bitcoin_node.Coins.spend_inputs
    rust_bitcoin_node.Coins.spend_input_list rust_bitcoin_node.Coins.spend_input
    rust_bitcoin_node.Coins.spend_coin rust_bitcoin_node.Coins.read_coin
    rust_bitcoin_node.Coins.add_tx rust_bitcoin_node.Coins.index_tx
    rust_bitcoin_node.Coins.index_outputs rust_bitcoin_node.Coins.get_entry
    rust_bitcoin_node.Coins.get_output rust_bitcoin_node.Primitives.Script.get_sig_op_count
    rust_bitcoin_node.Primitives.Script.count_sig_ops rust_bitcoin_node.Primitives.Block.get_claimed
    rust_bitcoin_node.Primitives.Block.claimed_of
    rust_bitcoin_node.Primitives.Scripts.verify_scripts
    rust_bitcoin_node.Primitives.Scripts.spent_outputs
    rust_bitcoin_node.Primitives.Scripts.verify_script_list
    rust_bitcoin_node.Protocol.Consensus.has_flag
    rust_bitcoin_node.Protocol.Consensus.get_block_subsidy rust_bitcoin_node.Blockchain.Db.read_coin
third_block-connected = refl

disconnect-connect_example :
    (c₂ : ChainDb) × (view' : CoinView) × (disconnect third_db third_entry third_block
      ≡ some (c₂, view'))
    × ((o : OutPoint) → read_coin c₂ o ≡ read_coin small_db o)
    × (c₂.state.tip ≡ 11)
    × (lookup 2 c₂.entry_cache.height ≡ none)
unfolding rust_bitcoin_node.Blockchain.Entry.is_genesis contains_key lookup
disconnect-connect_example =
    disconnect-connect small_db third_db third_entry third_block third_view refl refl refl
      third_block-IsOrderly third_block-built third_block-connected

-- A block with only its coinbase.
abbrev empty_block : Block
empty_block = record { header = third_block.header; txdata = coinbase_tx ∷ [] }

empty_db : ChainDb
empty_db = elim (connect small_db third_entry empty_block first_view) [
  | none ↦ small_db
  | some c ↦ c
]

empty_block-connected : connect small_db third_entry empty_block first_view ≡ some empty_db
unfolding empty_db rust_bitcoin_node.Blockchain.Connect.connect
    rust_bitcoin_node.Blockchain.Connect.connect_block
    rust_bitcoin_node.Blockchain.Connect.connect_txs
    rust_bitcoin_node.Blockchain.Connect.spend_outputs
    rust_bitcoin_node.Blockchain.Connect.add_outputs rust_bitcoin_node.Blockchain.Connect.save_view
    rust_bitcoin_node.Blockchain.Connect.write_undo rust_bitcoin_node.Blockchain.Db.start
    rust_bitcoin_node.Blockchain.Db.commit rust_bitcoin_node.Blockchain.Db.push_operation
    rust_bitcoin_node.Blockchain.Db.write_cache rust_bitcoin_node.Blockchain.Db.clear_cache
    rust_bitcoin_node.Blockchain.Db.apply_cache_operations
    rust_bitcoin_node.Blockchain.Db.apply_cache_operation rust_bitcoin_node.Blockchain.State.connect
    rust_bitcoin_node.Blockchain.State.add rust_bitcoin_node.Blockchain.State.spend
    rust_bitcoin_node.Blockchain.State.commit rust_bitcoin_node.Blockchain.Disk.write_batch
    rust_bitcoin_node.Blockchain.Disk.apply_operation rust_bitcoin_node.Coins.Encoding.reload
    rust_bitcoin_node.Blockchain.VersionBitsCache.commit
    rust_bitcoin_node.Blockchain.Entry.is_genesis rust_bitcoin_node.Prelude.lookup
    rust_bitcoin_node.Prelude.insert rust_bitcoin_node.Prelude.contains
    rust_bitcoin_node.Prelude.contains_key rust_bitcoin_node.Prelude.remove
    rust_bitcoin_node.Prelude.Words.checked_add64 rust_bitcoin_node.Prelude.Words.add64
    rust_bitcoin_node.Prelude.Words.sub64 rust_bitcoin_node.Prelude.Words.add32
    rust_bitcoin_node.Prelude.Words.sub32 rust_bitcoin_node.Coins.view_txs
    rust_bitcoin_node.Coins.view_tx rust_bitcoin_node.Coins.spend_inputs
    rust_bitcoin_node.Coins.spend_input_list rust_bitcoin_node.Coins.spend_input
    rust_bitcoin_node.Coins.spend_coin rust_bitcoin_node.Coins.read_coin
    rust_bitcoin_node.Coins.add_tx rust_bitcoin_node.Coins.index_tx
    rust_bitcoin_node.Coins.index_outputs rust_bitcoin_node.Coins.get_entry
    rust_bitcoin_node.Coins.get_output rust_bitcoin_node.Primitives.Script.get_sig_op_count
    rust_bitcoin_node.Primitives.Script.count_sig_ops rust_bitcoin_node.Primitives.Block.get_claimed
    rust_bitcoin_node.Primitives.Block.claimed_of
    rust_bitcoin_node.Primitives.Scripts.verify_scripts
    rust_bitcoin_node.Primitives.Scripts.spent_outputs
    rust_bitcoin_node.Primitives.Scripts.verify_script_list
    rust_bitcoin_node.Protocol.Consensus.has_flag
    rust_bitcoin_node.Protocol.Consensus.get_block_subsidy rust_bitcoin_node.Blockchain.Db.read_coin
empty_block-connected = refl

disconnect-connect_without_undo_example : disconnect empty_db third_entry empty_block ≡ none
unfolding contains_key lookup
disconnect-connect_without_undo_example =
    disconnect-connect_without_undo small_db empty_db third_entry empty_block first_view refl refl
      empty_block-connected

disconnect-verify_inputs_example :
    (c₂ : ChainDb) × (view' : CoinView) × (disconnect third_db third_entry third_block
      ≡ some (c₂, view'))
    × ((o : OutPoint) → read_coin c₂ o ≡ read_coin small_db o)
    × (c₂.state.tip ≡ 11)
unfolding rust_bitcoin_node.Blockchain.Entry.is_genesis contains_key add32 lookup
disconnect-verify_inputs_example =
    disconnect-verify_inputs small_chain third_db second_entry third_entry third_block
      verifying_state third_view refl refl refl refl third_block-IsOrderly third_block-verified
      third_block-connected
