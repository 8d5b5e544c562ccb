-- ===== src/Examples/Pool.antt =====
-- A transaction that enters the empty pool, and one with two inputs that leaves it.
use rust_bitcoin_node.Prelude.{
  ℕ, ◌≡◌, ◌≢◌, refl, false, arith, List, [], ◌∷◌, Option, none, some, lookup, Outcome, ok, nat_eq,
  All,
}
use rust_bitcoin_node.Prelude.Int.{pos}
use rust_bitcoin_node.Bitcoin.{Transaction, outpoint_eq}
use rust_bitcoin_node.Mempool.{MemPool, MemPoolEntry, add_tx, remove_spent}
use rust_bitcoin_node.Mempool.Laws.{IsIndexed, add_tx-IsIndexed, remove_spent-stale}
use rust_bitcoin_node.Mempool.Eviction.{add_block, previous_outputs}
use rust_bitcoin_node.Mempool.Evicted.{IsUnspent, add_block-Evicts}
use rust_bitcoin_node.Examples.Setup.{small_library, small_chain, spend_tx, outpoint}

abbrev pool_tx : Transaction
pool_tx = record spend_tx {
  version = pos 1;
  input =
      record {
        previous_output = outpoint 5 0;
        script_sig = [];
        sequence = 0xffffffff;
        witness = [];
      }
      ∷ [];
}

abbrev pool_entry : MemPoolEntry
pool_entry = record { tx = pool_tx; height = 1; coinbase = false }

abbrev empty_pool : MemPool
empty_pool = record { transactions = []; spents = [] }

abbrev one_pool : MemPool
one_pool = record { transactions = (78, pool_entry) ∷ []; spents = (outpoint 5 0, 78) ∷ [] }

empty_pool-IsIndexed : IsIndexed empty_pool
unfolding lookup
empty_pool-IsIndexed txid entry found = absurd (cc)

pool_tx-added : add_tx 2000 small_chain empty_pool pool_tx ≡ ok one_pool
unfolding rust_bitcoin_node.Mempool.add_tx rust_bitcoin_node.Mempool.check_entry
    rust_bitcoin_node.Mempool.is_double_spend rust_bitcoin_node.Mempool.coin_view
    rust_bitcoin_node.Mempool.spends_coinbase rust_bitcoin_node.Mempool.verify_entry
    rust_bitcoin_node.Mempool.insert_spents rust_bitcoin_node.Mempool.add_pool_coin
    rust_bitcoin_node.Mempool.has_coin rust_bitcoin_node.Prelude.lookup
    rust_bitcoin_node.Prelude.insert rust_bitcoin_node.Prelude.contains
    rust_bitcoin_node.Prelude.contains_key rust_bitcoin_node.Prelude.Words.checked_add64
    rust_bitcoin_node.Prelude.Words.add64 rust_bitcoin_node.Prelude.Words.add32
    rust_bitcoin_node.Prelude.Words.sub32 rust_bitcoin_node.Blockchain.Locks.verify_locks
    rust_bitcoin_node.Blockchain.Locks.get_locks rust_bitcoin_node.Blockchain.Locks.input_locks
    rust_bitcoin_node.Blockchain.Locks.coin_height
    rust_bitcoin_node.Blockchain.Locks.check_height_lock
    rust_bitcoin_node.Blockchain.Locks.check_time_lock
    rust_bitcoin_node.Blockchain.Locks.verify_final rust_bitcoin_node.Primitives.Tx.check_sanity
    rust_bitcoin_node.Primitives.Tx.check_outputs
    rust_bitcoin_node.Primitives.Tx.check_coinbase_or_inputs
    rust_bitcoin_node.Primitives.Tx.stripped_size rust_bitcoin_node.Primitives.Tx.input_size
    rust_bitcoin_node.Primitives.Tx.output_size rust_bitcoin_node.Primitives.Tx.has_witness
    rust_bitcoin_node.Primitives.Tx.is_final rust_bitcoin_node.Primitives.Tx.signals_replacement
    rust_bitcoin_node.Primitives.Tx.check_inputs rust_bitcoin_node.Primitives.Tx.check_input_coins
    rust_bitcoin_node.Primitives.Tx.check_coin rust_bitcoin_node.Primitives.Tx.check_maturity
    rust_bitcoin_node.Primitives.Tx.get_output_value rust_bitcoin_node.Primitives.Tx.sum_values
    rust_bitcoin_node.Primitives.Scripts.verify_scripts
    rust_bitcoin_node.Primitives.Scripts.spent_outputs
    rust_bitcoin_node.Primitives.Scripts.verify_script_list rust_bitcoin_node.Coins.get_entry
    rust_bitcoin_node.Coins.get_output rust_bitcoin_node.Protocol.Consensus.has_flag
    rust_bitcoin_node.Blockchain.Db.read_coin rust_bitcoin_node.Blockchain.Chain.has_csv
    rust_bitcoin_node.Blockchain.Chain.has_segwit rust_bitcoin_node.Blockchain.Verify.has_coins
    rust_bitcoin_node.Blockchain.Verify.has_coins_from
pool_tx-added = refl

add_tx-IsIndexed_example : IsIndexed one_pool
add_tx-IsIndexed_example =
    add_tx-IsIndexed 2000 small_chain empty_pool one_pool pool_tx empty_pool-IsIndexed pool_tx-added

-- The transaction 78 spends two outpoints.
abbrev two_tx : Transaction
two_tx = record pool_tx {
  input =
      record {
        previous_output = outpoint 5 0;
        script_sig = [];
        sequence = 0xffffffff;
        witness = [];
      }
      ∷ record {
        previous_output = outpoint 6 0;
        script_sig = [];
        sequence = 0xffffffff;
        witness = [];
      }
      ∷ [];
}

abbrev two_pool : MemPool
two_pool = record {
  transactions = (78, record pool_entry { tx = two_tx }) ∷ [];
  spents = (outpoint 5 0, 78) ∷ (outpoint 6 0, 78) ∷ [];
}

apart : outpoint 5 0 ≢ outpoint 6 0
apart h = absurd (ground arith)

remove_spent-stale_example :
    (lookup 78 (remove_spent two_pool (outpoint 5 0)).0.transactions ≡ none)
    × (lookup (outpoint 6 0) (remove_spent two_pool (outpoint 5 0)).0.spents ≡ some 78)
unfolding lookup
remove_spent-stale_example =
    remove_spent-stale two_pool (outpoint 5 0) (outpoint 6 0) 78 refl refl apart

-- A block with a transaction that spends what the pool's transaction spends.
abbrev rival_tx : Transaction
rival_tx = record pool_tx { lock_time = 79 }

one_pool-IsIndexed : IsIndexed one_pool
one_pool-IsIndexed =
    add_tx-IsIndexed 2000 small_chain empty_pool one_pool pool_tx empty_pool-IsIndexed pool_tx-added

add_block-Evicts_example :
    (pool' : MemPool) × (add_block 1 (rival_tx ∷ []) one_pool ≡ some pool')
    × IsIndexed pool'
    × ((txid : ℕ) (entry : MemPoolEntry)
        → lookup txid pool'.transactions ≡ some entry
        → lookup txid one_pool.transactions ≡ some entry)
    × All (λ (tx : Transaction). All (IsUnspent pool') (previous_outputs tx)) (rival_tx ∷ [])
unfolding lookup
add_block-Evicts_example =
    add_block-Evicts 1 (rival_tx ∷ []) one_pool (λ entry found. ground arith, tt) one_pool-IsIndexed
      (omega arith)
