-- ===== src/Mempool/Eviction.antt =====
-- src/mempool: what a block takes out of the pool. `remove_spenders` calls itself on what it removes;
-- here it runs on fuel, and `none` is the end of the fuel. The logging is left out.
use rust_bitcoin_node.Prelude.{
  ℕ, zero, suc, ◌%◌, ◌^◌, List, [], ◌∷◌, Option, none, some, remove, lookup, is_empty, length, map,
  if◌then◌else◌, nat_eq,
}
use rust_bitcoin_node.Prelude.Partial.{◌>>=◌}
use rust_bitcoin_node.Bitcoin.{Library, OutPoint, Transaction, Txid, TxIn, outpoint_eq}
use rust_bitcoin_node.Mempool.{MemPool, MemPoolEntry, remove_spent}

-- The loops: each outpoint leaves the index, and so does what spends the outputs of its spender.
unfoldable pub remove_each :
    (MemPoolEntry → MemPool → Option MemPool) → List OutPoint → MemPool → Option MemPool
remove_each spenders [] pool = some pool
remove_each spenders (outpoint ∷ outpoints) pool =
    let (pool', removed) = remove_spent pool outpoint in
    (elim removed [ none ↦ some pool' | some entry ↦ spenders entry pool' ])
    >>= remove_each spenders outpoints

-- The outpoints of the outputs from the index on.
unfoldable pub outpoints_from : Txid → ℕ → ℕ → List OutPoint
outpoints_from txid i zero = []
outpoints_from txid i (suc count) =
    record { txid = txid; vout = i % 2 ^ 32 } ∷ outpoints_from txid (suc i) count

abbrev pub previous_outputs : Transaction → List OutPoint
previous_outputs tx = map (λ (input : TxIn). input.previous_output) tx.input

-- `spents.remove` for each input.
unfoldable pub remove_inputs : List TxIn → List (OutPoint × Txid) → List (OutPoint × Txid)
remove_inputs [] spents = spents
remove_inputs (input ∷ inputs) spents = remove_inputs inputs (remove input.previous_output spents)

module _ ⦃lib : Library⦄ where
  unfoldable pub remove_spenders : ℕ → MemPoolEntry → MemPool → Option MemPool
  unfolding remove_each outpoints_from
  remove_spenders zero entry pool = none
  remove_spenders (suc fuel) entry pool =
      remove_each (remove_spenders fuel)
        (outpoints_from (lib.txid entry.tx) 0 (length entry.tx.output)) pool

  unfoldable pub remove_double_spends : ℕ → Transaction → MemPool → Option MemPool
  unfolding remove_spenders remove_each
  remove_double_spends fuel tx pool = remove_each (remove_spenders fuel) (previous_outputs tx) pool

  -- The loop of `add_block`.
  unfoldable pub evict_txs : ℕ → List Transaction → MemPool → Option MemPool
  evict_txs fuel [] pool = some pool
  evict_txs fuel (tx ∷ txs) pool = elim (lookup (lib.txid tx) pool.transactions) [
    | some entry ↦ evict_txs fuel txs (record {
      transactions = remove (lib.txid tx) pool.transactions;
      spents = remove_inputs entry.tx.input pool.spents;
    })
    | none ↦ remove_double_spends fuel tx pool >>= evict_txs fuel txs
  ]

  unfoldable pub add_block : ℕ → List Transaction → MemPool → Option MemPool
  unfolding evict_txs
  add_block fuel txs pool =
      if is_empty pool.transactions then some pool else evict_txs fuel txs pool
