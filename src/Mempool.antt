-- ===== src/Mempool.antt =====
-- src/mempool: the pool of the transactions that no block holds yet, with the index of what they spend.
-- The logging is left out. What a removal deletes first does not matter to the lookups.
pub mod Laws
pub mod Eviction
pub mod Removes
pub mod Evicted
use rust_bitcoin_node.Prelude.{
  ℕ, zero, suc, ◌+◌, ◌%◌, ◌^◌, Bool, true, false, List, [], ◌∷◌, Option, none, some, insert, remove,
  lookup, contains_key, nat_eq, any, is_empty, length, get_elem?, leb, if◌then◌else◌, ◌&&◌, not,
  Outcome, ok, err, panic, ◌>>=◌, ◌>>◌, reject_if, map_err, expect, drop,
}
use rust_bitcoin_node.Prelude.Partial
use rust_bitcoin_node.Prelude.Words.{add32}
use rust_bitcoin_node.Prelude.Int.{pos, leb_ℤ}
use rust_bitcoin_node.Bitcoin.{Library, OutPoint, Transaction, Txid, TxIn, TxOut, outpoint_eq}
use rust_bitcoin_node.Errors.{TransactionVerificationError, non_final}
use rust_bitcoin_node.Coins.{CoinEntry, CoinMap, CoinView, empty_view}
use rust_bitcoin_node.Protocol.Consensus.{standard_locktime_flags}
use rust_bitcoin_node.Primitives.Tx.{
  Checked, check_sanity, check_inputs, has_witness, signals_replacement,
}
use rust_bitcoin_node.Primitives.Scripts.{verify_scripts}
use rust_bitcoin_node.Blockchain.Db.{read_coin}
use rust_bitcoin_node.Blockchain.Chain.{Chain, has_csv, has_segwit}
use rust_bitcoin_node.Blockchain.Locks.{verify_final, verify_locks}
use rust_bitcoin_node.Blockchain.Verify.{has_coins}

pub record MemPoolEntry : Type 0 where
  pub tx : Transaction
  -- the height of the chain when the transaction came in
  pub height : ℕ
  -- whether an input spends a coinbase
  pub coinbase : Bool

pub data MempoolError : Type 0 where
  transaction_verification_error : TransactionVerificationError → MempoolError
  is_coinbase premature_witness premature_tx_version duplicate double_spend orphan replace_by_fee :
      MempoolError

pub record MemPool : Type 0 where
  pub transactions : List (Txid × MemPoolEntry)
  -- the transaction that spends an outpoint
  pub spents : List (OutPoint × Txid)

abbrev pub Pooled : Type 0 → Type 0
Pooled A = Outcome MempoolError A

-- `MemPoolEntry::new`, from the inputs: whether one spends a coinbase. `none` is the panic of a coin that
-- the view does not have. The search stops at the first.
unfoldable pub spends_coinbase : CoinMap → List TxIn → Option Bool
spends_coinbase m [] = some false
spends_coinbase m (input ∷ inputs) =
    let rest = spends_coinbase m inputs in
    Partial.◌>>=◌ (lookup input.previous_output m)
      (λ coin. if coin.coinbase then some true else rest)

unfoldable pub is_double_spend : MemPool → List TxIn → Bool
is_double_spend pool inputs =
    any (λ (input : TxIn). contains_key input.previous_output pool.spents) inputs

unfoldable pub has_coin : MemPool → OutPoint → Bool
has_coin pool outpoint = elim (lookup outpoint.txid pool.transactions) [
  | none ↦ false
  | some entry ↦
      if contains_key outpoint pool.spents
      then false
      else not (leb (length entry.tx.output) outpoint.vout)
]

module _ ⦃lib : Library⦄ where
  -- The coin of an output of a transaction in the pool.
  abbrev pool_coin : Transaction → TxOut → CoinEntry
  pool_coin tx output = record {
    version = tx.version;
    height = none;
    coinbase = lib.is_coin_base tx;
    output = output;
    spent = false;
  }

  -- The part of the loop of `get_coin_view` for an input whose transaction is in the pool.
  unfoldable pub add_pool_coin : MemPool → Transaction → OutPoint → CoinMap → Option CoinMap
  add_pool_coin pool tx outpoint m =
      if has_coin pool outpoint
      then Partial.◌>>=◌ (get_elem? tx.output outpoint.vout)
          (λ output. some (insert outpoint (pool_coin tx output) m))
      else some m

  unfoldable pub coin_view : MemPool → Chain → List TxIn → CoinMap → Option CoinMap
  coin_view pool chain [] m = some m
  coin_view pool chain (input ∷ inputs) m =
      let outpoint = input.previous_output in
      elim (lookup outpoint.txid pool.transactions) [
        | some entry ↦
            Partial.◌>>=◌ (add_pool_coin pool entry.tx outpoint m) (coin_view pool chain inputs)
        | none ↦ elim (read_coin chain.db outpoint) [
          | some coin ↦ coin_view pool chain inputs (insert outpoint coin m)
          | none ↦ coin_view pool chain inputs m
        ]
      ]

  -- `verify`
  unfoldable pub verify_entry : Chain → Transaction → CoinView → Checked (Unit {0})
  verify_entry chain tx view = do
    verify_locks chain chain.tip tx view standard_locktime_flags
    fee ← check_inputs tx view (add32 chain.height 1)
    verify_scripts tx view chain.state.script_flags

  -- The guards of `add_tx` up to the search for a duplicate.
  unfoldable pub check_entry : ℕ → Chain → MemPool → Transaction → Pooled (Unit {0})
  check_entry now chain pool tx = do
    map_err transaction_verification_error (check_sanity tx)
    reject_if (lib.is_coin_base tx) is_coinbase
    reject_if (not (has_csv chain.state) && leb_ℤ (pos 2) tx.version) premature_tx_version
    reject_if (not (has_segwit chain.state) && has_witness tx) premature_witness
    final ← expect (verify_final now chain chain.tip tx standard_locktime_flags)
    reject_if (not final) (transaction_verification_error non_final)
    reject_if (contains_key (lib.txid tx) pool.transactions) duplicate
    reject_if (has_coins chain.db tx) duplicate

-- The loop that enters the inputs into `spents`.
unfoldable pub insert_spents : Txid → List TxIn → List (OutPoint × Txid) → List (OutPoint × Txid)
insert_spents hash [] spents = spents
insert_spents hash (input ∷ inputs) spents =
    insert_spents hash inputs (insert input.previous_output hash spents)

module _ ⦃lib : Library⦄ where
  -- An error leaves the pool as it was.
  unfoldable pub add_tx : ℕ → Chain → MemPool → Transaction → Pooled MemPool
  add_tx now chain pool tx = do
    check_entry now chain pool tx
    reject_if (is_double_spend pool tx.input)
        (if signals_replacement tx then replace_by_fee else double_spend)
    m ← expect (coin_view pool chain tx.input [])
    reject_if (any (λ (input : TxIn). not (contains_key input.previous_output m)) tx.input) orphan
    coinbase ← expect (spends_coinbase m tx.input)
    map_err transaction_verification_error (verify_entry chain tx (record empty_view { map = m }))
    ok (record {
      transactions =
          insert (lib.txid tx) (record { tx = tx; height = chain.height; coinbase = coinbase })
            pool.transactions;
      spents = insert_spents (lib.txid tx) tx.input pool.spents;
    })

  -- `remove_block`: the transactions of a block that was taken off come back, but for the first, where
  -- they can. A panic of `add_tx` is one here.
  unfoldable pub restore_txs : ℕ → Chain → List Transaction → MemPool → Option MemPool
  restore_txs now chain [] pool = some pool
  restore_txs now chain (tx ∷ txs) pool =
      if contains_key (lib.txid tx) pool.transactions
      then restore_txs now chain txs pool
      else elim (add_tx now chain pool tx) [
        | ok pool' ↦ restore_txs now chain txs pool'
        | err e ↦ restore_txs now chain txs pool
        | panic ↦ none
      ]

  unfoldable pub remove_block : ℕ → Chain → List Transaction → MemPool → Option MemPool
  unfolding restore_txs
  remove_block now chain txs pool =
      if is_empty pool.transactions then some pool else restore_txs now chain (drop 1 txs) pool

-- `remove_spent`: only the one outpoint leaves `spents`.
unfoldable pub remove_spent : MemPool → OutPoint → MemPool × Option MemPoolEntry
remove_spent pool outpoint = elim (lookup outpoint pool.spents) [
  | none ↦ (pool, none)
  | some txid ↦ (
    record { transactions = remove txid pool.transactions; spents = remove outpoint pool.spents },
    lookup txid pool.transactions,
  )
]
