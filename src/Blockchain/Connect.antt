-- ===== src/Blockchain/Connect.antt =====
-- Connecting a block to the main chain and taking it off again: `connect`, `connect_block`,
-- `save_view`, `disconnect` and `disconnect_block` of src/blockchain/chain_db.rs, and `write_undo`
-- and `read_undo` of src/blockstore/mod.rs as they use them. `none` is a panic.
use rust_bitcoin_node.Prelude.{
  ℕ, suc, List, [], ◌∷◌, Option, some, insert, lookup, contains_key, nat_eq, nat_beq, if◌then◌else◌,
  map,
}
use rust_bitcoin_node.Prelude.Partial.{◌>>=◌, ◌>>◌, assert}
use rust_bitcoin_node.Bitcoin.{Library, BlockHash, Block, TxIn, TxOut, Transaction, outpoint_eq}
use rust_bitcoin_node.Coins.{
  CoinMap, CoinView, UndoCoins, empty_view, get_output, undo_apply, undo_is_empty, remove_tx,
}
use rust_bitcoin_node.Coins.Encoding.{reload}
use rust_bitcoin_node.Blockchain.Entry.{ChainEntry, is_genesis}
use rust_bitcoin_node.Blockchain.State
use rust_bitcoin_node.Blockchain.State.{ChainState}
use rust_bitcoin_node.Blockchain.Disk.{
  Batch, insert_coin, remove_coin, insert_hash, remove_hash, insert_next_hash, remove_next_hash,
  insert_chain_state,
}
use rust_bitcoin_node.Blockchain.Db
use rust_bitcoin_node.Blockchain.Db.{ChainDb, BlockFiles}

-- `save_view`. The order in which a hash map is walked is not specified; here the first binding of
-- the list is written last.
unfoldable pub save_view : CoinMap → Batch → Batch
save_view [] batch = batch
save_view ((outpoint, coin) ∷ m) batch =
    (if coin.spent then remove_coin outpoint else insert_coin outpoint coin) ∷ save_view m batch

-- `BlockStore::write_undo`: a block that has undo data keeps it.
unfoldable pub write_undo : BlockFiles → BlockHash → UndoCoins → BlockFiles
write_undo files hash undo =
    if contains_key hash files.undo
    then files
    else record files { undo = insert hash (record { items = map reload undo.items }) files.undo }

-- The loop of `connect_block` over the inputs of a transaction.
unfoldable pub spend_outputs : CoinView → List TxIn → ChainState → Option ChainState
spend_outputs view [] pending = some pending
spend_outputs view (input ∷ inputs) pending = do
  spent ← get_output view input.previous_output
  spend_outputs view inputs (State.spend pending spent)

module _ ⦃lib : Library⦄ where
  -- The loop over its outputs.
  unfoldable pub add_outputs : List TxOut → ChainState → ChainState
  add_outputs [] pending = pending
  add_outputs (output ∷ outputs) pending = add_outputs outputs (
      if lib.is_provably_unspendable output.script_pubkey
      then pending
      else State.add pending output)

  -- The loop over the transactions, from the one at `index` on.
  unfoldable pub connect_txs : CoinView → ℕ → List Transaction → ChainState → Option ChainState
  connect_txs view index [] pending = some pending
  connect_txs view index (tx ∷ txs) pending = do
    spent ← (if nat_beq index 0 then some pending else spend_outputs view tx.input pending)
    connect_txs view (suc index) txs (add_outputs tx.output spent)

  -- `connect_block`, on the pending state: it gives the new state, batch and block files.
  unfoldable pub connect_block :
      BlockFiles
      → Batch
      → ChainState
      → ChainEntry
      → Block
      → CoinView
      → Option (ChainState × Batch × BlockFiles)
  connect_block files batch pending entry block view = do
    let counted = State.connect pending block
    (if is_genesis entry then some (counted, batch, files) else do
      after ← connect_txs view 0 block.txdata counted
      some (
        after,
        save_view view.map batch,
        (if undo_is_empty view.undo then files else write_undo files entry.hash view.undo),
      ))

  -- `ChainDB::connect`
  unfoldable pub connect : ChainDb → ChainEntry → Block → CoinView → Option ChainDb
  connect c entry block view = do
    let hash = lib.block_hash block.header
    started ← Db.start c
    pending ← started.pending
    let batch : Batch =
        insert_hash entry.height hash
        ∷ (if is_genesis entry then [] else insert_next_hash entry.prev_block hash ∷ [])
    let cache =
        Db.push_operation
          (Db.push_operation started.entry_cache (Db.ChainEntryCacheOperation.insert_height entry))
          (Db.ChainEntryCacheOperation.insert_hash entry)
    (after, saved, files) ← connect_block started.blocks batch pending entry block view
    let state = State.commit after hash
    Db.commit (record started { entry_cache = cache; blocks = files; pending = some state })
        (insert_chain_state state ∷ saved)

-- What `disconnect_block` changes as it walks the block backwards.
pub record Undoing : Type 0 where
  pub view : CoinView
  pub undo : UndoCoins
  pub pending : ChainState

-- One input: its coin comes back.
unfoldable pub restore_input : TxIn → Undoing → Option Undoing
restore_input input u = do
  (undo, restored) ← undo_apply u.undo u.view.map input.previous_output
  let view = record u.view { map = restored }
  coin ← get_output view input.previous_output
  some (record { view = view; undo = undo; pending = State.add u.pending coin })

-- The inputs, the last one first.
unfoldable pub restore_inputs : List TxIn → Undoing → Option Undoing
restore_inputs [] u = some u
restore_inputs (input ∷ inputs) u = do u' ← restore_inputs inputs u; restore_input input u'

module _ ⦃lib : Library⦄ where
  -- The outputs, the last one first.
  unfoldable pub take_outputs : List TxOut → ChainState → ChainState
  take_outputs [] pending = pending
  take_outputs (output ∷ outputs) pending =
      let after = take_outputs outputs pending in
      if lib.is_provably_unspendable output.script_pubkey then after else State.spend after output

  unfoldable pub disconnect_tx : ℕ → ℕ → Transaction → Undoing → Option Undoing
  disconnect_tx height index tx u = do
    u' ← (if nat_beq index 0 then some u else restore_inputs tx.input u)
    some (record u' {
      view = remove_tx u'.view tx height;
      pending = take_outputs tx.output u'.pending;
    })

  -- The transactions from the one at `index` on, the last one first.
  unfoldable pub disconnect_txs : ℕ → ℕ → List Transaction → Undoing → Option Undoing
  disconnect_txs height index [] u = some u
  disconnect_txs height index (tx ∷ txs) u = do
    u' ← disconnect_txs height (suc index) txs u
    disconnect_tx height index tx u'

  -- `disconnect_block`; `get_undo_coins` panics where the block has no undo data.
  unfoldable pub disconnect_block :
      BlockFiles → Batch → ChainState → ChainEntry → Block → Option (CoinView × ChainState × Batch)
  disconnect_block files batch pending entry block = do
    undo ← lookup entry.hash files.undo
    u ←
        disconnect_txs entry.height 0 block.txdata
          (record { view = empty_view; undo = undo; pending = State.disconnect pending block })
    assert (undo_is_empty u.undo)
    some (u.view, u.pending, save_view u.view.map batch)

  -- `ChainDB::disconnect`
  unfoldable pub disconnect : ChainDb → ChainEntry → Block → Option (ChainDb × CoinView)
  disconnect c entry block = do
    started ← Db.start c
    pending ← started.pending
    let batch : Batch = remove_hash entry.height ∷ remove_next_hash entry.prev_block ∷ []
    let cache =
        Db.push_operation started.entry_cache
          (Db.ChainEntryCacheOperation.remove_height entry.height)
    (view, after, saved) ← disconnect_block started.blocks batch pending entry block
    let state = State.commit after entry.prev_block
    c' ←
        Db.commit (record started { entry_cache = cache; pending = some state })
          (insert_chain_state state ∷ saved)
    some (c', view)
