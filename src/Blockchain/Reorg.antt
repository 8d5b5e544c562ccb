-- ===== src/Blockchain/Reorg.antt =====
-- `ChainDB::connect` followed by `ChainDB::disconnect`.
use rust_bitcoin_node.Prelude.{
  ◌≡◌, refl, true, false, [], ◌∷◌, none, some, lookup, lookup-insert, nat_eq, lookup-remove, ok,
  nat_beq_iff, map, arith, contains_key, ◌∙◌, Option-cases, inl, inr,
}
use rust_bitcoin_node.Bitcoin.{Library, OutPoint, Block, outpoint_eq}
use rust_bitcoin_node.Coins.{CoinView, UndoCoins, empty_view, view_txs, undo_is_empty}
use rust_bitcoin_node.Coins.Encoding.{reload}
use rust_bitcoin_node.Coins.Laws.{overlay}
use rust_bitcoin_node.Blockchain.Entry.{ChainEntry, is_genesis}
use rust_bitcoin_node.Blockchain.State
use rust_bitcoin_node.Blockchain.State.{ChainState}
use rust_bitcoin_node.Blockchain.Disk
use rust_bitcoin_node.Blockchain.Disk.{write_batch, apply_operation, Batch}
use rust_bitcoin_node.Blockchain.Db
use rust_bitcoin_node.Blockchain.Db.{ChainDb, read_coin, BlockFiles}
use rust_bitcoin_node.Blockchain.Connect.{
  Undoing, connect_block, connect, disconnect_txs, disconnect_block, disconnect, write_undo,
}
use rust_bitcoin_node.Blockchain.Roundtrip.{lookup-save_view, disconnect_txs-Matches, IsOrderly}

-- What connecting a block leaves: its coins on disk, its undo data, and nothing pending.
record Connected (c c' : ChainDb) (entry : ChainEntry) (view : CoinView) : Type 0 where
  coins : (o : OutPoint) → read_coin c' o ≡ overlay (read_coin c) view.map o
  undo : lookup entry.hash c'.blocks.undo ≡ some (record { items = map reload view.undo.items })
  settled : c'.pending ≡ none

module _ ⦃lib : Library⦄ where
  connect-Connected :
      (c c' : ChainDb) (entry : ChainEntry) (block : Block) (view : CoinView)
      → is_genesis entry ≡ false
      → contains_key entry.hash c.blocks.undo ≡ false
      → undo_is_empty view.undo ≡ false
      → connect c entry block view ≡ some c'
      → Connected c c' entry view
  unfolding connect connect_block Db.start Db.commit write_undo read_coin write_batch contains_key
  connect-Connected c c' entry block view g fresh undo e =
      let batch : Batch =
        Disk.insert_hash entry.height (lib.block_hash block.header)
        ∷ Disk.insert_next_hash entry.prev_block (lib.block_hash block.header)
        ∷ [] in
      record {
        coins = λ o. ground (arith, lookup-save_view view.map batch c.db o);
        undo = ground (
          arith,
          lookup-insert entry.hash entry.hash (record { items = map reload view.undo.items })
              c.blocks.undo,
          nat_beq_iff entry.hash entry.hash,
        );
        settled = ground arith;
      }

  -- What taking a block off leaves.
  record Disconnected (c c' : ChainDb) (entry : ChainEntry) (u : Undoing) : Type 0 where
    coins : (o : OutPoint) → read_coin c' o ≡ overlay (read_coin c) u.view.map o
    tip : c'.state.tip ≡ entry.prev_block
    no_hash : lookup entry.height c'.entry_cache.height ≡ none
    settled : c'.pending ≡ none

  disconnect-Disconnected :
      (c : ChainDb) (entry : ChainEntry) (block : Block) (undo : UndoCoins) (u : Undoing)
      → c.pending ≡ none
      → lookup entry.hash c.blocks.undo ≡ some undo
      → disconnect_txs entry.height 0 block.txdata
          (record { view = empty_view; undo = undo; pending = State.disconnect c.state block })
        ≡ some u
      → u.undo.items ≡ []
      → (c' : ChainDb) × (view' : CoinView) × (disconnect c entry block ≡ some (c', view'))
        × Disconnected c c' entry u
  unfolding disconnect disconnect_block Db.start Db.commit read_coin write_batch Db.write_cache
      State.commit Db.push_operation
  disconnect-Disconnected c entry block undo u settled found run empty =
      elim (Option-cases (disconnect c entry block)) [
        | inl e ↦ absurd (ground arith)
        | inr ((c', view'), e) ↦ (
          c',
          view',
          e,
          record {
            coins = λ o. ground (
              arith,
              lookup-save_view u.view.map
                  (Disk.remove_hash entry.height ∷ Disk.remove_next_hash entry.prev_block ∷ []) c.db
                  o,
            );
            tip = ground arith;
            no_hash = ground (
              arith,
              lookup-remove entry.height entry.height c.entry_cache.height,
              nat_beq_iff entry.height entry.height,
            );
            settled = ground arith;
          },
        )
      ]

  -- A block that is connected and then taken off: the disconnection succeeds, every coin is as it
  -- was before the connection, the tip is the previous block again, and no block of the main chain
  -- stands at the height. The block is not the genesis block, had no undo data and spends some
  -- coin, only its first transaction is a coinbase, and no transaction makes an outpoint that is an
  -- unspent coin at its turn.
  pub disconnect-connect :
      (c c₁ : ChainDb) (entry : ChainEntry) (block : Block) (view : CoinView)
      → is_genesis entry ≡ false
      → contains_key entry.hash c.blocks.undo ≡ false
      → undo_is_empty view.undo ≡ false
      → IsOrderly (read_coin c) empty_view entry.height 0 block.txdata
      → view_txs (read_coin c) empty_view entry.height block.txdata ≡ ok view
      → connect c entry block view ≡ some c₁
      → (c₂ : ChainDb) × (view' : CoinView) × (disconnect c₁ entry block ≡ some (c₂, view'))
        × ((o : OutPoint) → read_coin c₂ o ≡ read_coin c o)
        × (c₂.state.tip ≡ entry.prev_block)
        × (lookup entry.height c₂.entry_cache.height ≡ none)
  unfolding lookup
  disconnect-connect c c₁ entry block view g fresh spends orderly built e =
      let done = connect-Connected c c₁ entry block view g fresh spends e in
      let undo : UndoCoins = record { items = map reload view.undo.items } in
      let start : Undoing = record {
        view = empty_view;
        undo = undo;
        pending = State.disconnect c₁.state block;
      } in
      let (u, run, back) =
        disconnect_txs-Matches (read_coin c₁) (read_coin c) empty_view view entry.height 0
          block.txdata start orderly built (record { same = λ p q. done.coins p; undone = refl }) in
      let (c₂, view', took, left) =
        disconnect-Disconnected c₁ entry block undo u done.settled done.undo run back.undone in
      (c₂, view', took, λ o. left.coins o ∙ back.same o tt, left.tip, left.no_hash)

  -- A block that is connected while its view has spent nothing, as one with only a coinbase, and
  -- that had no undo data before, has none after, and taking it off the chain panics.
  pub disconnect-connect_without_undo :
      (c c₁ : ChainDb) (entry : ChainEntry) (block : Block) (view : CoinView)
      → contains_key entry.hash c.blocks.undo ≡ false
      → undo_is_empty view.undo ≡ true
      → connect c entry block view ≡ some c₁
      → disconnect c₁ entry block ≡ none
  unfolding connect connect_block Db.start Db.commit disconnect disconnect_block contains_key
  disconnect-connect_without_undo c c₁ entry block view fresh nothing e = ground arith
