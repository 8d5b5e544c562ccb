-- ===== src/Blockchain/Lifecycle.antt =====
-- A block's way through src/blockchain: `verify_inputs` of chain.rs makes the view that `ChainDB::connect`
-- writes, and `ChainDB::disconnect` takes the block off again.
use rust_bitcoin_node.Prelude.{◌≡◌, ap, ◌∙◌, false, some, contains_key, nat_eq, ok}
use rust_bitcoin_node.Prelude.Words.{add32}
use rust_bitcoin_node.Bitcoin.{Library, OutPoint, Block}
use rust_bitcoin_node.Coins.{CoinView, empty_view, undo_is_empty, view_txs}
use rust_bitcoin_node.Blockchain.Entry.{ChainEntry, is_genesis}
use rust_bitcoin_node.Blockchain.Db.{ChainDb, read_coin}
use rust_bitcoin_node.Blockchain.Chain.{Chain, DeploymentState}
use rust_bitcoin_node.Blockchain.Connect.{connect, disconnect}
use rust_bitcoin_node.Blockchain.Roundtrip.{IsOrderly}
use rust_bitcoin_node.Blockchain.Reorg.{disconnect-connect}
use rust_bitcoin_node.Blockchain.Inputs.{verify_inputs}
use rust_bitcoin_node.Blockchain.Inputs.Laws.{Fees-view_txs, verify_inputs-Fees}

module _ ⦃lib : Library⦄ where
  -- A block whose inputs are accepted on the coins of the database, connected with the view that this
  -- gives, can be taken off again, and then every coin is as it was and the tip is the previous block. The
  -- block follows an entry, is not the genesis block, had no undo data and spends some coin, only its
  -- first transaction is a coinbase, and no transaction makes an outpoint that is an unspent coin at its
  -- turn.
  pub disconnect-verify_inputs :
      (chain : Chain) (c₁ : ChainDb) (prev entry : ChainEntry) (block : Block)
      (state : DeploymentState) (view : CoinView)
      → entry.height ≡ add32 prev.height 1
      → is_genesis entry ≡ false
      → contains_key entry.hash chain.db.blocks.undo ≡ false
      → undo_is_empty view.undo ≡ false
      → IsOrderly (read_coin chain.db) empty_view entry.height 0 block.txdata
      → verify_inputs chain block prev state ≡ ok view
      → connect chain.db entry block view ≡ some c₁
      → (c₂ : ChainDb) × (view' : CoinView) × (disconnect c₁ entry block ≡ some (c₂, view'))
        × ((o : OutPoint) → read_coin c₂ o ≡ read_coin chain.db o)
        × (c₂.state.tip ≡ entry.prev_block)
  disconnect-verify_inputs chain c₁ prev entry block state view next g fresh spends orderly verified
        connected =
      let (_, _, fees, _, _, _) = verify_inputs-Fees chain block prev state view verified in
      let built : view_txs (read_coin chain.db) empty_view entry.height block.txdata ≡ ok view =
        ap (λ height. view_txs (read_coin chain.db) empty_view height block.txdata) next
        ∙ Fees-view_txs fees in
      let (c₂, view', taken, coins, tip, _) =
        disconnect-connect chain.db c₁ entry block view g fresh spends orderly built connected in
      (c₂, view', taken, coins, tip)
