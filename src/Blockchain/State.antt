-- ===== src/Blockchain/State.antt =====
-- `ChainState` of src/blockchain/chain_db.rs: the tip, and counters over the main chain. They are
-- u64 and wrap.
use rust_bitcoin_node.Prelude.{ℕ, ◌%◌, Bool, true, length}
use rust_bitcoin_node.Prelude.Words.{add64, sub64, u64_mod}
use rust_bitcoin_node.Bitcoin.{BlockHash, Block, TxOut}

pub record ChainState : Type 0 where
  pub tip : BlockHash
  pub tx : ℕ
  pub coin : ℕ
  pub value : ℕ
  pub commited : Bool

unfoldable pub connect : ChainState → Block → ChainState
connect s block = record s { tx = add64 s.tx (length block.txdata % u64_mod) }

unfoldable pub disconnect : ChainState → Block → ChainState
disconnect s block = record s { tx = sub64 s.tx (length block.txdata % u64_mod) }

unfoldable pub add : ChainState → TxOut → ChainState
add s coin = record s { coin = add64 s.coin 1; value = add64 s.value coin.value }

unfoldable pub spend : ChainState → TxOut → ChainState
spend s coin = record s { coin = sub64 s.coin 1; value = sub64 s.value coin.value }

unfoldable pub commit : ChainState → BlockHash → ChainState
commit s hash = record s { tip = hash; commited = true }
