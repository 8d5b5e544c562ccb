-- ===== src/Examples/Transactions.antt =====
-- The checks of transactions and of block bodies, on two transactions.
use rust_bitcoin_node.Prelude.{
  ℕ, ◌+◌, ◌≤◌, ◌≡◌, refl, Bool, true, false, List, [], ◌∷◌, Option, none, some, Outcome, ok, All,
  is_empty, lookup,
}
use rust_bitcoin_node.Bitcoin.{outpoint_eq}
use rust_bitcoin_node.Coins.{CoinView, get_entry}
use rust_bitcoin_node.Protocol.Consensus.{max_money}
use rust_bitcoin_node.Primitives.Block.{check_body, check_body-IsProper, IsProper}
use rust_bitcoin_node.Primitives.Tx.{check_sanity, check_inputs}
use rust_bitcoin_node.Primitives.Tx.Laws.{
  IsSane, check_sanity-IsSane, check_inputs_conserves, output_total, input_total, IsMature,
}
use rust_bitcoin_node.Examples.Setup.{small_library, spend_tx, third_block, coin_100, outpoint}

abbrev view_100 : CoinView
view_100 = record { map = (outpoint 5 0, coin_100) ∷ []; undo = record { items = [] } }

check_sanity-IsSane_example : IsSane spend_tx
unfolding check_sanity rust_bitcoin_node.Primitives.Tx.stripped_size
    rust_bitcoin_node.Primitives.Tx.check_outputs rust_bitcoin_node.Prelude.Words.checked_add64
check_sanity-IsSane_example = check_sanity-IsSane spend_tx refl

check_inputs_conserves_example :
    (output_total spend_tx + 10 ≡ input_total view_100 spend_tx)
    × (input_total view_100 spend_tx ≤ max_money)
    × All (IsMature view_100 2) spend_tx.input
unfolding check_sanity rust_bitcoin_node.Primitives.Tx.stripped_size
    rust_bitcoin_node.Primitives.Tx.check_outputs rust_bitcoin_node.Prelude.Words.checked_add64
    check_inputs rust_bitcoin_node.Primitives.Tx.check_input_coins get_entry lookup
    rust_bitcoin_node.Primitives.Tx.check_coin rust_bitcoin_node.Primitives.Tx.get_output_value
    rust_bitcoin_node.Prelude.Words.add64
check_inputs_conserves_example = check_inputs_conserves spend_tx view_100 2 refl refl

check_body-IsProper_example : (is_empty third_block.txdata ≡ false) × IsProper 0 third_block.txdata
unfolding check_body rust_bitcoin_node.Primitives.Block.stripped_size
    rust_bitcoin_node.Primitives.Tx.stripped_size check_sanity
    rust_bitcoin_node.Primitives.Tx.check_outputs rust_bitcoin_node.Prelude.Words.checked_add64
    rust_bitcoin_node.Primitives.Tx.get_legacy_sig_op_count
    rust_bitcoin_node.Primitives.Script.get_sig_op_count
check_body-IsProper_example = check_body-IsProper third_block refl
