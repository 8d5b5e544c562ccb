-- ===== src/Primitives/Scripts.antt =====
-- `verify_scripts` of src/primitives/tx.rs. The interpreter of scripts is the crate
-- `bitcoinconsensus`, in `Library`.
use rust_bitcoin_node.Prelude.{ℕ, suc, List, [], ◌∷◌, ok, expect, ◌>>=◌, ◌>>◌, reject_if, not}
use rust_bitcoin_node.Bitcoin.{Library, TxIn, TxOut, Transaction}
use rust_bitcoin_node.Errors.{invalid_scripts}
use rust_bitcoin_node.Coins.{CoinView, get_output}
use rust_bitcoin_node.Protocol.Consensus.{Flags}
use rust_bitcoin_node.Primitives.Tx.{Checked}

-- `view.map[&input.previous_output].output` of each input; a missing coin is a panic.
unfoldable pub spent_outputs : CoinView → List TxIn → Checked (List TxOut)
spent_outputs view [] = ok []
spent_outputs view (input ∷ inputs) = do
  output ← expect (get_output view input.previous_output)
  outputs ← spent_outputs view inputs
  ok (output ∷ outputs)

module _ ⦃lib : Library⦄ where
  -- The inputs, each with the output that it spends, from the one at `index` on. They are checked in
  -- parallel, and every failure is the same error.
  unfoldable pub verify_script_list :
      Transaction → List TxOut → Flags → ℕ → List TxOut → Checked (Unit {0})
  verify_script_list tx all flags index [] = ok tt
  verify_script_list tx all flags index (spent ∷ outputs) = do
    reject_if (not (lib.verify_with_flags spent.script_pubkey spent.value tx all index flags))
        invalid_scripts
    verify_script_list tx all flags (suc index) outputs

  unfoldable pub verify_scripts : Transaction → CoinView → Flags → Checked (Unit {0})
  verify_scripts tx view flags = do
    outputs ← spent_outputs view tx.input
    verify_script_list tx outputs flags 0 outputs
