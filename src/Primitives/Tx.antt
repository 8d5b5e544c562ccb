-- ===== src/Primitives/Tx.antt =====
-- src/primitives/tx.rs: the checks of a transaction. Sizes (usize) and sigop counts are unbounded.
-- `verify_scripts` calls libbitcoinconsensus and is left to the callers as a parameter.
pub mod Laws
use rust_bitcoin_node.Prelude.{
  ℕ, zero, suc, ◌+◌, ◌-◌, ◌*◌, ◌≤◌, Bool, true, false, List, [], ◌∷◌, Option, none, some, length,
  any, is_empty, nat_beq, ltb, leb, if◌then◌else◌, ◌&&◌, ◌||◌, not, contains, sum_of, Outcome, ok,
  err, panic, ◌>>=◌, ◌>>◌, reject_if, ok_or, expect,
}
use rust_bitcoin_node.Prelude.Words.{add64, checked_add64, as_i32}
use rust_bitcoin_node.Prelude.Int.{ℤ, pos, ltb_ℤ}
use rust_bitcoin_node.Bitcoin.{Library, OutPoint, TxIn, TxOut, Transaction, outpoint_eq}
use rust_bitcoin_node.Errors.{
  TransactionVerificationError, inputs_missing_or_spent, input_values_out_of_range, in_below_out,
  fee_out_of_range, premature_coinbase_spend, inputs_empty, outputs_empty, oversized,
  output_too_large, output_total_too_large, duplicate_input, bad_coinbase_length,
  null_previous_output,
}
use rust_bitcoin_node.Coins.{CoinEntry, CoinView, get_entry, get_output}
use rust_bitcoin_node.Protocol.Consensus.{
  max_money, coinbase_maturity, locktime_threshold, Flags, has_flag, verify_p2sh, verify_witness,
}
use rust_bitcoin_node.Primitives.Script.{
  get_sig_op_count, get_p2sh_sig_op_count, get_witness_sig_op_count,
}

abbrev pub Checked : Type 0 → Type 0
Checked A = Outcome TransactionVerificationError A

-- The fold wraps.
unfoldable pub sum_values : ℕ → List TxOut → ℕ
sum_values total [] = total
sum_values total (output ∷ outputs) = sum_values (add64 total output.value) outputs

unfoldable pub get_output_value : Transaction → ℕ
unfolding sum_values
get_output_value tx = sum_values 0 tx.output

-- The maturity of a coinbase; a coin of the mempool has no height, and the code panics on one.
unfoldable pub check_maturity : CoinEntry → ℕ → Checked (Unit {0})
check_maturity coin height =
    if coin.coinbase
    then (expect coin.height >>= λ made.
        reject_if (ltb (height - made) coinbase_maturity) premature_coinbase_spend)
    else ok tt

-- One round of the loop of `check_inputs`, from the total so far.
unfoldable pub check_coin : CoinEntry → ℕ → ℕ → Checked ℕ
unfolding check_maturity
check_coin coin height total = do
  check_maturity coin height
  total' ← ok_or input_values_out_of_range (checked_add64 total coin.output.value)
  reject_if (ltb max_money coin.output.value || ltb max_money total') input_values_out_of_range
  ok total'

unfoldable pub check_input_coins : CoinView → ℕ → ℕ → List TxIn → Checked ℕ
check_input_coins view height total [] = ok total
check_input_coins view height total (input ∷ inputs) = do
  coin ← ok_or inputs_missing_or_spent (get_entry view input.previous_output)
  total' ← check_coin coin height total
  check_input_coins view height total' inputs

unfoldable pub check_inputs : Transaction → CoinView → ℕ → Checked ℕ
check_inputs tx view height = do
  total ← check_input_coins view height 0 tx.input
  let value = get_output_value tx
  reject_if (ltb total value) in_below_out
  let fee = total - value
  reject_if (ltb max_money fee) fee_out_of_range
  ok fee

-- `time` is an i32.
unfoldable pub is_final : Transaction → ℕ → ℤ → Bool
is_final tx height time =
    if nat_beq tx.lock_time 0
    then true
    else if ltb_ℤ (as_i32 tx.lock_time)
        (if ltb tx.lock_time locktime_threshold then as_i32 height else time)
    then true
    else not (any (λ (input : TxIn). not (nat_beq input.sequence 0xffffffff)) tx.input)

-- The loop over the outputs in `check_sanity`.
unfoldable pub check_outputs : ℕ → List TxOut → Checked (Unit {0})
check_outputs total [] = ok tt
check_outputs total (output ∷ outputs) = do
  reject_if (ltb max_money output.value) output_too_large
  total' ← ok_or output_total_too_large (checked_add64 total output.value)
  reject_if (ltb max_money total') output_total_too_large
  check_outputs total' outputs

-- The loop that looks for duplicates, with the outpoints seen so far.
unfoldable pub check_duplicates : List OutPoint → List TxIn → Checked (Unit {0})
check_duplicates seen [] = ok tt
check_duplicates seen (input ∷ inputs) = do
  reject_if (contains input.previous_output seen) duplicate_input
  check_duplicates (input.previous_output ∷ seen) inputs

-- The length of the first input's script; there is one where this is called.
abbrev first_script_len : List TxIn → ℕ
first_script_len [] = 0
first_script_len (input ∷ inputs) = length input.script_sig

module _ ⦃lib : Library⦄ where
  unfoldable pub input_size : TxIn → ℕ
  input_size input =
      32 + 4 + 4 + lib.var_int_len (length input.script_sig) + length input.script_sig

  unfoldable pub output_size : TxOut → ℕ
  output_size output =
      8 + lib.var_int_len (length output.script_pubkey) + length output.script_pubkey

  unfoldable pub stripped_size : Transaction → ℕ
  unfolding input_size output_size
  stripped_size tx =
      (4
        + lib.var_int_len (length tx.input)
        + lib.var_int_len (length tx.output)
        + sum_of output_size tx.output
        + 4)
      + sum_of input_size tx.input

  unfoldable pub check_coinbase_or_inputs : Transaction → Checked (Unit {0})
  check_coinbase_or_inputs tx =
      if lib.is_coin_base tx
      then reject_if
          (not (leb 2 (first_script_len tx.input) && leb (first_script_len tx.input) 100))
          bad_coinbase_length
      else reject_if (any (λ (input : TxIn). lib.is_null input.previous_output) tx.input)
          null_previous_output

  unfoldable pub check_sanity : Transaction → Checked (Unit {0})
  unfolding check_coinbase_or_inputs
  check_sanity tx = do
    reject_if (is_empty tx.input) inputs_empty
    reject_if (is_empty tx.output) outputs_empty
    reject_if (ltb lib.max_block_weight (stripped_size tx * lib.witness_scale_factor)) oversized
    check_outputs 0 tx.output
    (if ltb 1 (length tx.input) then check_duplicates [] tx.input else ok tt)
    check_coinbase_or_inputs tx

  unfoldable pub get_legacy_sig_op_count : Transaction → ℕ
  get_legacy_sig_op_count tx =
      sum_of (λ (input : TxIn). get_sig_op_count input.script_sig false) tx.input
      + sum_of (λ (output : TxOut). get_sig_op_count output.script_pubkey false) tx.output

  -- What one input adds in `get_p2sh_sig_op_count`.
  unfoldable pub p2sh_sig_ops : CoinView → TxIn → ℕ
  p2sh_sig_ops view input = elim (get_output view input.previous_output) [
    | none ↦ 0
    | some previous_output ↦
        if lib.is_p2sh previous_output.script_pubkey
        then get_p2sh_sig_op_count previous_output.script_pubkey input.script_sig
        else 0
  ]

  unfoldable pub get_p2sh_sig_ops : Transaction → CoinView → ℕ
  unfolding p2sh_sig_ops
  get_p2sh_sig_ops tx view = if lib.is_coin_base tx then 0 else sum_of (p2sh_sig_ops view) tx.input

  -- What one input adds in `get_witness_sig_op_count`.
  unfoldable pub witness_sig_ops : CoinView → TxIn → ℕ
  witness_sig_ops view input = elim (get_output view input.previous_output) [
    | none ↦ 0
    | some previous_output ↦
        get_witness_sig_op_count previous_output.script_pubkey input.script_sig input.witness
  ]

  unfoldable pub get_witness_sig_ops : Transaction → CoinView → ℕ
  unfolding witness_sig_ops
  get_witness_sig_ops tx view = sum_of (witness_sig_ops view) tx.input

  unfoldable pub get_sigop_cost : Transaction → CoinView → Flags → ℕ
  get_sigop_cost tx view flags =
      let legacy = get_legacy_sig_op_count tx * lib.witness_scale_factor in
      if lib.is_coin_base tx
      then legacy
      else legacy
        + (if has_flag flags verify_p2sh
            then get_p2sh_sig_ops tx view * lib.witness_scale_factor
            else 0)
        + (if has_flag flags verify_witness then get_witness_sig_ops tx view else 0)

unfoldable pub has_witness : Transaction → Bool
has_witness tx = any (λ (input : TxIn). not (is_empty input.witness)) tx.input

-- Signals RBF.
unfoldable pub signals_replacement : Transaction → Bool
signals_replacement tx = any (λ (input : TxIn). ltb input.sequence 4294967294) tx.input
