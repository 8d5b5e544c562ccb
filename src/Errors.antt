-- ===== src/Errors.antt =====
-- src/error/mod.rs: the errors of verification. `DBError` is not modelled: disk and codec failures
-- stand outside this development.
pub data TransactionVerificationError : Type 0 where
  inputs_missing_or_spent input_values_out_of_range in_below_out fee_out_of_range :
      TransactionVerificationError
  premature_coinbase_spend inputs_empty outputs_empty oversized : TransactionVerificationError
  output_too_large output_total_too_large duplicate_input : TransactionVerificationError
  bad_coinbase_length null_previous_output non_final bad_sigops : TransactionVerificationError
  duplicate_txid invalid_scripts : TransactionVerificationError

pub data BlockHeaderVerificationError : Type 0 where
  bad_difficulty_bits time_too_old time_too_new obsolete invalid_pow : BlockHeaderVerificationError

pub data BlockVerificationError : Type 0 where
  bad_header : BlockHeaderVerificationError → BlockVerificationError
  bad_transaction : TransactionVerificationError → BlockVerificationError
  no_coinbase bad_merkle_root no_segwit non_final_transactions : BlockVerificationError
  bad_coinbase_height bad_witness_commitment unexpected_witness : BlockVerificationError
  bad_block_weight missing_coinbase bad_length multiple_coinbase : BlockVerificationError
  bad_block_sigops bad_coinbase_amount : BlockVerificationError
