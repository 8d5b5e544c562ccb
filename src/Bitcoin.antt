-- ===== src/Bitcoin.antt =====
-- What the repository takes from the crate `bitcoin`: the fields of its structs that the code
-- reads, and the calls that it makes, as the interface `Library`. The crate is not part of the
-- repository, so nothing is assumed of a call unless a theorem names the assumption.
use rust_bitcoin_node.Prelude.{
  ℕ, Bool, true, List, Option, Eq, arith, ◌≡◌, ◌↔◌, ◌&&◌, nat_beq, nat_beq_iff,
}
use rust_bitcoin_node.Prelude.Int.{ℤ}

-- Hashes stand for the 256-bit numbers that they are; a script for its bytes.
abbrev pub BlockHash : Type 0
BlockHash = ℕ

abbrev pub Txid : Type 0
Txid = ℕ

abbrev pub Script : Type 0
Script = List ℕ

pub record OutPoint : Type 0 where
  pub txid : Txid
  pub vout : ℕ

pub record TxIn : Type 0 where
  pub previous_output : OutPoint
  pub script_sig : Script
  pub sequence : ℕ
  pub witness : List (List ℕ)

pub record TxOut : Type 0 where
  pub value : ℕ
  pub script_pubkey : Script

pub record Transaction : Type 0 where
  pub version : ℤ
  pub lock_time : ℕ
  pub input : List TxIn
  pub output : List TxOut

pub record BlockHeader : Type 0 where
  pub version : ℤ
  pub prev_blockhash : BlockHash
  pub merkle_root : ℕ
  pub time : ℕ
  pub bits : ℕ
  pub nonce : ℕ

pub record Block : Type 0 where
  pub header : BlockHeader
  pub txdata : List Transaction

-- An item of `Script::instructions()`.
pub data Instruction : Type 0 where
  push_bytes : List ℕ → Instruction
  op : ℕ → Instruction
  malformed : Instruction

abbrev pub outpoint_beq : OutPoint → OutPoint → Bool
outpoint_beq a b = nat_beq a.txid b.txid && nat_beq a.vout b.vout

pub outpoint_beq_iff : (a b : OutPoint) → (outpoint_beq a b ≡ true) ↔ (a ≡ b)
outpoint_beq_iff a b = ground (arith, nat_beq_iff a.txid b.txid, nat_beq_iff a.vout b.vout)

instance abbrev pub outpoint_eq : Eq OutPoint
outpoint_eq = record { decides = outpoint_beq_iff; equals = outpoint_beq }

-- The crate's functions and constants.
pub record Library : Type 0 where
  pub txid : Transaction → Txid
  pub is_coin_base : Transaction → Bool
  pub is_null : OutPoint → Bool
  pub block_hash : BlockHeader → BlockHash
  pub work : BlockHeader → ℕ
  pub is_provably_unspendable : Script → Bool
  pub is_p2sh : Script → Bool
  pub is_witness_program : Script → Bool
  pub instructions : Script → List Instruction
  -- `VarInt(n).len()`
  pub var_int_len : ℕ → ℕ
  pub check_merkle_root : Block → Bool
  pub check_witness_commitment : Block → Bool
  pub block_weight : Block → ℕ
  -- `none` where the crate returns an error
  pub bip34_block_height : Block → Option ℕ
  pub u256_from_compact_target : ℕ → ℕ
  pub compact_target_from_u256 : ℕ → ℕ
  -- arithmetic on `Uint256`
  pub u256_add : ℕ → ℕ → ℕ
  pub u256_mul : ℕ → ℕ → ℕ
  pub u256_div : ℕ → ℕ → ℕ
  pub witness_scale_factor : ℕ
  pub max_block_weight : ℕ
  pub diffchange_interval : ℕ
  pub diffchange_timespan : ℕ
  -- `header.validate_pow(&header.target())`
  pub validate_pow : BlockHeader → Bool
  -- `genesis_block(network).block_hash()`
  pub genesis_hash : BlockHash
  -- `bitcoinconsensus::verify_with_flags`, of the crate of that name: the script and the value of
  -- the spent output, the transaction, all spent outputs, the index of the input and the flags
  pub verify_with_flags : Script → ℕ → Transaction → List TxOut → ℕ → List ℕ → Bool
