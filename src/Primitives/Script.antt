-- ===== src/Primitives/Script.antt =====
-- src/primitives/script.rs: the count of signature operations of a script. Opcodes are the bytes
-- of the crate's `opcodes::all`.
use rust_bitcoin_node.Prelude.{
  ℕ, suc, ◌+◌, ◌-◌, ◌≤◌, ◌≡◌, Bool, true, false, List, [], ◌∷◌, Option, none, some, length, get_or,
  drop, take, nat_beq, leb, ltb, if◌then◌else◌, ◌&&◌, ◌||◌, not, arith,
}
use rust_bitcoin_node.Bitcoin.{Library, Script, Instruction, push_bytes, op, malformed}
use rust_bitcoin_node.Protocol.Consensus.{
  max_pubkeys_per_multisig, witness_v0_keyhash_size, witness_v0_scripthash_size,
}

abbrev pub op_pushnum_1 : ℕ
op_pushnum_1 = 0x51

abbrev pub op_pushnum_16 : ℕ
op_pushnum_16 = 0x60

abbrev pub op_checksig : ℕ
op_checksig = 0xac

abbrev pub op_checksigverify : ℕ
op_checksigverify = 0xad

abbrev pub op_checkmultisig : ℕ
op_checkmultisig = 0xae

abbrev pub op_checkmultisigverify : ℕ
op_checkmultisigverify = 0xaf

abbrev pub op_return_255 : ℕ
op_return_255 = 0xff

abbrev is_small_int : ℕ → Bool
is_small_int byte = leb op_pushnum_1 byte && leb byte op_pushnum_16

-- `read_small_int`
abbrev read_small_int : ℕ → Option ℕ
read_small_int byte = if is_small_int byte then some (byte - 0x50) else none

-- The keys among the instructions; `none` where one is no key.
unfoldable pub count_keys : List Instruction → Option ℕ
count_keys [] = some 0
count_keys (push_bytes bytes ∷ is) =
    let rest = count_keys is in
    if nat_beq (length bytes) 33 || nat_beq (length bytes) 65
    then elim rest [ none ↦ none | some n ↦ some (suc n) ]
    else none
count_keys (op _ ∷ is) = none
count_keys (malformed ∷ is) = none

-- What one opcode adds in `get_sig_op_count`.
unfoldable pub op_cost : Bool → ℕ → ℕ → ℕ
op_cost accurate last_opcode code =
    if nat_beq code op_checksig || nat_beq code op_checksigverify
    then 1
    else if nat_beq code op_checkmultisig || nat_beq code op_checkmultisigverify
    then if accurate && is_small_int last_opcode
      then last_opcode - 0x50
      else max_pubkeys_per_multisig
    else 0

-- The loop of `get_sig_op_count`; it stops at the first malformed instruction.
unfoldable pub count_sig_ops : Bool → ℕ → List Instruction → ℕ
unfolding op_cost
count_sig_ops accurate last_opcode [] = 0
count_sig_ops accurate last_opcode (malformed ∷ is) = 0
count_sig_ops accurate last_opcode (push_bytes _ ∷ is) = count_sig_ops accurate last_opcode is
count_sig_ops accurate last_opcode (op code ∷ is) =
    op_cost accurate last_opcode code + count_sig_ops accurate code is

-- The loop of `get_redeem_script`: the last push, unless an instruction is malformed or no push.
unfoldable pub last_push : Option (List ℕ) → List Instruction → Option (List ℕ)
last_push found [] = found
last_push found (malformed ∷ is) = none
last_push found (push_bytes bytes ∷ is) = last_push (some bytes) is
last_push found (op code ∷ is) =
    let rest = last_push found is in if ltb op_pushnum_16 code then none else rest

-- The last of a list.
abbrev last : List (List ℕ) → Option (List ℕ)
last [] = none
last (x ∷ []) = some x
last (x ∷ y ∷ ys) = last (y ∷ ys)

module _ ⦃lib : Library⦄ where
  unfoldable pub is_multisig : Script → Bool
  is_multisig script =
      let len = length script in
      let m = read_small_int (get_or script 0 0) in
      let n = read_small_int (get_or script (len - 2) 0) in
      if ltb len 3 || not (nat_beq (get_or script (len - 1) 0) op_checkmultisig)
      then false
      else elim m [
        | none ↦ false
        | some m' ↦ elim n [
          | none ↦ false
          | some n' ↦
              if ltb n' m'
              then false
              else elim (count_keys (take n' (drop 1 (lib.instructions script)))) [
                | none ↦ false
                | some keys ↦ nat_beq keys n'
              ]
        ]
      ]

  -- The version and the program. A witness program has at least two bytes, so no index panics.
  unfoldable pub get_witness_program : Script → Option (ℕ × List ℕ)
  get_witness_program script =
      if lib.is_witness_program script then some (get_or script 0 0, drop 2 script) else none

  unfoldable pub get_sig_op_count : Script → Bool → ℕ
  unfolding count_sig_ops
  get_sig_op_count script accurate = count_sig_ops accurate op_return_255 (lib.instructions script)

  unfoldable pub get_redeem_script : Script → Option Script
  unfolding last_push
  get_redeem_script script = last_push none (lib.instructions script)

  unfoldable pub get_p2sh_sig_op_count : Script → Script → ℕ
  unfolding get_redeem_script get_sig_op_count
  get_p2sh_sig_op_count script script_sig =
      if lib.is_p2sh script
      then elim (get_redeem_script script_sig) [
        | none ↦ 0
        | some redeem ↦ get_sig_op_count redeem true
      ]
      else get_sig_op_count script true

  unfoldable pub witness_sig_op_count : ℕ → List ℕ → List (List ℕ) → ℕ
  unfolding get_sig_op_count
  witness_sig_op_count version program witness =
      if nat_beq version 0
      then if nat_beq (length program) witness_v0_keyhash_size
        then 1
        else if nat_beq (length program) witness_v0_scripthash_size
        then elim (last witness) [ none ↦ 0 | some redeem ↦ get_sig_op_count redeem true ]
        else 0
      else 0

  unfoldable pub get_witness_sig_op_count : Script → Script → List (List ℕ) → ℕ
  unfolding get_witness_program witness_sig_op_count get_redeem_script
  get_witness_sig_op_count script script_sig witness = elim (get_witness_program script) [
    | some (version, program) ↦ witness_sig_op_count version program witness
    | none ↦
        if lib.is_p2sh script
        then elim (get_redeem_script script_sig) [
          | none ↦ 0
          | some redeem ↦ elim (get_witness_program redeem) [
            | none ↦ 0
            | some (version, program) ↦ witness_sig_op_count version program witness
          ]
        ]
        else 0
  ]

op_cost-le : (last_opcode code : ℕ) → op_cost true last_opcode code ≤ op_cost false last_opcode code
unfolding op_cost
op_cost-le last_opcode code = ground arith

op_cost-last : (a b code : ℕ) → op_cost false a code ≡ op_cost false b code
unfolding op_cost
op_cost-last a b code = ground arith

pub count_sig_ops-le :
    (last_opcode : ℕ) (is : List Instruction)
    → count_sig_ops true last_opcode is ≤ count_sig_ops false last_opcode is
unfolding count_sig_ops
count_sig_ops-le last_opcode [] = omega arith
count_sig_ops-le last_opcode (malformed ∷ is) = omega arith
count_sig_ops-le last_opcode (push_bytes _ ∷ is) = count_sig_ops-le last_opcode is
count_sig_ops-le last_opcode (op code ∷ is) =
    omega (arith, op_cost-le last_opcode code, count_sig_ops-le code is)
