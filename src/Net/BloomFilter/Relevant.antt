-- ===== src/Net/BloomFilter/Relevant.antt =====
-- `is_relevant_and_update` of src/net/bloom_filter.rs, with the operations on outpoints. What the crate
-- bitcoin makes of an outpoint and of a hash as bytes, and its `is_p2pk`, are parameters.
use rust_bitcoin_node.Prelude.{
  ℕ, suc, ◌%◌, ◌^◌, Bool, true, false, List, [], ◌∷◌, Option, some, is_empty, if◌then◌else◌, ◌||◌,
}
use rust_bitcoin_node.Prelude.Partial.{◌>>=◌}
use rust_bitcoin_node.Bitcoin.{
  Instruction, Library, OutPoint, Script, Transaction, TxIn, TxOut, Txid, malformed, op, push_bytes,
}
use rust_bitcoin_node.Primitives.Script.{is_multisig}
use rust_bitcoin_node.Net.BloomFilter.{
  BloomFilter, all_outputs, contains, insert, no_update, pubkey_only,
}

-- The functions of the crates that the filter uses.
pub record FilterLibrary : Type 0 where
  pub murmur3_32 : List ℕ → ℕ → ℕ
  pub encode_outpoint : OutPoint → List ℕ
  pub hash_bytes : Txid → List ℕ
  pub is_p2pk : Script → Bool

module _ (f : FilterLibrary) where
  unfoldable pub contains_outpoint : BloomFilter → OutPoint → Option Bool
  contains_outpoint bf outpoint = contains f.murmur3_32 bf (f.encode_outpoint outpoint)

  unfoldable pub contains_hash : BloomFilter → Txid → Option Bool
  contains_hash bf hash = contains f.murmur3_32 bf (f.hash_bytes hash)

  unfoldable pub insert_outpoint : BloomFilter → OutPoint → Option BloomFilter
  insert_outpoint bf outpoint = insert f.murmur3_32 bf (f.encode_outpoint outpoint)

  -- The data that a script pushes and the filter has: an empty push is not looked for.
  unfoldable pub has_push : BloomFilter → Instruction → Option Bool
  has_push bf (push_bytes bytes) =
      if is_empty bytes then some false else contains f.murmur3_32 bf bytes
  has_push bf (op code) = some false
  has_push bf malformed = some false

  -- The loop over the instructions of an input's script.
  unfoldable pub any_push : BloomFilter → List Instruction → Option Bool
  any_push bf [] = some false
  any_push bf (instruction ∷ instructions) =
      let rest = any_push bf instructions in
      has_push bf instruction >>= λ had. if had then some true else rest

module _ (f : FilterLibrary) ⦃lib : Library⦄ where
  -- What a match in an output's script does to the filter.
  unfoldable pub update_matched : BloomFilter → Txid → ℕ → TxOut → Option BloomFilter
  update_matched bf txid index output =
      let inserted = insert_outpoint f bf (record { txid = txid; vout = index % 2 ^ 32 }) in
      elim bf.flags [
        | all_outputs ↦ inserted
        | pubkey_only ↦
            if f.is_p2pk output.script_pubkey || is_multisig output.script_pubkey
            then inserted
            else some bf
        | no_update ↦ some bf
      ]

  -- The loop over the instructions of an output's script, with what was found before.
  unfoldable pub match_pushes :
      Txid → ℕ → TxOut → List Instruction → BloomFilter → Bool → Option (BloomFilter × Bool)
  match_pushes txid index output [] bf found = some (bf, found)
  match_pushes txid index output (instruction ∷ instructions) bf found =
      has_push f bf instruction >>= λ had.
      (if had then update_matched bf txid index output else some bf) >>= λ bf'.
      match_pushes txid index output instructions bf' (had || found)

  -- The loop over the outputs.
  unfoldable pub match_outputs :
      Txid → ℕ → List TxOut → BloomFilter → Bool → Option (BloomFilter × Bool)
  match_outputs txid index [] bf found = some (bf, found)
  match_outputs txid index (output ∷ outputs) bf found =
      match_pushes txid index output (lib.instructions output.script_pubkey) bf found >>= λ matched.
      match_outputs txid (suc index) outputs matched.0 matched.1

  -- The loop over the inputs.
  unfoldable pub match_inputs : BloomFilter → List TxIn → Option Bool
  match_inputs bf [] = some false
  match_inputs bf (input ∷ inputs) =
      let rest = match_inputs bf inputs in
      let pushed =
        (any_push f bf (lib.instructions input.script_sig) >>= λ had.
        if had then some true else rest) in
      contains_outpoint f bf input.previous_output >>= λ spent. if spent then some true else pushed

  unfoldable pub is_relevant_and_update : BloomFilter → Transaction → Option (BloomFilter × Bool)
  is_relevant_and_update bf tx =
      if bf.is_full
      then some (bf, true)
      else if bf.is_empty
      then some (bf, false)
      else (contains_hash f bf (lib.txid tx) >>= λ found.
          match_outputs (lib.txid tx) 0 tx.output bf found >>= λ matched.
          if matched.1
          then some (matched.0, true)
          else (match_inputs matched.0 tx.input >>= λ spent. some (matched.0, spent)))
