-- ===== src/Primitives/Block.antt =====
-- src/primitives/block.rs: the checks of a block's body.
use rust_bitcoin_node.Prelude.{
  ℕ, suc, ◌+◌, ◌*◌, ◌≡◌, Bool, true, false, List, [], ◌∷◌, none, some, length, any, is_empty,
  nat_beq, ltb, if◌then◌else◌, ◌&&◌, ◌||◌, not, sum_of, Outcome, ok, err, panic, ◌>>=◌, ◌>>◌,
  reject_if, map_err, arith, >>=-eq-ok,
}
use rust_bitcoin_node.Bitcoin.{Library, Block, Transaction}
use rust_bitcoin_node.Errors.{
  BlockVerificationError, bad_transaction, bad_merkle_root, bad_length, no_coinbase,
  multiple_coinbase, bad_block_sigops, bad_coinbase_height,
}
use rust_bitcoin_node.Protocol.Consensus.{max_block_sigops_cost}
use rust_bitcoin_node.Primitives.Tx
use rust_bitcoin_node.Primitives.Tx.{get_output_value, check_sanity, get_legacy_sig_op_count}

abbrev pub Verified : Type 0 → Type 0
Verified A = Outcome BlockVerificationError A

module _ ⦃lib : Library⦄ where
  abbrev first_is_coin_base : List Transaction → Bool
  first_is_coin_base [] = false
  first_is_coin_base (tx ∷ txs) = lib.is_coin_base tx

  -- The value of the first transaction's outputs; the assertions panic on a block with no coinbase.
  unfoldable pub claimed_of : List Transaction → Verified ℕ
  claimed_of [] = panic
  claimed_of (tx ∷ txs) = if lib.is_coin_base tx then ok (get_output_value tx) else panic

  unfoldable pub get_claimed : Block → Verified ℕ
  unfolding claimed_of
  get_claimed block = claimed_of block.txdata

  unfoldable pub stripped_size : Block → ℕ
  stripped_size block =
      80 + lib.var_int_len (length block.txdata) + sum_of Tx.stripped_size block.txdata

  -- The loop over the transactions from the one at `index` on; it counts the legacy sigops.
  unfoldable pub check_txs : ℕ → ℕ → List Transaction → Verified ℕ
  check_txs index sigops [] = ok sigops
  check_txs index sigops (tx ∷ txs) = do
    reject_if (ltb 0 index && lib.is_coin_base tx) multiple_coinbase
    map_err bad_transaction (check_sanity tx)
    check_txs (suc index) (sigops + get_legacy_sig_op_count tx) txs

  unfoldable pub check_body : Block → Verified (Unit {0})
  unfolding check_txs
  check_body block = do
    reject_if (not (lib.check_merkle_root block)) bad_merkle_root
    reject_if
        (is_empty block.txdata
          || (ltb lib.max_block_weight (length block.txdata * lib.witness_scale_factor)
              || ltb lib.max_block_weight (stripped_size block * lib.witness_scale_factor)))
        bad_length
    reject_if (not (first_is_coin_base block.txdata)) no_coinbase
    sigops ← check_txs 0 0 block.txdata
    reject_if (ltb max_block_sigops_cost (sigops * lib.witness_scale_factor)) bad_block_sigops

  unfoldable pub check_coinbase_height : Block → ℕ → Verified (Unit {0})
  check_coinbase_height block height = elim (lib.bip34_block_height block) [
    | none ↦ err bad_coinbase_height
    | some found ↦ if nat_beq found height then ok tt else err bad_coinbase_height
  ]

  unfoldable pub has_witness : Block → Bool
  has_witness block = any Tx.has_witness block.txdata

  -- Of the transactions from `index` on, only one at index 0 is a coinbase, and each passes
  -- `check_sanity`.
  abbrev pub IsProper : ℕ → List Transaction → Type 0
  IsProper index [] = Unit
  IsProper index (tx ∷ txs) =
      (lib.is_coin_base tx ≡ nat_beq index 0) × (check_sanity tx ≡ ok tt) × IsProper (suc index) txs

  map_err-ok :
      (tx : Transaction) {u : Unit {0}}
      → map_err bad_transaction (check_sanity tx) ≡ ok u
      → check_sanity tx ≡ ok tt
  map_err-ok tx e = ground arith

  check_txs-IsProper :
      (index sigops : ℕ) (txs : List Transaction) {total : ℕ}
      → check_txs (suc index) sigops txs ≡ ok total
      → IsProper (suc index) txs
  unfolding check_txs
  check_txs-IsProper index sigops [] e = tt
  check_txs-IsProper index sigops (tx ∷ txs) e =
      let (_, a, e₁) =
        >>=-eq-ok (reject_if (ltb 0 (suc index) && lib.is_coin_base tx) multiple_coinbase) _ e in
      let (_, b, e₂) = >>=-eq-ok (map_err bad_transaction (check_sanity tx)) _ e₁ in
      (
        ground arith,
        map_err-ok tx b,
        check_txs-IsProper (suc index) (sigops + get_legacy_sig_op_count tx) txs e₂,
      )

  first-IsProper :
      (txs : List Transaction) {total : ℕ}
      → first_is_coin_base txs ≡ true
      → check_txs 0 0 txs ≡ ok total
      → IsProper 0 txs
  unfolding check_txs
  first-IsProper [] c e = tt
  first-IsProper (tx ∷ txs) c e =
      let (_, b, e₂) = >>=-eq-ok (map_err bad_transaction (check_sanity tx)) _ e in
      (c, map_err-ok tx b, check_txs-IsProper 0 (0 + get_legacy_sig_op_count tx) txs e₂)

  -- A block whose body passes `check_body` has transactions, of which exactly the first is a
  -- coinbase, and each of them passes `check_sanity`.
  pub check_body-IsProper :
      (block : Block)
      → check_body block ≡ ok tt
      → (is_empty block.txdata ≡ false) × IsProper 0 block.txdata
  unfolding check_body
  check_body-IsProper block e =
      let (_, _, e₁) =
        >>=-eq-ok (reject_if (not (lib.check_merkle_root block)) bad_merkle_root) _ e in
      let (_, a, e₂) =
        >>=-eq-ok
          (reject_if
            (is_empty block.txdata
              || (ltb lib.max_block_weight (length block.txdata * lib.witness_scale_factor)
                  || ltb lib.max_block_weight (stripped_size block * lib.witness_scale_factor)))
            bad_length)
          _ e₁ in
      let (_, b, e₃) =
        >>=-eq-ok (reject_if (not (first_is_coin_base block.txdata)) no_coinbase) _ e₂ in
      let (_, c, _) = >>=-eq-ok (check_txs 0 0 block.txdata) _ e₃ in
      (ground arith, first-IsProper block.txdata (ground arith) c)
