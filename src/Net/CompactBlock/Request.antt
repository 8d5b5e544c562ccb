-- ===== src/Net/CompactBlock/Request.antt =====
-- The request for the transactions that a compact block of src/net/compact_block.rs lacks, and the answer.
use rust_bitcoin_node.Prelude.{
  ℕ, suc, ◌≡◌, refl, ap, ◌⊎◌, inl, inr, true, List, [], ◌∷◌, Option, none, some, arith, get_elem?,
  drop, drop-at,
}
use rust_bitcoin_node.Prelude.Partial.{◌>>=◌}
use rust_bitcoin_node.Bitcoin.{Library, Transaction}
use rust_bitcoin_node.Net.CompactBlock.{
  CompactBlock, fill_missing, fill_slots, into_block_transactions_request, missing_indexes,
  to_block, unwrap_all,
}

-- The transactions that stand at the indexes: what a peer that has the block answers.
abbrev pub at_indexes : List Transaction → List ℕ → Option (List Transaction)
at_indexes txs [] = some []
at_indexes txs (i ∷ indexes) =
    get_elem? txs i >>= λ tx. at_indexes txs indexes >>= λ rest. some (tx ∷ rest)

-- What is in the slots is what the block has there.
abbrev pub Agrees : List (Option Transaction) → List Transaction → Type 0
Agrees [] [] = Unit
Agrees [] (tx ∷ txs) = ⊥
Agrees (slot ∷ slots) [] = ⊥
Agrees (slot ∷ slots) (tx ∷ txs) = ((slot ≡ none) ⊎ (slot ≡ some tx)) × Agrees slots txs

request_lem :
    (txs : List Transaction) (slots : List (Option Transaction)) (rest : List Transaction)
    (index : ℕ)
    → Agrees slots rest
    → drop index txs ≡ rest
    → (answer : List Transaction) × (at_indexes txs (missing_indexes slots index) ≡ some answer)
      × ((fill_slots slots answer).1 ≡ true)
      × (unwrap_all (fill_slots slots answer).0 ≡ some rest)
unfolding missing_indexes fill_slots unwrap_all
request_lem txs [] [] index agrees at = ([], refl, refl, refl)
request_lem txs [] (tx ∷ rest) index agrees at = absurd agrees
request_lem txs (slot ∷ slots) [] index agrees at = absurd agrees
request_lem txs (none ∷ slots) (tx ∷ rest) index (here, there) at =
    let (found, after) = drop-at index tx txs rest at in
    let (answer, asked, complete, done) = request_lem txs slots rest (suc index) there after in
    (tx ∷ answer, rw found (rw asked refl), complete, rw done refl)
request_lem txs (some x ∷ slots) (tx ∷ rest) index (here, there) at =
    let (found, after) = drop-at index tx txs rest at in
    let (answer, asked, complete, done) = request_lem txs slots rest (suc index) there after in
    let same : x ≡ tx = elim here [ inl e ↦ absurd (cc) | inr e ↦ ground arith ] in
    (answer, asked, complete, rw done (ap (λ (t : Transaction). some (t ∷ rest)) same))

module _ ⦃lib : Library⦄ where
  -- For a block whose transactions are what the slots of a compact block have, where they have any: the
  -- transactions that the compact block requests are there, and `fill_missing` with them says that the
  -- block is complete, and gives that block, under the compact block's header.
  pub fill_missing-request :
      (cb : CompactBlock) (txs : List Transaction)
      → Agrees cb.available txs
      → (answer : List Transaction) × (at_indexes txs (into_block_transactions_request cb).indexes
          ≡ some answer)
        × ((fill_missing cb answer).1 ≡ true)
        × (to_block (fill_missing cb answer).0 ≡ some (record { header = cb.header; txdata = txs }))
  unfolding into_block_transactions_request fill_missing to_block
  fill_missing-request cb txs agrees =
      let (answer, asked, complete, done) = request_lem txs cb.available txs 0 agrees refl in
      (answer, asked, complete, rw done refl)
