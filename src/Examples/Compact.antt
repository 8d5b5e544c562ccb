-- ===== src/Examples/Compact.antt =====
-- A compact block of three transactions, one of them prefilled.
use rust_bitcoin_node.Prelude.{
  ℕ, ◌+◌, ◌<◌, ◌≡◌, ◌⊎◌, inl, inr, refl, true, Bool, arith, List, [], ◌∷◌, Option, none, some,
  length, lookup, lookup-All, get_elem?, nat_eq, map,
}
use rust_bitcoin_node.Net.CompactBlock.Assign.{IsDistinct}
use rust_bitcoin_node.Bitcoin.{Block, Transaction}
use rust_bitcoin_node.Net.CompactBlock.{
  CompactBlock, HeaderAndShortIds, ShortIds, blank, fill_mempool, fill_missing,
  into_block_transactions_request, missing_indexes, new, place_prefilled, set_at, to_block,
}
use rust_bitcoin_node.Net.CompactBlock.Complete.{IsFresh, fill_mempool-Completes}
use rust_bitcoin_node.Net.CompactBlock.Fresh.{new-IsFresh, new-panics}
use rust_bitcoin_node.Net.CompactBlock.Request.{at_indexes, fill_missing-request}
use rust_bitcoin_node.Examples.Setup.{coinbase_tx, small_library, spend_tx, third_block}

-- A transaction's lock time stands in for its short id.
abbrev small_ids : ShortIds
small_ids = record {
  calculate_siphash_keys = λ header nonce. (0, nonce);
  with_siphash_keys = λ tx keys. tx.lock_time;
}

abbrev other_tx : Transaction
other_tx = record spend_tx { lock_time = 90 }

abbrev small_ids_block : HeaderAndShortIds
small_ids_block = record {
  header = third_block.header;
  nonce = 1;
  prefilled_txs = (0, coinbase_tx) ∷ [];
  short_ids = 78 ∷ 90 ∷ [];
}

abbrev slots : List (Option Transaction)
slots = some coinbase_tx ∷ none ∷ none ∷ []

abbrev small_compact : CompactBlock
small_compact = record {
  available = slots;
  header = third_block.header;
  sip_key = (0, 1);
  total_tx = 3;
  count = 1;
  id_map = (78, 1) ∷ (90, 2) ∷ [];
}

small_ids_block-placed :
    place_prefilled 2 0 small_ids_block.prefilled_txs (blank 3) 0 ≡ some (slots, 1)
unfolding place_prefilled set_at
small_ids_block-placed = refl

small_ids_block-new : new small_ids small_ids_block ≡ some (some small_compact)
unfolding new place_prefilled set_at rust_bitcoin_node.Net.CompactBlock.assign_ids
    rust_bitcoin_node.Net.CompactBlock.first_free rust_bitcoin_node.Prelude.insert
    rust_bitcoin_node.Prelude.contains_key lookup
small_ids_block-new = refl

new-IsFresh_example :
    ((new small_ids small_ids_block ≡ some none) × ¬ IsDistinct small_ids_block.short_ids)
    ⊎ (IsDistinct small_ids_block.short_ids
        × (cb : CompactBlock) × (new small_ids small_ids_block ≡ some (some cb))
        × IsFresh cb
        × (cb.available ≡ slots)
        × (cb.count ≡ 1)
        × (cb.total_tx ≡ 3)
        × (map (λ (id : ℕ). lookup id cb.id_map) (78 ∷ 90 ∷ [])
            ≡ map (λ (i : ℕ). some i) (missing_indexes cb.available 0)))
new-IsFresh_example = new-IsFresh small_ids small_ids_block slots 1 small_ids_block-placed

small_compact-vacant :
    (id index : ℕ) → lookup id small_compact.id_map ≡ some index → get_elem? slots index ≡ some none
small_compact-vacant id index found =
    lookup-All (λ id index. get_elem? slots index ≡ some none) id index small_compact.id_map
      (refl, (refl, tt)) found

small_compact-IsFresh : IsFresh small_compact
unfolding lookup rust_bitcoin_node.Net.CompactBlock.Slots.filled
small_compact-IsFresh = record { size = refl; counted = refl; vacant = small_compact-vacant }

fill_mempool-Completes_example :
    (cb' : CompactBlock) × (complete : Bool) × (fill_mempool small_ids small_compact
        (spend_tx ∷ other_tx ∷ [])
      ≡ some (cb', complete))
    × (complete ≡ true → (block : Block) × (to_block cb' ≡ some block))
fill_mempool-Completes_example =
    fill_mempool-Completes small_ids small_compact (spend_tx ∷ other_tx ∷ []) small_compact-IsFresh
      (omega arith)

fill_missing-request_example :
    (answer : List Transaction) × (at_indexes
        (coinbase_tx ∷ spend_tx ∷ other_tx ∷ [])
        (into_block_transactions_request small_compact).indexes
      ≡ some answer)
    × ((fill_missing small_compact answer).1 ≡ true)
    × (to_block (fill_missing small_compact answer).0
        ≡ some (record {
          header = third_block.header;
          txdata = coinbase_tx ∷ spend_tx ∷ other_tx ∷ [];
        }))
fill_missing-request_example =
    fill_missing-request small_compact (coinbase_tx ∷ spend_tx ∷ other_tx ∷ [])
      (inr refl, (inl refl, (inl refl, tt)))

abbrev whole_block : HeaderAndShortIds
whole_block = record {
  header = third_block.header;
  nonce = 1;
  prefilled_txs = (0, coinbase_tx) ∷ (0, spend_tx) ∷ (0, other_tx) ∷ [];
  short_ids = [];
}

new-panics_example : new small_ids whole_block ≡ none
new-panics_example = new-panics small_ids whole_block refl (refl, (refl, (refl, tt))) (omega arith)
