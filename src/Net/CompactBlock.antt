-- ===== src/Net/CompactBlock.antt =====
-- src/net/compact_block.rs: a block that comes as short ids (BIP 152), and how it is put together from
-- the mempool and from what is asked for. `none` is a panic; `count` is a usize and wraps.
pub mod Slots
pub mod Complete
pub mod Assign
pub mod Fresh
pub mod Request
use rust_bitcoin_node.Prelude.{
  ℕ, zero, suc, ◌+◌, ◌≡◌, Bool, true, false, List, [], ◌∷◌, Option, none, some, length, lookup,
  insert, contains, contains_key, nat_eq, nat_beq, ltb, leb, if◌then◌else◌, is_empty, drop, ◌∷◌,
}
use rust_bitcoin_node.Prelude.Partial.{◌>>=◌, ◌>>◌, assert}
use rust_bitcoin_node.Prelude.Words.{add64, sub64}
use rust_bitcoin_node.Bitcoin.{Block, BlockHeader, BlockHash, Library, Transaction}

-- What the crate computes of short ids: the keys of a header and a nonce, and the id that they give to
-- a transaction, by its `wtxid`.
pub record ShortIds : Type 0 where
  pub calculate_siphash_keys : BlockHeader → ℕ → ℕ × ℕ
  pub with_siphash_keys : Transaction → ℕ × ℕ → ℕ

-- `HeaderAndShortIds` of the crate: each prefilled transaction has its distance from the one before.
pub record HeaderAndShortIds : Type 0 where
  pub header : BlockHeader
  pub nonce : ℕ
  pub prefilled_txs : List (ℕ × Transaction)
  pub short_ids : List ℕ

pub record CompactBlock : Type 0 where
  pub available : List (Option Transaction)
  pub header : BlockHeader
  pub sip_key : ℕ × ℕ
  pub total_tx : ℕ
  pub count : ℕ
  pub id_map : List (ℕ × ℕ)

-- `vec![None; n]`
abbrev pub blank : ℕ → List (Option Transaction)
blank zero = []
blank (suc n) = none ∷ blank n

-- `available[index] = value`; out of bounds it panics.
unfoldable pub set_at :
    ℕ → Option Transaction → List (Option Transaction) → Option (List (Option Transaction))
set_at index value [] = none
set_at zero value (slot ∷ slots) = some (value ∷ slots)
set_at (suc index) value (slot ∷ slots) =
    set_at index value slots >>= λ slots'. some (slot ∷ slots')

-- The loop over the prefilled transactions, from one more than `last`, with the number of short ids.
unfoldable pub place_prefilled :
    ℕ
    → ℕ
    → List (ℕ × Transaction)
    → List (Option Transaction)
    → ℕ
    → Option (List (Option Transaction) × ℕ)
place_prefilled ids next [] available count = some (available, count)
place_prefilled ids next ((index, tx) ∷ prefilled) available count = do
  let last = next + index
  assert (ltb last 0xffff)
  assert (leb last (ids + 1))
  available' ← set_at last (some tx) available
  place_prefilled ids (suc last) prefilled available' (suc count)

-- `while available[i + offset].is_some()`, on the slots from a position on.
unfoldable pub first_free : List (Option Transaction) → ℕ → Option ℕ
first_free [] position = none
first_free (none ∷ slots) position = some position
first_free (some tx ∷ slots) position = first_free slots (suc position)

-- The loop over the short ids; a `none` inside is the early return at an id that comes twice.
unfoldable pub assign_ids :
    List (Option Transaction) → List ℕ → ℕ → List (ℕ × ℕ) → Option (Option (List (ℕ × ℕ)))
assign_ids available [] position id_map = some (some id_map)
assign_ids available (id ∷ ids) position id_map =
    first_free (drop position available) position >>= λ free.
    let rest = assign_ids available ids (suc free) (insert id free id_map) in
    if contains_key id id_map then some none else rest

module _ (short : ShortIds) where
  unfoldable pub new : HeaderAndShortIds → Option (Option CompactBlock)
  unfolding place_prefilled assign_ids
  new h = do
    let total_tx = length h.prefilled_txs + length h.short_ids
    (available, count) ← place_prefilled (length h.short_ids) 0 h.prefilled_txs (blank total_tx) 0
    assigned ← assign_ids available h.short_ids 0 []
    elim assigned [
      | none ↦ some none
      | some id_map ↦ some (
          some (record {
            available = available;
            header = h.header;
            sip_key = short.calculate_siphash_keys h.header h.nonce;
            total_tx = total_tx;
            count = count;
            id_map = id_map;
          }))
    ]

  -- The loop of `fill_mempool`, with the indexes that it filled.
  unfoldable pub fill_from : CompactBlock → List ℕ → List Transaction → Option (CompactBlock × Bool)
  fill_from cb filled [] = some (cb, false)
  fill_from cb filled (tx ∷ txs) = elim (lookup (short.with_siphash_keys tx cb.sip_key) cb.id_map) [
    | none ↦ fill_from cb filled txs
    | some index ↦
        let collides =
          (set_at index none cb.available >>= λ available.
          fill_from (record cb { available = available; count = sub64 cb.count 1 }) filled txs) in
        let fills =
          (set_at index (some tx) cb.available >>= λ available.
          let cb' : CompactBlock = record cb { available = available; count = add64 cb.count 1 } in
          let rest = fill_from cb' (index ∷ filled) txs in
          if nat_beq cb'.count cb.total_tx then some (cb', true) else rest) in
        if contains index filled then collides else fills
  ]

  unfoldable pub fill_mempool : CompactBlock → List Transaction → Option (CompactBlock × Bool)
  unfolding fill_from
  fill_mempool cb txs =
      if nat_beq cb.count cb.total_tx then some (cb, true) else fill_from cb [] txs

-- The loop of `fill_missing`: the slots after it, and whether they and the transactions end together.
unfoldable pub fill_slots :
    List (Option Transaction) → List Transaction → List (Option Transaction) × Bool
fill_slots [] txs = ([], is_empty txs)
fill_slots (some tx ∷ slots) txs =
    let (slots', complete) = fill_slots slots txs in (some tx ∷ slots', complete)
fill_slots (none ∷ slots) [] = (none ∷ slots, false)
fill_slots (none ∷ slots) (tx ∷ txs) =
    let (slots', complete) = fill_slots slots txs in (some tx ∷ slots', complete)

unfoldable pub fill_missing : CompactBlock → List Transaction → CompactBlock × Bool
unfolding fill_slots
fill_missing cb txs =
    (record cb { available = (fill_slots cb.available txs).0 }, (fill_slots cb.available txs).1)

pub record BlockTransactionsRequest : Type 0 where
  pub block_hash : BlockHash
  pub indexes : List ℕ

-- The indexes of the empty slots, from the index of the first slot on.
unfoldable pub missing_indexes : List (Option Transaction) → ℕ → List ℕ
missing_indexes [] index = []
missing_indexes (some tx ∷ slots) index = missing_indexes slots (suc index)
missing_indexes (none ∷ slots) index = index ∷ missing_indexes slots (suc index)

unfoldable pub into_block_transactions_request :
    ⦃lib : Library⦄ → CompactBlock → BlockTransactionsRequest
into_block_transactions_request ⦃lib⦄ cb = record {
  block_hash = lib.block_hash cb.header;
  indexes = missing_indexes cb.available 0;
}

unfoldable pub unwrap_all : List (Option Transaction) → Option (List Transaction)
unwrap_all [] = some []
unwrap_all (none ∷ slots) = none
unwrap_all (some tx ∷ slots) = unwrap_all slots >>= λ txs. some (tx ∷ txs)

-- `Block::from`
unfoldable pub to_block : CompactBlock → Option Block
to_block cb = unwrap_all cb.available >>= λ txs. some (record { header = cb.header; txdata = txs })
