-- ===== src/Net/CompactBlock/Complete.antt =====
-- When the code of src/net/compact_block.rs says that a block is complete, it is.
use rust_bitcoin_node.Prelude.{
  ℕ, zero, suc, ◌+◌, ◌-◌, ◌%◌, ◌^◌, ◌≤◌, ◌<◌, ◌≡◌, refl, ap, ◌∙◌, Bool, true, false, List, [], ◌∷◌,
  Option, none, some, length, arith, lookup, contains, nat_eq, nat_beq, nat_beq_iff, get_elem?,
  Bool-cases, Option-cases, inl, inr,
}
use rust_bitcoin_node.Prelude.Words.{add64, sub64}
use rust_bitcoin_node.Bitcoin.{Block, Transaction}
use rust_bitcoin_node.Net.CompactBlock.{
  CompactBlock, ShortIds, fill_from, fill_mempool, set_at, to_block,
}
use rust_bitcoin_node.Net.CompactBlock.Slots.{
  filled, filled-free, set_at-get, set_at-some, set_at_lem, slot_count, unwrap_all-full,
}

-- A block in which every id has an empty slot, and `count` counts the full ones.
pub record IsFresh (cb : CompactBlock) : Type 0 where
  pub size : length cb.available ≡ cb.total_tx
  pub counted : cb.count ≡ filled cb.available
  pub vacant :
      (id index : ℕ) → lookup id cb.id_map ≡ some index → get_elem? cb.available index ≡ some none

-- A block that is being filled: where three transactions share an id, `count` loses one, and the slots
-- that no transaction went to are empty.
record IsFilling (cb : CompactBlock) (set : List ℕ) (lost : ℕ) : Type 0 where
  size : length cb.available ≡ cb.total_tx
  counted : (cb.count + lost) % 2 ^ 64 ≡ filled cb.available
  in_range : (id index : ℕ) → lookup id cb.id_map ≡ some index → index < length cb.available
  vacant :
      (id index : ℕ)
      → lookup id cb.id_map ≡ some index
      → contains index set ≡ false
      → get_elem? cb.available index ≡ some none

get_elem?-lt :
    (slots : List (Option Transaction)) (i : ℕ) (slot : Option Transaction)
    → get_elem? slots i ≡ some slot
    → i < length slots
get_elem?-lt [] i slot e = absurd (cc)
get_elem?-lt (x ∷ slots) zero slot e = omega arith
get_elem?-lt (x ∷ slots) (suc i) slot e = omega (arith, get_elem?-lt slots i slot e)

-- Where `count` is the number of transactions, all slots are full.
full_block :
    (cb : CompactBlock) (set : List ℕ) (lost : ℕ)
    → IsFilling cb set lost
    → cb.total_tx + lost < 2 ^ 64
    → cb.count ≡ cb.total_tx
    → (block : Block) × (to_block cb ≡ some block)
unfolding to_block
full_block cb set lost filling small full =
    let bound = filled-free cb.available in
    let (txs, done) = unwrap_all-full cb.available (omega (arith, filling.size, filling.counted)) in
    (record { header = cb.header; txdata = txs }, rw done refl)

abbrev Completes : Option (CompactBlock × Bool) → Type 0
Completes outcome =
    (cb' : CompactBlock) × (complete : Bool) × (outcome ≡ some (cb', complete))
    × (complete ≡ true → (block : Block) × (to_block cb' ≡ some block))

-- A slot whose id comes again is emptied.
collided :
    (cb : CompactBlock) (set : List ℕ) (lost index : ℕ) (slots : List (Option Transaction))
    → IsFilling cb set lost
    → cb.total_tx + suc lost < 2 ^ 64
    → set_at index none cb.available ≡ some slots
    → (lost' : ℕ) × (lost' ≤ suc lost)
      × IsFilling (record cb { available = slots; count = sub64 cb.count 1 }) set lost'
unfolding sub64
collided cb set lost index slots filling small e =
    let (old, size, count, _, _, _, was) = set_at_lem index none cb.available slots e in
    let bound = filled-free cb.available in
    let held : (lost' : ℕ)
        → ((cb.count + 2 ^ 64 - 1) % 2 ^ 64 + lost') % 2 ^ 64 ≡ filled slots
        → IsFilling (record cb { available = slots; count = sub64 cb.count 1 }) set lost' =
      λ lost' counted. record {
        size = size ∙ filling.size;
        counted = counted;
        in_range = λ i k at. omega (arith, filling.in_range i k at);
        vacant = λ i k at away.
            ground (arith, set_at-get index k none cb.available slots e, filling.vacant i k at);
      } in
    elim (Option-cases old) [
      | inl none_there ↦ (
        suc lost,
        omega arith,
        held (suc lost) (omega (arith, filling.counted, filling.size, ap slot_count none_there)),
      )
      | inr (tx, there) ↦ (
        lost,
        omega arith,
        held lost (omega (arith, filling.counted, filling.size, ap slot_count there)),
      )
    ]

filled_in :
    (cb : CompactBlock) (set : List ℕ) (lost id index : ℕ) (tx : Transaction)
    (slots : List (Option Transaction))
    → IsFilling cb set lost
    → cb.total_tx + lost < 2 ^ 64
    → lookup id cb.id_map ≡ some index
    → contains index set ≡ false
    → set_at index (some tx) cb.available ≡ some slots
    → IsFilling (record cb { available = slots; count = add64 cb.count 1 }) (index ∷ set) lost
unfolding add64 contains
filled_in cb set lost id index tx slots filling small found new e =
    let (old, size, count, _, _, _, was) = set_at_lem index (some tx) cb.available slots e in
    let empty : old ≡ none = ground (arith, filling.vacant id index found new) in
    let bound = filled-free slots in
    record {
      size = size ∙ filling.size;
      counted = omega (arith, filling.counted, filling.size, ap slot_count empty);
      in_range = λ i k at. omega (arith, filling.in_range i k at);
      vacant = λ i k at away.
          ground (arith, set_at-get index k (some tx) cb.available slots e, filling.vacant i k at);
    }

module _ (short : ShortIds) where
  fill_from_lem :
      (txs : List Transaction) (cb : CompactBlock) (set : List ℕ) (lost : ℕ)
      → IsFilling cb set lost
      → cb.total_tx + lost + length txs < 2 ^ 64
      → Completes (fill_from short cb set txs)
  unfolding fill_from
  fill_from_lem [] cb set lost filling small = (cb, false, refl, λ h. absurd (cc))
  fill_from_lem (tx ∷ txs) cb set lost filling small =
      let id = short.with_siphash_keys tx cb.sip_key in
      elim (Option-cases (lookup id cb.id_map)) [
        | inl unknown ↦
            let (cb', complete, done, full) = fill_from_lem txs cb set lost filling (omega arith) in
            (cb', complete, ground arith, full)
        | inr (index, found) ↦
            let low = filling.in_range id index found in
            elim (Bool-cases (contains index set)) [
              | inl twice ↦
                  let (slots, e) = set_at-some index none cb.available low in
                  let (lost', little, filling') =
                    collided cb set lost index slots filling (omega arith) e in
                  let (cb', complete, done, full) =
                    fill_from_lem txs (record cb { available = slots; count = sub64 cb.count 1 })
                      set lost' filling' (omega arith) in
                  (cb', complete, ground arith, full)
              | inr once ↦
                  let (slots, e) = set_at-some index (some tx) cb.available low in
                  let cb₁ : CompactBlock = record cb {
                    available = slots;
                    count = add64 cb.count 1;
                  } in
                  let filling' =
                    filled_in cb set lost id index tx slots filling (omega arith) found once e in
                  elim (Bool-cases (nat_beq cb₁.count cb₁.total_tx)) [
                    | inl all ↦
                        let whole =
                          full_block cb₁ (index ∷ set) lost filling' (omega arith)
                            ((nat_beq_iff cb₁.count cb₁.total_tx).0 all) in
                        (cb₁, true, ground arith, λ h. whole)
                    | inr more ↦
                        let (cb', complete, done, full) =
                          fill_from_lem txs cb₁ (index ∷ set) lost filling' (omega arith) in
                        (cb', complete, ground arith, full)
                  ]
            ]
      ]

  -- A compact block in which every short id has an empty slot and `count` counts the full ones, with
  -- fewer than 2 ^ 64 transactions together with the mempool's: `fill_mempool` does not panic, whatever
  -- short ids collide, and where it says that the block is complete, the block can be taken out of it.
  pub fill_mempool-Completes :
      (cb : CompactBlock) (txs : List Transaction)
      → IsFresh cb
      → cb.total_tx + length txs < 2 ^ 64
      → (cb' : CompactBlock) × (complete : Bool) × (fill_mempool short cb txs
          ≡ some (cb', complete))
        × (complete ≡ true → (block : Block) × (to_block cb' ≡ some block))
  unfolding fill_mempool
  fill_mempool-Completes cb txs fresh small =
      let bound = filled-free cb.available in
      let filling : IsFilling cb [] 0 = record {
        size = fresh.size;
        counted = omega (arith, fresh.counted, fresh.size);
        in_range = λ id index at. get_elem?-lt cb.available index none (fresh.vacant id index at);
        vacant = λ id index at away. fresh.vacant id index at;
      } in
      elim (Bool-cases (nat_beq cb.count cb.total_tx)) [
        | inl all ↦
            let whole =
              full_block cb [] 0 filling (omega arith) ((nat_beq_iff cb.count cb.total_tx).0 all) in
            (cb, true, ground arith, λ h. whole)
        | inr more ↦
            let (cb', complete, done, full) = fill_from_lem txs cb [] 0 filling (omega arith) in
            (cb', complete, ground arith, full)
      ]
