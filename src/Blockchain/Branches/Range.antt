-- ===== src/Blockchain/Branches/Range.antt =====
-- `height_to_hash_range` of src/blockchain/chain.rs in a linked database.
use native.Mathlib.Nat.{zero-add}
use rust_bitcoin_node.Prelude.{
  ℕ, zero, suc, ◌+◌, ◌-◌, ◌≤◌, ◌<◌, ◌^◌, ◌%◌, ◌≡◌, refl, ◌∙◌, ap, inl, inr, true, List, [], ◌∷◌,
  Option, none, some, leb, ltb, nat_beq, arith, Bool-cases, Option-cases, nat_beq_iff, nat_eq,
  length, get_elem?,
}
use rust_bitcoin_node.Prelude.Words.{add32, sub32}
use rust_bitcoin_node.Bitcoin.{BlockHash}
use rust_bitcoin_node.Blockchain.Entry.{ChainEntry}
use rust_bitcoin_node.Blockchain.Db.{ChainDb, get_entry_by_hash}
use rust_bitcoin_node.Blockchain.Ancestor.Laws.{IsKnown, IsLinked, back, known}
use rust_bitcoin_node.Blockchain.Branches.{height_to_hash_range, push_hashes}

module _ (c : ChainDb) (linked : IsLinked c) where
  item_lem :
      (n : ℕ) (e p r : ChainEntry) (hashes result : List BlockHash) (i : ℕ)
      → get_entry_by_hash c e.prev_block ≡ some p
      → i < suc n
      → back c (suc n - 1 - i) e ≡ some r
      → ((i : ℕ) (r : ChainEntry)
          → i < n
          → back c (n - 1 - i) p ≡ some r
          → get_elem? result i ≡ some r.hash)
      → get_elem? result (n + 0) ≡ some e.hash
      → get_elem? result i ≡ some r.hash
  unfolding back
  item_lem n e p r hashes result i found small run items first = elim (Bool-cases (nat_beq i n)) [
    | inl last ↦
        let at = (nat_beq_iff i n).0 last in
        let none_left : suc n - 1 - i ≡ 0 = omega arith in
        let same : some e ≡ some r = rw none_left at run in
        let place : i ≡ n + 0 = omega arith in
        ap (get_elem? result) place
        ∙ first
        ∙ ap (λ (o : Option ChainEntry). elim o [ none ↦ none | some x ↦ some x.hash ]) same
    | inr before ↦
        let count : suc n - 1 - i ≡ suc (n - 1 - i) = ground arith in
        let run' : back c (suc (n - 1 - i)) e ≡ some r = rw count at run in
        items i r (ground arith) (rw found at run')
  ]

  -- The hashes that the loop collects, from the lowest entry up to the first.
  push_hashes_lem :
      (n : ℕ) (e : ChainEntry) (hashes : List BlockHash)
      → IsKnown c e
      → n ≤ e.height
      → (result : List BlockHash) × (push_hashes c n e hashes ≡ some result)
        × (length result ≡ n + length hashes)
        × ((i : ℕ) (r : ChainEntry)
            → i < n
            → back c (n - 1 - i) e ≡ some r
            → get_elem? result i ≡ some r.hash)
        × ((i : ℕ) → get_elem? result (n + i) ≡ get_elem? hashes i)
  unfolding push_hashes back
  push_hashes_lem zero e hashes ke low =
      (hashes, refl, omega arith, λ i r small run. absurd (omega arith), λ i. rw zero-add refl)
  push_hashes_lem (suc n) e hashes ke low =
      let (p, found, below) = linked.parent e ke (omega arith) in
      let (result, done, size, items, rest) =
        push_hashes_lem n p (e.hash ∷ hashes) (known c linked e.prev_block p found) (omega arith) in
      (
        result,
        rw found done,
        omega arith,
        λ i r small run. item_lem n e p r hashes result i found small run items (rest 0),
        λ i.
            let at : suc n + i ≡ n + suc i = omega arith in ap (get_elem? result) at ∙ rest (suc i),
      )

  -- For a block of a linked database that is not too high for the number of results, and a height above
  -- the genesis block and below the block's, `height_to_hash_range` gives the hashes of the block's
  -- ancestors from that height up to the block itself, in that order.
  pub height_to_hash_range_lem :
      (e : ChainEntry) (start_height max_results : ℕ)
      → IsKnown c e
      → 0 < start_height
      → start_height < e.height
      → e.height - start_height + 1 ≤ max_results
      → (hashes : List BlockHash) × (height_to_hash_range c start_height e.hash max_results
          ≡ some hashes)
        × (length hashes ≡ e.height - start_height + 1)
        × ((i : ℕ) (r : ChainEntry)
            → start_height + i ≤ e.height
            → back c (e.height - (start_height + i)) e ≡ some r
            → get_elem? hashes i ≡ some r.hash)
  unfolding height_to_hash_range add32 sub32
  height_to_hash_range_lem e start_height max_results ke above below few =
      let n = e.height - start_height + 1 in
      let (hashes, done, size, items, _) = push_hashes_lem n e [] ke (omega arith) in
      let count : ((e.height + 2 ^ 32 - start_height) % 2 ^ 32 + 1) % 2 ^ 32 ≡ n =
        omega (arith, linked.in_range e ke) in
      let low : ltb start_height e.height ≡ true = ground arith in
      let fits : leb n max_results ≡ true = ground arith in
      (
        hashes,
        rw (ke, low, count, fits) done,
        omega arith,
        λ i r within run.
            let steps : n - 1 - i ≡ e.height - (start_height + i) = omega arith in
            items i r (omega arith) (ap (λ k. back c k e) steps ∙ run),
      )

  -- The loop panics where it is asked for one block more than there are.
  push_hashes-panics :
      (n : ℕ) (e : ChainEntry) (hashes : List BlockHash)
      → IsKnown c e
      → ((g : ChainEntry) → IsKnown c g → g.height ≡ 0 → get_entry_by_hash c g.prev_block ≡ none)
      → n ≡ suc e.height
      → push_hashes c n e hashes ≡ none
  unfolding push_hashes
  push_hashes-panics zero e hashes ke bottom count = absurd (omega arith)
  push_hashes-panics (suc n) e hashes ke bottom count = elim (Bool-cases (nat_beq e.height 0)) [
    | inl last ↦ ground (arith, bottom e ke)
    | inr more ↦
        let (p, found, below) = linked.parent e ke (ground arith) in
        rw found (
          push_hashes-panics n p (e.hash ∷ hashes) (known c linked e.prev_block p found) bottom
            (omega arith))
  ]

  -- In a linked database in which the blocks of height 0 have no block before them,
  -- `height_to_hash_range` from height 0 always panics: the loop reads the block before the genesis
  -- block.
  pub height_to_hash_range-panics :
      (end_hash : BlockHash) (max_results : ℕ)
      → ((g : ChainEntry) → IsKnown c g → g.height ≡ 0 → get_entry_by_hash c g.prev_block ≡ none)
      → height_to_hash_range c 0 end_hash max_results ≡ none
  unfolding height_to_hash_range add32 sub32
  height_to_hash_range-panics end_hash max_results bottom =
      elim (Option-cases (get_entry_by_hash c end_hash)) [
        | inl missing ↦ rw missing refl
        | inr (e, found) ↦
            let ke = known c linked end_hash e found in
            let count : ((e.height + 2 ^ 32 - 0) % 2 ^ 32 + 1) % 2 ^ 32 ≡ suc e.height =
              omega (arith, linked.in_range e ke) in
            let panics = push_hashes-panics (suc e.height) e [] ke bottom refl in ground arith
      ]
