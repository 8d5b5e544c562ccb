-- ===== src/Blockchain/Branches.antt =====
-- Walks over the entries in src/blockchain/chain.rs and src/blockchain/chain_db.rs: `common_ancestor`,
-- `height_to_hash_range`, `get_locator` and `get_next_path`. `none` is a panic, or no more fuel.
pub mod Common
pub mod Range
use rust_bitcoin_node.Prelude.{
  ℕ, zero, suc, ◌+◌, ◌-◌, ◌*◌, ◌%◌, ◌^◌, Bool, true, false, List, [], ◌∷◌, ◌++◌, Option, none, some,
  length, leb, ltb, nat_beq, if◌then◌else◌,
}
use rust_bitcoin_node.Prelude.Partial.{◌>>=◌, ◌>>◌, assert}
use rust_bitcoin_node.Prelude.Words.{add32, sub32, mul32}
use rust_bitcoin_node.Bitcoin.{BlockHash}
use rust_bitcoin_node.Blockchain.Entry.{ChainEntry}
use rust_bitcoin_node.Blockchain.Db.{ChainDb, get_entry_by_hash, get_entry_by_height, is_main_chain}
use rust_bitcoin_node.Blockchain.Ancestor.{get_ancestor}
use rust_bitcoin_node.Blockchain.Chain.{Chain}

-- The loop of `common_ancestor`; a `none` inside is the code's `None`.
unfoldable pub meet : ℕ → ChainDb → ChainEntry → ChainEntry → Option (Option ChainEntry)
meet zero c a b = if nat_beq a.hash b.hash then some (some a) else none
meet (suc fuel) c a b =
    let rest : Option (Option ChainEntry) = elim (get_entry_by_hash c a.prev_block) [
      | none ↦ some none
      | some a' ↦ elim (get_entry_by_hash c b.prev_block) [
        | none ↦ some none
        | some b' ↦ meet fuel c a' b'
      ]
    ] in
    if nat_beq a.hash b.hash then some (some a) else rest

-- Each round goes down one block, so the height is fuel enough.
unfoldable pub common_ancestor : ChainDb → ChainEntry → ChainEntry → Option (Option ChainEntry)
common_ancestor c a b = do
  a' ← (if ltb b.height a.height then get_ancestor c a b.height else some a)
  b' ← (if ltb a.height b.height then get_ancestor c b a.height else some b)
  meet a'.height c a' b'

-- The loop of `height_to_hash_range`; the entry before the last one that is wanted is read as well.
unfoldable pub push_hashes : ChainDb → ℕ → ChainEntry → List BlockHash → Option (List BlockHash)
push_hashes c zero entry hashes = some hashes
push_hashes c (suc n) entry hashes =
    get_entry_by_hash c entry.prev_block >>= λ prev. push_hashes c n prev (entry.hash ∷ hashes)

unfoldable pub height_to_hash_range : ChainDb → ℕ → BlockHash → ℕ → Option (List BlockHash)
height_to_hash_range c start_height end_hash max_results = do
  last ← get_entry_by_hash c end_hash
  assert (ltb start_height last.height)
  let results_len = add32 (sub32 last.height start_height) 1
  assert (leb results_len max_results)
  push_hashes c results_len last []

-- The loop of `get_locator`, from the number of hashes that it has.
unfoldable pub locate : ℕ → ChainDb → ChainEntry → Bool → ℕ → ℕ → ℕ → Option (List BlockHash)
locate zero c start in_best_chain height step len = if nat_beq height 0 then some [] else none
locate (suc fuel) c start in_best_chain height step len =
    let height' = height - step in
    let step' = if ltb 10 len then mul32 step 2 else step in
    let on_main : Option (BlockHash × Bool) =
      (get_entry_by_height c height' >>= λ found. found >>= λ entry. some (entry.hash, true)) in
    let off_main : Option (BlockHash × Bool) =
      (get_ancestor c start height' >>= λ ancestor.
      some (ancestor.hash, is_main_chain c ancestor)) in
    let rest =
      ((if in_best_chain then on_main else off_main) >>= λ found.
      locate fuel c start found.1 height' step' (suc len) >>= λ hashes. some (found.0 ∷ hashes)) in
    if nat_beq height 0 then some [] else rest

-- Where the hash that it starts from is not known, that hash comes first.
unfoldable pub get_locator : Chain → Option BlockHash → Option (List BlockHash)
get_locator chain start =
    let hash : BlockHash = elim start [ none ↦ chain.tip.hash | some h ↦ h ] in
    elim (get_entry_by_hash chain.db hash) [
      | some entry ↦
          locate entry.height chain.db entry (is_main_chain chain.db entry) entry.height 1 1
          >>= λ hashes. some (entry.hash ∷ hashes)
      | none ↦
          locate chain.tip.height chain.db chain.tip (is_main_chain chain.db chain.tip)
            chain.tip.height 1 2
          >>= λ hashes. some (hash ∷ chain.tip.hash ∷ hashes)
    ]

-- The loop of `get_next_path`.
unfoldable pub push_entries :
    ℕ → ChainDb → ChainEntry → ℕ → List ChainEntry → Option (List ChainEntry)
push_entries zero c entry height entries = if ltb height entry.height then none else some entries
push_entries (suc fuel) c entry height entries =
    let rest =
      (get_entry_by_hash c entry.prev_block >>= λ prev.
      push_entries fuel c prev height (entry ∷ entries)) in
    if ltb height entry.height then rest else some entries

unfoldable pub get_next_path : ChainDb → ChainEntry → ℕ → ℕ → Option (List ChainEntry)
get_next_path c entry height limit = if nat_beq limit 0 then some [] else do
  let start = add32 height (limit % 2 ^ 32)
  from ← (if ltb start entry.height then get_ancestor c entry start else some entry)
  push_entries (from.height - height) c from height []
