-- ===== src/Blockchain/Db.antt =====
-- `ChainDB` of src/blockchain/chain_db.rs: the entries in memory, the state, and the batch that
-- makes a change of all of them atomic. `none` is a panic.
use rust_bitcoin_node.Prelude.{
  ℕ, Bool, false, List, [], ◌∷◌, Option, none, some, insert, remove, lookup, contains, contains_key,
  nat_eq, nat_beq, ltb, if◌then◌else◌, ◌&&◌,
}
use rust_bitcoin_node.Bitcoin.{BlockHash, Block, OutPoint, outpoint_eq}
use rust_bitcoin_node.Coins.{CoinEntry, UndoCoins}
use rust_bitcoin_node.Blockchain.Entry.{ChainEntry}
use rust_bitcoin_node.Blockchain.State.{ChainState}
use rust_bitcoin_node.Blockchain.Disk.{Disk, Batch, write_batch}
use rust_bitcoin_node.Blockchain.VersionBitsCache
use rust_bitcoin_node.Blockchain.VersionBitsCache.{VersionBitsCache}

pub data ChainEntryCacheOperation : Type 0 where
  insert_hash : ChainEntry → ChainEntryCacheOperation
  insert_height : ChainEntry → ChainEntryCacheOperation
  remove_height : ℕ → ChainEntryCacheOperation

-- The last operation of the batch is its head.
pub record ChainEntryCache : Type 0 where
  pub height : List (ℕ × BlockHash)
  pub hash : List (BlockHash × ChainEntry)
  pub batch : List ChainEntryCacheOperation

-- `insert_height_batch`, `insert_hash_batch` and `remove_height_batch` push one operation.
unfoldable pub push_operation : ChainEntryCache → ChainEntryCacheOperation → ChainEntryCache
push_operation cache operation = record cache { batch = operation ∷ cache.batch }

unfoldable pub apply_cache_operation : ChainEntryCacheOperation → ChainEntryCache → ChainEntryCache
apply_cache_operation (insert_hash entry) cache = record cache {
  hash = insert entry.hash entry cache.hash;
}
apply_cache_operation (insert_height entry) cache = record cache {
  height = insert entry.height entry.hash cache.height;
}
apply_cache_operation (remove_height height) cache = record cache {
  height = remove height cache.height;
}

unfoldable pub apply_cache_operations :
    List ChainEntryCacheOperation → ChainEntryCache → ChainEntryCache
unfolding apply_cache_operation
apply_cache_operations [] cache = cache
apply_cache_operations (o ∷ os) cache = apply_cache_operation o (apply_cache_operations os cache)

-- `write_batch`, which drains the batch, and `clear_batch`.
unfoldable pub write_cache : ChainEntryCache → ChainEntryCache
unfolding apply_cache_operations
write_cache cache = record (apply_cache_operations cache.batch cache) { batch = [] }

unfoldable pub clear_cache : ChainEntryCache → ChainEntryCache
clear_cache cache = record cache { batch = [] }

-- The block files are seen through what they give back: `undo` is what `read_undo` finds.
pub record BlockFiles : Type 0 where
  pub block : List (BlockHash × Block)
  pub undo : List (BlockHash × UndoCoins)

pub record ChainDb : Type 0 where
  pub entry_cache : ChainEntryCache
  pub state : ChainState
  pub db : Disk
  pub pending : Option ChainState
  pub invalid : List BlockHash
  pub most_work : Option ChainEntry
  pub blocks : BlockFiles
  pub version_bits_cache : VersionBitsCache
  pub downloaded : List BlockHash

unfoldable pub get_entry_by_hash : ChainDb → BlockHash → Option ChainEntry
get_entry_by_hash c hash = lookup hash c.entry_cache.hash

-- The outer `none` is the panic of the index `hash[hash]`.
unfoldable pub get_entry_by_height : ChainDb → ℕ → Option (Option ChainEntry)
get_entry_by_height c height = elim (lookup height c.entry_cache.height) [
  | none ↦ some none
  | some hash ↦ elim (lookup hash c.entry_cache.hash) [
    | none ↦ none
    | some entry ↦ some (some entry)
  ]
]

unfoldable pub get_tip : ChainDb → Option ChainEntry
unfolding get_entry_by_hash
get_tip c = get_entry_by_hash c c.state.tip

unfoldable pub is_main_chain : ChainDb → ChainEntry → Bool
is_main_chain c entry = elim (lookup entry.height c.entry_cache.height) [
  | some main_entry_hash ↦ nat_beq main_entry_hash entry.hash
  | none ↦ false
]

unfoldable pub is_main_hash : ChainDb → BlockHash → Bool
unfolding get_entry_by_hash is_main_chain
is_main_hash c hash = elim (get_entry_by_hash c hash) [
  | none ↦ false
  | some entry ↦ is_main_chain c entry
]

unfoldable pub has_block : ChainDb → BlockHash → Bool
has_block c hash = contains hash c.downloaded

unfoldable pub has_invalid : ChainDb → BlockHash → Bool
has_invalid c hash = contains hash c.invalid

unfoldable pub set_invalid : ChainDb → BlockHash → ChainDb
set_invalid c hash = record c {
  invalid = if contains hash c.invalid then c.invalid else hash ∷ c.invalid;
}

unfoldable pub has_header : ChainDb → BlockHash → Bool
has_header c hash = contains_key hash c.entry_cache.hash

unfoldable pub read_coin : ChainDb → OutPoint → Option CoinEntry
read_coin c prevout = lookup prevout c.db.coin

unfoldable pub get_next_hashes : ChainDb → BlockHash → List BlockHash
get_next_hashes c hash = elim (lookup hash c.db.next_hashes) [ none ↦ [] | some hashes ↦ hashes ]

-- `start`: no other change may be pending.
unfoldable pub start : ChainDb → Option ChainDb
unfolding clear_cache
start c = elim c.pending [
  | none ↦ some (record c { pending = some c.state; entry_cache = clear_cache c.entry_cache })
  | some _ ↦ none
]

-- `commit`, where the batch is written.
unfoldable pub commit : ChainDb → Batch → Option ChainDb
unfolding write_cache
commit c batch = elim c.pending [
  | none ↦ none
  | some pending ↦ some (record c {
    pending = none;
    db = write_batch batch c.db;
    state = if pending.commited then pending else c.state;
    entry_cache = write_cache c.entry_cache;
    version_bits_cache = VersionBitsCache.commit c.version_bits_cache;
  })
]

-- `drop`, after an error.
unfoldable pub drop_pending : ChainDb → Option ChainDb
unfolding clear_cache
drop_pending c = elim c.pending [
  | none ↦ none
  | some _ ↦ some (record c {
    pending = none;
    entry_cache = clear_cache c.entry_cache;
    version_bits_cache = VersionBitsCache.drop_updates c.version_bits_cache;
  })
]

-- `update_most_work`: on equal work the larger hash wins.
unfoldable pub update_most_work : ChainDb → ChainEntry → ChainDb
update_most_work c entry = elim c.most_work [
  | none ↦ record c { most_work = some entry }
  | some most_work ↦
      if ltb most_work.chainwork entry.chainwork
      then record c { most_work = some entry }
      else if nat_beq entry.chainwork most_work.chainwork && ltb most_work.hash entry.hash
      then record c { most_work = some entry }
      else c
]
