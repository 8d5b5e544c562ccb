-- ===== src/Blockchain/Growth.antt =====
-- The changes of the chain in src/blockchain/chain.rs: `connect`, `disconnect`, `add_header` and
-- `add_block`, with `save_entry`, `write_block` and `get_block` of src/blockchain/chain_db.rs. The
-- listeners are left out; `none` is a panic.
use rust_bitcoin_node.Prelude.{
  ℕ, [], ◌∷◌, ◌++◌, Option, none, some, nat_beq, insert, lookup, contains, contains_key, nat_eq,
  if◌then◌else◌, not, ok, err, panic,
}
use rust_bitcoin_node.Prelude.Partial.{◌>>=◌, ◌>>◌, assert}
use rust_bitcoin_node.Bitcoin.{Library, BlockHash, BlockHeader, Block}
use rust_bitcoin_node.Errors.{invalid_pow}
use rust_bitcoin_node.Coins.{CoinView}
use rust_bitcoin_node.Primitives.Block.{Verified}
use rust_bitcoin_node.Blockchain.Entry.{ChainEntry, from_block_header, is_genesis}
use rust_bitcoin_node.Blockchain.Skip.{get_skip_height}
use rust_bitcoin_node.Blockchain.Ancestor.{get_ancestor, get_skip}
use rust_bitcoin_node.Blockchain.Disk.{
  Batch, insert_height, insert_entry, remove_chain_work, insert_chain_work, insert_next_hashes,
}
use rust_bitcoin_node.Blockchain.Db
use rust_bitcoin_node.Blockchain.Db.{
  ChainDb, get_entry_by_hash, get_next_hashes, has_header, has_block, set_invalid, update_most_work,
}
use rust_bitcoin_node.Blockchain.Connect
use rust_bitcoin_node.Blockchain.Chain.{Chain, DeploymentState, inherits_invalid}
use rust_bitcoin_node.Blockchain.Verify.{
  HeaderChecked, contextual_check_block_header, verify, verify_context,
}

-- The skip pointer is set after the entry has gone into the batch and the cache; only `most_work` gets
-- the entry that carries it.
unfoldable pub save_entry : ChainDb → ChainEntry → ChainEntry → Option ChainDb
save_entry c entry prev = do
  started ← Db.start c
  let cache = Db.push_operation started.entry_cache (Db.ChainEntryCacheOperation.insert_hash entry)
  entry' ←
      (if is_genesis entry
        then some entry
        else (get_skip started entry >>= λ skip. some (record entry { skip = skip.hash })))
  let batch : Batch =
      insert_next_hashes prev.hash (get_next_hashes started prev.hash ++ entry.hash ∷ [])
      ∷ insert_chain_work (record { work = entry.chainwork; hash = entry.hash }) entry
      ∷ remove_chain_work (record { work = prev.chainwork; hash = prev.hash })
      ∷ insert_entry entry.hash entry
      ∷ insert_height entry.hash entry.height
      ∷ []
  c' ← Db.commit (record started { entry_cache = cache }) batch
  some (update_most_work c' entry')

-- The block files keep the block that they have.
unfoldable pub write_block : ChainDb → BlockHash → Block → ChainDb
write_block c hash block = record c {
  blocks =
      if contains_key hash c.blocks.block
      then c.blocks
      else record c.blocks { block = insert hash block c.blocks.block };
  downloaded = if contains hash c.downloaded then c.downloaded else hash ∷ c.downloaded;
}

unfoldable pub get_block : ChainDb → BlockHash → Option Block
get_block c hash = lookup hash c.blocks.block

module _ ⦃lib : Library⦄ where
  -- What `connect` does with the outcome of `verify_context`.
  unfoldable pub connect_verified :
      Chain
      → ChainEntry
      → Block
      → Verified (CoinView × DeploymentState)
      → Option (Chain × Verified ChainEntry)
  connect_verified chain entry block (ok (view, state)) = do
    c ← Connect.connect chain.db entry block view
    some (record chain { db = c; height = entry.height; tip = entry; state = state }, ok entry)
  connect_verified chain entry block (err e) =
      some (record chain { db = set_invalid chain.db entry.hash }, err e)
  connect_verified chain entry block panic = none

  -- `Chain::connect`
  unfoldable pub connect :
      Chain → Block → ChainEntry → ChainEntry → Option (Chain × Verified ChainEntry)
  connect chain block entry prev = do
    assert (nat_beq block.header.prev_blockhash prev.hash)
    assert (nat_beq prev.hash chain.tip.hash)
    verified ← verify_context chain block prev
    connect_verified verified.0 entry block verified.1

  -- `Chain::disconnect`
  unfoldable pub disconnect : Chain → ChainEntry → Option Chain
  disconnect chain entry = do
    block ← get_block chain.db entry.hash
    prev ← get_entry_by_hash chain.db entry.prev_block
    taken ← Connect.disconnect chain.db entry block
    some (record chain { db = taken.0; tip = prev; height = prev.height })

  -- `add_header` once the proof of work is valid.
  unfoldable pub add_valid_header :
      ℕ → Chain → BlockHeader → Option (Chain × HeaderChecked (ChainEntry × ChainEntry))
  add_valid_header now chain header = do
    let hash = lib.block_hash header
    assert (not (inherits_invalid chain hash header.prev_blockhash).1)
    assert (not (has_header chain.db hash))
    prev ← get_entry_by_hash chain.db header.prev_blockhash
    let fresh = from_block_header header (some prev)
    entry ←
        (if is_genesis fresh
          then some fresh
          else (get_ancestor chain.db prev (get_skip_height fresh.height) >>= λ skip.
              some (record fresh { skip = skip.hash })))
    elim (contextual_check_block_header now chain header prev) [
      | ok _ ↦
          (save_entry chain.db entry prev >>= λ c. some (record chain { db = c }, ok (entry, prev)))
      | err e ↦ some (chain, err e)
      | panic ↦ none
    ]

  unfoldable pub add_header :
      ℕ → Chain → BlockHeader → Option (Chain × HeaderChecked (ChainEntry × ChainEntry))
  add_header now chain header =
      if lib.validate_pow header
      then add_valid_header now chain header
      else some (chain, err invalid_pow)

  -- `add_block`, with the entry and the one before it.
  unfoldable pub add_block :
      Chain → Block → ChainEntry → ChainEntry → Option (Chain × Verified (Unit {0}))
  add_block chain block entry prev = do
    assert (not (has_block chain.db (lib.block_hash block.header)))
    verified ← verify chain.options.network chain.db block prev
    elim verified.1 [
      | ok _ ↦ some (record chain { db = write_block verified.0 entry.hash block }, ok tt)
      | err e ↦ some (record chain { db = set_invalid verified.0 entry.hash }, err e)
      | panic ↦ none
    ]
