-- ===== src/Lib.antt =====
-- A verification library for rust-bitcoin-node: the part of the node that decides which blocks and
-- transactions are valid and that keeps the chain and its coins, as functions that can be run, with the
-- theorems that make it correct.
--
-- The program's parts and the modules that model them:
--   * src/coins: a coin (`CoinEntry`), the view of the coins that a block touches (`CoinView`) and the
--     coins that it spent (`UndoCoins`) are in Coins, their encodings in Coins.Encoding. What the
--     operations do to the coins that can be spent is in Coins.Laws.
--   * src/protocol: Protocol.Consensus (consensus.rs), Protocol.Network (network.rs),
--     Protocol.VersionBits (version_bits.rs), Protocol.TimeData (timedata.rs). Protocol.Subsidy sums the
--     subsidies.
--   * src/primitives: Primitives.Script (script.rs), Primitives.Tx and Primitives.Scripts (tx.rs),
--     Primitives.Block (block.rs). `get_p2sh_sig_op_count` and `get_witness_sig_op_count` of a
--     transaction are `get_p2sh_sig_ops` and `get_witness_sig_ops`.
--   * src/blockchain/chain_entry.rs is Blockchain.Entry.
--   * src/blockchain/chain_db.rs: Blockchain.Db (the record `ChainDb`, its lookups, `start`, `commit`,
--     `drop`), Blockchain.State (`ChainState`), Blockchain.Disk (the columns, with src/db/batch.rs and
--     src/db/disk.rs), Blockchain.VersionBitsCache, Blockchain.Skip, Blockchain.Ancestor and
--     Blockchain.Connect (`connect`, `disconnect`, `save_view`). Blockchain.Roundtrip and
--     Blockchain.Reorg are about connecting a block and taking it off again, Blockchain.Lifecycle about a
--     block that was verified before.
--   * src/blockchain/chain.rs: Blockchain.Chain (the record `Chain`, `DeploymentState`), Blockchain.Time
--     (`get_median_time`), Blockchain.Difficulty (`get_target`, `retarget`), Blockchain.Deployments
--     (`get_deployment_status`, `get_deployments`, `compute_block_version`), Blockchain.Locks
--     (`get_locks`, `verify_locks`, `verify_final`), Blockchain.Inputs (`verify_inputs`),
--     Blockchain.Verify (`contextual_check_block_header`, `verify`, `verify_duplicates`,
--     `verify_context`), Blockchain.Growth (`connect`, `disconnect`, `add_header`, `add_block`),
--     Blockchain.Branches (`common_ancestor`, `height_to_hash_range`, `get_locator`, and `get_next_path`
--     of chain_db.rs) and Blockchain.Best (`get_next_best`, `connect_best`, `attach`, `add`).
--   * src/mempool (its two files are the same) is Mempool, and Mempool.Eviction for `add_block` with
--     what it removes. Mempool.Removes is about the removals.
--   * src/blockstore: BlockStore.Records (records.rs, db.rs), BlockStore.Store (mod.rs: `allocate`,
--     `write`, `read`, `prune`, `has`, `downloaded_set`) and BlockStore.Index (`check`, `index`) over
--     BlockStore.Files, the files as bytes.
--     BlockStore.Valid says when the index agrees with the files; BlockStore.Allocate, BlockStore.Append,
--     BlockStore.Count and BlockStore.Prune prove what the operations keep, and BlockStore.Overwrite is
--     about a write after `index`.
--   * src/net/compact_block.rs is Net.CompactBlock, with Slots, Complete, Assign, Fresh and
--     Request about it.
--   * src/net/bloom_filter.rs is Net.BloomFilter (`data` is `filter`) and its child Relevant
--     (`is_relevant_and_update`), with Bytes, Laws and Found about them.
--   * src/error/mod.rs is Errors. `BlockVerificationError::BadSigops` is `bad_block_sigops`.
--
-- A block comes in through `add` of Blockchain.Best, that is by `add_header` and `add_block` of
-- Blockchain.Growth, which call the checks of Blockchain.Verify, and then `connect_best`; `connect` of
-- Blockchain.Growth verifies it on the coins of the database, which gives a view, and
-- `ChainDB::connect` of Blockchain.Connect writes the view to the database and its undo list to the block
-- files. `disconnect` reads the undo list and brings the coins back. The chain's own modules see the block
-- files through what they give back (`BlockFiles` of Blockchain.Db); the files themselves are BlockStore.
--
-- The crates are parameters: `Library` of Bitcoin for the functions of the crates bitcoin and
-- bitcoinconsensus, `Codecs` of Encoding for the encodings of the crate bitcoin, whose documented round
-- trips are the hypothesis `IsLawful`. The clock is an argument.
--
-- A call that can fail gives an `Outcome`: a value, an error, or a panic. Where there is no error, or none
-- but those of the disk, it gives an `Option`, and `none` is a panic. Machine words are native numbers with
-- their wrap-around written out (Prelude.Words), as in a release build; counts of signature operations and
-- sizes (usize) do not wrap. Hash maps are association lists (Prelude.Maps) and sets of bit flags lists of
-- positions. Hashes are numbers.
--
-- Loops that follow hashes run on fuel: `walk` on the distance of the heights, `collect` and
-- `skip_min_difficulty` on one more than the height of the entry. Each round of them lowers the height by
-- at least one in a database that links its entries (`IsLinked` of Blockchain.Ancestor.Laws). So does each
-- round of `down_to_main` and of `rewind`, and `next_best` goes up by one: the fuel of `connect_best` is
-- enough from 2 ^ 31, above all heights. `rewind`, `connect_best` and what calls it tell the end of the
-- fuel, `none`, from a panic while blocks go off or on, `some none`.
--
-- Not modelled: the disk's failures, other than a file that is not there or too short; `new` of the bloom
-- filter, which computes in floating point; the rest of src/net, src/indexers, src/mining, and the start of
-- the program; of chain.rs the listeners, and `is_recent` and `synced`, which read the clock; of chain_db.rs
-- `open` and `save_genesis`; the DNS seeds of a network.
--
-- Examples holds concrete data and the theorems applied to it.
pub mod Prelude
pub mod Bitcoin
pub mod BlockStore
pub mod Errors
pub mod Encoding
pub mod Coins
pub mod Protocol
pub mod Blockchain
pub mod Primitives
pub mod Mempool
pub mod Net
pub mod Examples
