-- ===== src/BlockStore.antt =====
-- src/blockstore: blocks and undo data in numbered flat files, with an index of where each lies.
pub mod Records
pub mod Files
pub mod Store
pub mod Count
pub mod Valid
pub mod Allocate
pub mod Append
pub mod Refine
pub mod Prune
pub mod Forget
pub mod Index
pub mod Overwrite
