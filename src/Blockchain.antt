-- ===== src/Blockchain.antt =====
-- src/blockchain: the chain of block headers, its database and the rules that extend it.
pub mod Entry
pub mod State
pub mod Disk
pub mod VersionBitsCache
pub mod Db
pub mod Connect
pub mod Roundtrip
pub mod Reorg
pub mod Skip
pub mod Time
pub mod Ancestor
pub mod Chain
pub mod Difficulty
pub mod Deployments
pub mod Locks
pub mod Inputs
pub mod Verify
pub mod Growth
pub mod Branches
pub mod Best
pub mod Lifecycle
