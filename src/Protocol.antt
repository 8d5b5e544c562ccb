-- ===== src/Protocol.antt =====
-- src/protocol: the rules of the network.
pub mod VersionBits
pub mod Consensus
pub mod Subsidy
pub mod TimeData
pub mod Network
