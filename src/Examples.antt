-- ===== src/Examples.antt =====
-- Concrete data, and the theorems applied to it: they can be met.
mod Setup
mod Transactions
mod Chains
mod Connecting
mod Codecs
mod Rules
mod Pool
mod Files
mod Branches
mod Best
mod Compact
mod Bloom
