-- ===== src/Primitives.antt =====
-- src/primitives: what the repository adds to the crate's scripts, transactions and blocks.
pub mod Script
pub mod Tx
pub mod Block
pub mod Scripts
