-- ===== src/Net.antt =====
-- src/net: the parts that compute on what peers send.
pub mod CompactBlock
pub mod BloomFilter
