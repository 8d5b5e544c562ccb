-- ===== src/Blockchain/Entry.antt =====
-- src/blockchain/chain_entry.rs: a block header with its place in the chain.
use rust_bitcoin_node.Prelude.{
  ℕ, ◌-◌, ◌%◌, ◌^◌, Bool, Option, none, some, nat_beq, ◌&&◌, not, bit_and,
}
use rust_bitcoin_node.Prelude.Words.{add32}
use rust_bitcoin_node.Prelude.Int.{ℤ, pos, negsuc}
use rust_bitcoin_node.Bitcoin.{Library, BlockHash, BlockHeader, Block}
use rust_bitcoin_node.Protocol.VersionBits.{versionbits_top_bits, versionbits_top_mask}

pub record ChainEntry : Type 0 where
  pub hash : BlockHash
  pub version : ℤ
  pub prev_block : BlockHash
  pub merkle_root : ℕ
  pub time : ℕ
  pub bits : ℕ
  pub nonce : ℕ
  pub height : ℕ
  pub chainwork : ℕ
  pub skip : BlockHash

-- `ChainEntry::default()`
abbrev pub default_entry : ChainEntry
default_entry = record {
  hash = 0;
  version = pos 0;
  prev_block = 0;
  merkle_root = 0;
  time = 0;
  bits = 0;
  nonce = 0;
  height = 0;
  chainwork = 0;
  skip = 0;
}

-- The bit pattern of an i32.
abbrev pub i32_bits : ℤ → ℕ
i32_bits (pos n) = n
i32_bits (negsuc n) = 4294967295 - n

module _ ⦃lib : Library⦄ where
  unfoldable pub from_block_header : BlockHeader → Option ChainEntry → ChainEntry
  from_block_header header prev = record {
    hash = lib.block_hash header;
    version = header.version;
    prev_block = header.prev_blockhash;
    merkle_root = header.merkle_root;
    time = header.time;
    bits = header.bits;
    nonce = header.nonce;
    height = elim prev [ some entry ↦ add32 entry.height 1 | none ↦ 0 ];
    chainwork = elim prev [
      | some entry ↦ lib.u256_add entry.chainwork (lib.work header)
      | none ↦ lib.work header
    ];
    skip = 0;
  }

  unfoldable pub from_block : Block → Option ChainEntry → ChainEntry
  unfolding from_block_header
  from_block block prev = from_block_header block.header prev

unfoldable pub is_genesis : ChainEntry → Bool
is_genesis entry = nat_beq entry.height 0

-- `1 << bit` keeps the low five bits of the shift.
unfoldable pub has_bit : ChainEntry → ℕ → Bool
has_bit entry bit =
    nat_beq (bit_and (i32_bits entry.version) versionbits_top_mask) versionbits_top_bits
    && not (nat_beq (bit_and (i32_bits entry.version) (2 ^ (bit % 32))) 0)

-- `BlockHeader::from`
unfoldable pub to_header : ChainEntry → BlockHeader
to_header entry = record {
  version = entry.version;
  prev_blockhash = entry.prev_block;
  merkle_root = entry.merkle_root;
  time = entry.time;
  bits = entry.bits;
  nonce = entry.nonce;
}
