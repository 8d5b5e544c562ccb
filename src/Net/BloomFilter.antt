-- ===== src/Net/BloomFilter.antt =====
-- src/net/bloom_filter.rs: the filter of BIP 37. `murmur3_32` of the crate of that name is a parameter, and
-- `new`, which computes the size in floating point, is left out. `none` is a panic.
pub mod Bytes
pub mod Laws
pub mod Relevant
pub mod Found
use rust_bitcoin_node.Prelude.{
  ℕ, zero, suc, ◌+◌, ◌*◌, ◌/◌, ◌%◌, ◌^◌, Bool, true, false, List, [], ◌∷◌, Option, none, some,
  length, get_elem?, nat_beq, leb, if◌then◌else◌, bit_and, bit_or, ◌&&◌,
}
use rust_bitcoin_node.Prelude.Partial.{◌>>=◌}
use rust_bitcoin_node.Prelude.Words.{add32, mul32}

pub data BloomFlags : Type 0 where
  no_update all_outputs pubkey_only : BloomFlags

-- The message of the crate.
pub record FilterLoad : Type 0 where
  pub filter : List ℕ
  pub hash_funcs : ℕ
  pub tweak : ℕ
  pub flags : BloomFlags

-- `filter` is the source's `data`.
pub record BloomFilter : Type 0 where
  pub filter : List ℕ
  pub is_full : Bool
  pub is_empty : Bool
  pub hash_funcs : ℕ
  pub tweak : ℕ
  pub flags : BloomFlags

unfoldable pub from_filter_load : FilterLoad → BloomFilter
from_filter_load fl = record {
  filter = fl.filter;
  is_full = false;
  is_empty = false;
  hash_funcs = fl.hash_funcs;
  tweak = fl.tweak;
  flags = fl.flags;
}

unfoldable pub to_filter_load : BloomFilter → FilterLoad
to_filter_load bf = record {
  filter = bf.filter;
  hash_funcs = bf.hash_funcs;
  tweak = bf.tweak;
  flags = bf.flags;
}

abbrev pub max_bloom_filter_size : ℕ
max_bloom_filter_size = 36000

abbrev pub max_hash_funcs : ℕ
max_hash_funcs = 50

unfoldable pub is_within_size_constraints : BloomFilter → Bool
is_within_size_constraints bf =
    leb (length bf.filter) max_bloom_filter_size && leb bf.hash_funcs max_hash_funcs

unfoldable pub clear : BloomFilter → BloomFilter
clear bf = record bf { filter = []; is_full = false; is_empty = true }

unfoldable pub reset : BloomFilter → ℕ → BloomFilter
unfolding clear
reset bf tweak = record (clear bf) { tweak = tweak }

-- `data[index >> 3] & (1 << (7 & index)) == 0`
unfoldable pub is_clear : List ℕ → ℕ → Option Bool
is_clear bytes index =
    get_elem? bytes (index / 8) >>= λ byte. some (nat_beq (bit_and byte (2 ^ (index % 8))) 0)

-- `data[index >> 3] |= 1 << (7 & index)`
unfoldable pub set_byte : ℕ → ℕ → List ℕ → Option (List ℕ)
set_byte place mask [] = none
set_byte zero mask (byte ∷ bytes) = some (bit_or byte mask ∷ bytes)
set_byte (suc place) mask (byte ∷ bytes) =
    set_byte place mask bytes >>= λ bytes'. some (byte ∷ bytes')

-- Whether all bytes are 0xff, and whether all are 0.
unfoldable pub all_bytes : ℕ → List ℕ → Bool
all_bytes value [] = true
all_bytes value (byte ∷ bytes) = nat_beq byte value && all_bytes value bytes

unfoldable pub update_empty_full : BloomFilter → BloomFilter
unfolding all_bytes
update_empty_full bf = record bf {
  is_full = all_bytes 0xff bf.filter;
  is_empty = all_bytes 0 bf.filter;
}

module _ (murmur3_32 : List ℕ → ℕ → ℕ) where
  -- The remainder by zero panics.
  unfoldable pub hash : ℕ → ℕ → ℕ → List ℕ → Option ℕ
  hash len tweak hash_num key =
      if nat_beq (len * 8) 0
      then none
      else some (murmur3_32 key (add32 (mul32 hash_num 0xFBA4C795) tweak) % (len * 8))

  -- The loop of `contains`, for a number of hashes from one on.
  unfoldable pub test_bits : ℕ → ℕ → ℕ → List ℕ → List ℕ → Option Bool
  test_bits zero i tweak bytes key = some true
  test_bits (suc n) i tweak bytes key = hash (length bytes) tweak i key >>= λ index.
      is_clear bytes index >>= λ zero_bit.
      let rest = test_bits n (suc i) tweak bytes key in if zero_bit then some false else rest

  unfoldable pub contains : BloomFilter → List ℕ → Option Bool
  unfolding test_bits
  contains bf key =
      if bf.is_full
      then some true
      else if bf.is_empty
      then some false
      else test_bits bf.hash_funcs 0 bf.tweak bf.filter key

  -- The loop of `insert`.
  unfoldable pub set_bits : ℕ → ℕ → ℕ → List ℕ → List ℕ → Option (List ℕ)
  set_bits zero i tweak bytes key = some bytes
  set_bits (suc n) i tweak bytes key = hash (length bytes) tweak i key >>= λ index.
      set_byte (index / 8) (2 ^ (index % 8)) bytes >>= λ bytes'. set_bits n (suc i) tweak bytes' key

  unfoldable pub insert : BloomFilter → List ℕ → Option BloomFilter
  unfolding set_bits
  insert bf key =
      if bf.is_full
      then some bf
      else (set_bits bf.hash_funcs 0 bf.tweak bf.filter key >>= λ bytes.
          some (record bf { filter = bytes; is_empty = false }))
