-- ===== src/Examples/Bloom.antt =====
-- A filter of two bytes with two hashes.
use rust_bitcoin_node.Prelude.{
  ℕ, ◌<◌, ◌+◌, ◌≡◌, refl, true, false, arith, List, [], ◌∷◌, none, some, length, sum_of, get_elem?,
  Bool,
}
use rust_bitcoin_node.Net.BloomFilter.{
  BloomFilter, FilterLoad, all_outputs, clear, contains, from_filter_load, insert,
}
use rust_bitcoin_node.Bitcoin.{TxIn}
use rust_bitcoin_node.Examples.Setup.{small_library, spend_tx}
use rust_bitcoin_node.Net.BloomFilter.Found.{is_relevant_and_update_lem}
use rust_bitcoin_node.Net.BloomFilter.Relevant.{
  FilterLibrary, contains_hash, contains_outpoint, is_relevant_and_update,
}
use rust_bitcoin_node.Net.BloomFilter.Bytes.{AreBytes}
use rust_bitcoin_node.Net.BloomFilter.Laws.{contains-insert, insert-clear}

-- A sum stands in for the hash.
abbrev sum_hash : List ℕ → ℕ → ℕ
sum_hash bytes seed = sum_of (λ (b : ℕ). b) bytes + seed

abbrev two_bytes : BloomFilter
two_bytes = record {
  filter = 0 ∷ 3 ∷ [];
  is_full = false;
  is_empty = false;
  hash_funcs = 2;
  tweak = 5;
  flags = all_outputs;
}

contains-insert_example :
    (bf' : BloomFilter) × (insert sum_hash two_bytes (7 ∷ 9 ∷ []) ≡ some bf')
    × (contains sum_hash bf' (7 ∷ 9 ∷ []) ≡ some true)
    × ((other : List ℕ)
        → contains sum_hash two_bytes other ≡ some true
        → contains sum_hash bf' other ≡ some true)
    × AreBytes bf'.filter
    × (length bf'.filter ≡ 2)
contains-insert_example =
    contains-insert sum_hash two_bytes (7 ∷ 9 ∷ []) (omega arith) (omega arith, (omega arith, tt))

abbrev no_bytes : FilterLoad
no_bytes = record { filter = []; hash_funcs = 2; tweak = 5; flags = all_outputs }

insert-clear_example :
    (contains sum_hash (from_filter_load no_bytes) (7 ∷ []) ≡ none)
    × (insert sum_hash (from_filter_load no_bytes) (7 ∷ []) ≡ none)
    × (contains sum_hash (clear two_bytes) (7 ∷ []) ≡ some false)
    × (insert sum_hash (clear two_bytes) (7 ∷ []) ≡ none)
insert-clear_example = insert-clear sum_hash no_bytes two_bytes (7 ∷ []) refl

abbrev sum_library : FilterLibrary
sum_library = record {
  murmur3_32 = sum_hash;
  encode_outpoint = λ outpoint. outpoint.txid ∷ outpoint.vout ∷ [];
  hash_bytes = λ txid. txid ∷ [];
  is_p2pk = λ script. false;
}

is_relevant_and_update_lem_example :
    (bf' : BloomFilter) × (b : Bool) × (is_relevant_and_update sum_library two_bytes spend_tx
      ≡ some (bf', b))
    × (((0 < length bf'.filter) × AreBytes bf'.filter)
        × ((key : List ℕ)
            → contains sum_hash two_bytes key ≡ some true
            → contains sum_hash bf' key ≡ some true))
    × (contains_hash sum_library two_bytes 78 ≡ some true → b ≡ true)
    × ((i : ℕ) (input : TxIn)
        → get_elem? spend_tx.input i ≡ some input
        → contains_outpoint sum_library two_bytes input.previous_output ≡ some true
        → b ≡ true)
is_relevant_and_update_lem_example =
    is_relevant_and_update_lem sum_library two_bytes spend_tx
      (omega arith, (omega arith, (omega arith, tt)))
