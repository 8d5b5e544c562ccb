-- ===== src/Examples/Files.antt =====
-- A store with one block and its undo data, and codecs of the widths that the format has.
use mathlib.Core.Path.{subst}
use rust_bitcoin_node.Prelude.{
  ◌≤◌, ◌≢◌, ℕ, zero, suc, ◌+◌, ◌*◌, ◌/◌, ◌%◌, ◌^◌, ◌<◌, ◌≡◌, refl, true, false, List, [], ◌∷◌, ◌++◌,
  Option, none, some, arith, length, lookup, lookup-All, insert, contains, ok, if◌then◌else◌, leb,
  take, drop, panic, nat_eq, contains_key, Bool-cases, inl, inr, nat_beq, nat_beq_iff, sym,
}
use rust_bitcoin_node.Prelude.Words.{add32}
use rust_bitcoin_node.BlockStore.Files.{zeros}
use rust_bitcoin_node.Encoding.{Codec, Codecs, HasWidths}
use rust_bitcoin_node.BlockStore.Records.{
  BlockRecord, FileRecord, decode-encode, decode_block, decode_file, encode_block, encode_file, Key,
  block, undo, key_beq, key_eq, record_type_eq,
}
use rust_bitcoin_node.BlockStore.Store.{
  BlockStore, downloaded_set, has, header, key_of, prune, read, write, Stored,
}
use rust_bitcoin_node.BlockStore.Index.{Scan, check, file_numbers, index, scan_record, scan_step}
use rust_bitcoin_node.BlockStore.Overwrite.{write-index}
use rust_bitcoin_node.BlockStore.Valid.{HasNext, file_number, IsFilled, IsPlaced, IsValid}
use rust_bitcoin_node.BlockStore.Append.{contents}
use rust_bitcoin_node.BlockStore.Refine.{put_once, read_lem, write_lem}
use rust_bitcoin_node.BlockStore.Forget.{downloaded_set-prune, prune_lem}
use rust_bitcoin_node.Examples.Codecs.{small_codecs, small_codecs-IsLawful}

-- Four bytes, the lowest first.
abbrev bytes_of : ℕ → List ℕ
bytes_of n = (n % 256) ∷ ((n / 256) % 256) ∷ ((n / 65536) % 256) ∷ ((n / 16777216) % 256) ∷ []

abbrev of_bytes : List ℕ → Option (ℕ × List ℕ)
of_bytes (a ∷ b ∷ c ∷ d ∷ rest) = some (a + 256 * b + 65536 * c + 16777216 * d, rest)
of_bytes bytes = none

abbrev pub u32_codec : Codec ℕ
u32_codec = record { encode = bytes_of; decode = of_bytes }

-- Only the lowest bytes of a hash are kept here.
abbrev hash_bytes : ℕ → List ℕ
hash_bytes n =
    bytes_of n
    ++ bytes_of 0
    ++ bytes_of 0
    ++ bytes_of 0
    ++ bytes_of 0
    ++ bytes_of 0
    ++ bytes_of 0
    ++ bytes_of 0

abbrev wide_codecs : Codecs
wide_codecs = record small_codecs {
  u32 = u32_codec;
  hash = record { encode = hash_bytes; decode = λ d. none };
}

wide_codecs-HasWidths : HasWidths wide_codecs
wide_codecs-HasWidths = record { u32_width = λ n. refl; hash_width = λ n. refl }

abbrev undo_bytes : List ℕ
undo_bytes = bytes_of 7 ++ bytes_of 1 ++ hash_bytes 11 ++ (9 ∷ [])

abbrev one_store : BlockStore
one_store = record {
  options = record { magic = 7; max_file_length = 100 };
  last_file = (block, 0) ∷ (undo, 0) ∷ [];
  file =
      (key_of block 0, record { blocks = 1; used = 10; length = 100 })
      ∷ (key_of undo 0, record { blocks = 1; used = 41; length = 100 })
      ∷ [];
  block_record =
      (key_of block 11, record { file = 0; position = 8; length = 2 })
      ∷ (key_of undo 11, record { file = 0; position = 40; length = 1 })
      ∷ [];
  files =
      (key_of block 0, bytes_of 7 ++ bytes_of 2 ++ (1 ∷ 2 ∷ [])) ∷ (key_of undo 0, undo_bytes) ∷ [];
}

one_store-IsPlaced :
    (key : Key) (r : BlockRecord)
    → lookup key one_store.block_record ≡ some r
    → IsPlaced one_store key r
unfolding lookup
one_store-IsPlaced key r found =
    lookup-All (IsPlaced one_store) key r one_store.block_record
      (
        record {
          file_record = record { blocks = 1; used = 10; length = 100 };
          found = refl;
          within = omega arith;
          last = 0;
          last_found = refl;
          not_after = omega arith;
        },
        (
          record {
            file_record = record { blocks = 1; used = 41; length = 100 };
            found = refl;
            within = omega arith;
            last = 0;
            last_found = refl;
            not_after = omega arith;
          },
          tt,
        ),
      )
      found

one_store-IsFilled :
    (at : Key) (f : FileRecord) → lookup at one_store.file ≡ some f → IsFilled one_store at f
unfolding lookup rust_bitcoin_node.BlockStore.Count.count
one_store-IsFilled at f found =
    lookup-All (IsFilled one_store) at f one_store.file
      (
        record {
          bounded = refl;
          fits = omega arith;
          content = bytes_of 7 ++ bytes_of 2 ++ (1 ∷ 2 ∷ []);
          content_found = refl;
          whole = refl;
          few = omega arith;
          counted = refl;
        },
        (
          record {
            bounded = refl;
            fits = omega arith;
            content = undo_bytes;
            content_found = refl;
            whole = refl;
            few = omega arith;
            counted = refl;
          },
          tt,
        ),
      )
      found

one_store-IsValid : IsValid one_store
unfolding lookup
one_store-IsValid = record {
  small = omega arith;
  placed = one_store-IsPlaced;
  filled = one_store-IsFilled;
  distinct = (refl, (refl, tt));
}

one_store-HasNext : HasNext one_store block
unfolding lookup
one_store-HasNext last found = ground arith

abbrev next_bytes : List ℕ
next_bytes = 3 ∷ 4 ∷ 5 ∷ []

write_lem_example :
    (store' : BlockStore) × (write wide_codecs one_store block 12 next_bytes ≡ ok store')
    × IsValid store'
    × ((other : Key)
        → contents store' other ≡ put_once (key_of block 12) next_bytes (contents one_store) other)
write_lem_example =
    write_lem wide_codecs wide_codecs-HasWidths one_store block 12 next_bytes one_store-IsValid
      (omega arith) one_store-HasNext

one_store-contents : contents one_store (key_of block 11) ≡ some (1 ∷ 2 ∷ [])
unfolding contents lookup rust_bitcoin_node.BlockStore.Files.read_at
one_store-contents = refl

read_lem_example : read one_store block 11 1 (some 1) ≡ ok (some (2 ∷ []))
read_lem_example =
    read_lem one_store block 11 1 1 (1 ∷ 2 ∷ []) one_store-IsValid one_store-contents (omega arith)

prune_lem_example :
    (store' : BlockStore) × (prune one_store 11 ≡ ok (store', has one_store 11))
    × (IsValid store'
        × ((other : Key)
            → contents store' other
              ≡ (if key_beq (key_of block 11) other then none else contents one_store other)))
prune_lem_example = prune_lem one_store one_store-IsValid 11

abbrev pruned_store : BlockStore
pruned_store = record one_store {
  file = (key_of undo 0, record { blocks = 1; used = 41; length = 100 }) ∷ [];
  block_record = (key_of undo 11, record { file = 0; position = 40; length = 1 }) ∷ [];
  files = (key_of undo 0, undo_bytes) ∷ [];
}

one_store-pruned : prune one_store 11 ≡ ok (pruned_store, true)
unfolding lookup rust_bitcoin_node.Prelude.remove prune
    rust_bitcoin_node.BlockStore.Store.prune_record rust_bitcoin_node.Prelude.Words.sub32
one_store-pruned = refl

downloaded_set-prune_example :
    (has pruned_store 11 ≡ false) × (contains 11 (downloaded_set pruned_store) ≡ true)
unfolding lookup
downloaded_set-prune_example =
    downloaded_set-prune one_store pruned_store 11 (record { file = 0; position = 8; length = 2 })
      (record { file = 0; position = 40; length = 1 }) refl refl one_store-pruned

abbrev file_record : FileRecord
file_record = record { blocks = 1; used = 10; length = 100 }

abbrev block_record : BlockRecord
block_record = record { file = 0; position = 8; length = 2 }

decode-encode_example :
    (decode_file small_codecs (encode_file small_codecs file_record ++ 5 ∷ [])
      ≡ some (file_record, 5 ∷ []))
    × (decode_block small_codecs (encode_block small_codecs block_record ++ 5 ∷ [])
        ≡ some (block_record, 5 ∷ []))
decode-encode_example =
    decode-encode small_codecs small_codecs-IsLawful file_record block_record (5 ∷ []) (omega arith)
      (omega arith)

-- A file of one block of 86 bytes that the index does not have.
abbrev block_file : List ℕ
block_file = bytes_of 7 ++ bytes_of 86 ++ zeros 80 ++ (1 ∷ 2 ∷ 3 ∷ 4 ∷ 5 ∷ 6 ∷ [])

abbrev lost_store : BlockStore
lost_store = record one_store {
  options = record { magic = 7; max_file_length = 200 };
  last_file = [];
  file = [];
  block_record = [];
  files = (key_of block 0, block_file) ∷ [];
}

abbrev scanned : Scan
scanned = record {
  position = 88;
  blocks = 1;
  records = (key_of block 11, record { file = 0; position = 8; length = 86 }) ∷ [];
}

lost_store-check : check lost_store block ≡ (true, 0 ∷ [])
unfolding check file_numbers contains_key lookup
lost_store-check = refl

lost_store-step :
    scan_step wide_codecs
      (λ bytes. 11)
      (λ bytes. 11)
      block
      7
      0
      block_file
      (record { position = 0; blocks = 0; records = [] })
    ≡ ok scanned
unfolding scan_step scan_record add32 insert
lost_store-step = refl

abbrev AtPlace : ℕ → Type 0
AtPlace q =
    (found : ℕ × List ℕ) × (u32_codec.decode (drop q block_file) ≡ some found) × (found.0 ≢ 7)

lost_store-last : file_number (lookup block lost_store.last_file) ≡ 0
unfolding lookup
lost_store-last = refl

lost_store-file : lookup (key_of block 0) lost_store.files ≡ some block_file
unfolding lookup
lost_store-file = refl

scanned-new : contains_key (key_of block 12) scanned.records ≡ false
unfolding contains_key lookup
scanned-new = refl

block_file-no_magic :
    (q : ℕ)
    → 88 ≤ q
    → q < 90
    → (found : ℕ × List ℕ) × (u32_codec.decode (drop q block_file) ≡ some found) × (found.0 ≢ 7)
block_file-no_magic q from to = elim (Bool-cases (nat_beq q 88)) [
  | inl here ↦ subst AtPlace (sym ((nat_beq_iff q 88).0 here)) (_, refl, λ h. absurd (omega arith))
  | inr next ↦
      let there : q ≡ 89 = ground (arith, nat_beq_iff q 88) in
      subst AtPlace (sym there) (_, refl, λ h. absurd (omega arith))
]

write-index_example :
    (indexed written : BlockStore) × (index wide_codecs (λ bytes. 11) (λ bytes. 11) lost_store block
      ≡ ok indexed)
    × (lookup (key_of block 0) indexed.file ≡ some (record { blocks = 1; used = 90; length = 200 }))
    × (write wide_codecs indexed block 12 (9 ∷ []) ≡ ok written)
    × (lookup (key_of block 0) written.files
        ≡ some
            ((take 90 block_file ++ header wide_codecs lost_store block 12 (9 ∷ [])) ++ (9 ∷ [])))
write-index_example =
    write-index wide_codecs wide_codecs-HasWidths (λ bytes. 11) (λ bytes. 11) lost_store block 0
      block_file scanned 12 (9 ∷ []) lost_store-check lost_store-last lost_store-file (omega arith)
      lost_store-step (omega arith) block_file-no_magic scanned-new (omega arith) (omega arith)
