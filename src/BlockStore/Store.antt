-- ===== src/BlockStore/Store.antt =====
-- src/blockstore/mod.rs: where a block goes, writing, reading and pruning it. The index is kept by
-- RocksDB, whose failures are left out, as are those of the disk other than a file that is not there
-- or that is too short. The logging is left out, and the making of the directories by `open`.
use rust_bitcoin_node.Prelude.{
  ℕ, ◌+◌, ◌%◌, ◌^◌, Bool, true, false, List, [], ◌++◌, Option, none, some, length, lookup, insert,
  remove, contains_key, nat_eq, nat_beq, ltb, leb, if◌then◌else◌, Outcome, ok, panic, ◌>>=◌, ◌>>◌,
  ok_or, expect, assert, map, nat_eq,
}
use rust_bitcoin_node.Prelude.Words.{add32, sub32, checked_sub}
use rust_bitcoin_node.Encoding.{Codecs}
use rust_bitcoin_node.Bitcoin.{BlockHash}
use rust_bitcoin_node.BlockStore.Records.{
  FileRecord, BlockRecord, RecordType, block, undo, Key, empty, key_eq, record_type_eq,
}
use rust_bitcoin_node.BlockStore.Files.{write_at, read_at}

-- `network.magic()`, and the largest length of a file; the locations are left out.
pub record BlockStoreOptions : Type 0 where
  pub magic : ℕ
  pub max_file_length : ℕ

-- The three columns of the index, and the files.
pub record BlockStore : Type 0 where
  pub options : BlockStoreOptions
  pub last_file : List (RecordType × ℕ)
  pub file : List (Key × FileRecord)
  pub block_record : List (Key × BlockRecord)
  pub files : List (Key × List ℕ)

pub data StoreError : Type 0 where
  not_found unexpected_eof : StoreError

abbrev pub Stored : Type 0 → Type 0
Stored A = Outcome StoreError A

abbrev pub key_of : RecordType → ℕ → Key
key_of record_type number = record { record_type = record_type; number = number }

-- `BlockStoreOptions::new`
abbrev pub block_store_options : ℕ → BlockStoreOptions
block_store_options magic = record { magic = magic; max_file_length = 134217728 }

-- The number of the last file, its record, and whether the record is new.
unfoldable pub last_record : BlockStore → RecordType → ℕ × FileRecord × Bool
last_record store record_type =
    let fileno : ℕ = elim (lookup record_type store.last_file) [ none ↦ 0 | some n ↦ n ] in
    elim (lookup (key_of record_type fileno) store.file) [
      | none ↦ (fileno, empty store.options.max_file_length, true)
      | some file_record ↦ (fileno, file_record, false)
    ]

-- The next file where the last one has no room.
unfoldable pub place : BlockStore → RecordType → ℕ → ℕ × FileRecord × Bool
place store record_type length =
    let (fileno, file_record, touch) = last_record store record_type in
    if ltb file_record.length (add32 file_record.used (length % 2 ^ 32))
    then (add32 fileno 1, empty store.options.max_file_length, true)
    else (fileno, file_record, touch)

-- `File::create` truncates a file that is there.
unfoldable pub allocate :
    BlockStore → RecordType → ℕ → Stored (ℕ × FileRecord × List (Key × List ℕ))
allocate store record_type length =
    if ltb store.options.max_file_length length
    then panic
    else let (fileno, file_record, touch) = place store record_type length in
      ok (
        fileno,
        file_record,
        if touch then insert (key_of record_type fileno) [] store.files else store.files,
      )

abbrev pub magic_length : RecordType → ℕ
magic_length block = 8
magic_length undo = 40

module _ (c : Codecs) where
  -- What goes before the data.
  unfoldable pub header : BlockStore → RecordType → BlockHash → List ℕ → List ℕ
  header store record_type hash bytes =
      c.u32.encode store.options.magic
      ++ (c.u32.encode (length bytes % 2 ^ 32)
          ++ elim record_type [ block ↦ [] | undo ↦ c.hash.encode hash ])

  -- A data that the index has already is not written again.
  unfoldable pub write : BlockStore → RecordType → BlockHash → List ℕ → Stored BlockStore
  write store record_type hash bytes =
      if contains_key (key_of record_type hash) store.block_record then ok store else do
        let size = length bytes + magic_length record_type
        let magic = header store record_type hash bytes
        (fileno, file_record, files) ← allocate store record_type size
        let at = key_of record_type fileno
        content ← ok_or not_found (lookup at files)
        let written = write_at file_record.used magic content
        ok (record store {
          last_file = insert record_type fileno store.last_file;
          file =
              insert at
                (record {
                  blocks = add32 file_record.blocks 1;
                  used = add32 file_record.used (size % 2 ^ 32);
                  length = file_record.length;
                })
                store.file;
          block_record =
              insert (key_of record_type hash)
                (record {
                  file = fileno;
                  position = (file_record.used + magic_length record_type) % 2 ^ 32;
                  length = length bytes % 2 ^ 32;
                })
                store.block_record;
          files = insert at (write_at (file_record.used + length magic) bytes written) files;
        })

-- The length that `read` reads.
unfoldable pub read_length : BlockRecord → ℕ → Option ℕ → Stored ℕ
read_length block_record offset none =
    if ltb 0 offset then expect (checked_sub block_record.length offset) else ok block_record.length
read_length block_record offset (some count) = ok count

unfoldable pub read : BlockStore → RecordType → BlockHash → ℕ → Option ℕ → Stored (Option (List ℕ))
read store record_type hash offset length =
    elim (lookup (key_of record_type hash) store.block_record) [
      | none ↦ ok none
      | some block_record ↦ do
        let position = add32 block_record.position offset
        count ← read_length block_record offset length
        assert (leb (add32 offset count) block_record.length)
        content ← ok_or not_found (lookup (key_of record_type block_record.file) store.files)
        bytes ← ok_or unexpected_eof (read_at position count content)
        ok (some bytes)
    ]

-- `_prune` with the batch that it writes.
unfoldable pub prune_record : BlockStore → Key → BlockRecord → FileRecord → Stored BlockStore
prune_record store key block_record file_record =
    let at = key_of key.record_type block_record.file in
    let blocks = sub32 file_record.blocks 1 in
    let records = remove key store.block_record in
    if nat_beq blocks 0
    then (ok_or not_found (lookup at store.files) >>= λ content. ok (record store {
      file = remove at store.file;
      block_record = records;
      files = remove at store.files;
    }))
    else ok (record store {
      file = insert at (record file_record { blocks = blocks }) store.file;
      block_record = records;
    })

unfoldable pub prune : BlockStore → BlockHash → Stored (BlockStore × Bool)
prune store hash =
    let key = key_of block hash in
    elim (lookup key store.block_record) [
      | none ↦ ok (store, false)
      | some block_record ↦ elim (lookup (key_of block block_record.file) store.file) [
        | none ↦ ok (store, false)
        | some file_record ↦
            prune_record store key block_record file_record >>= λ store'. ok (store', true)
      ]
    ]

unfoldable pub has : BlockStore → BlockHash → Bool
has store hash = contains_key (key_of block hash) store.block_record

-- The hashes of all the records of the column.
unfoldable pub downloaded_set : BlockStore → List BlockHash
downloaded_set store = map (λ (entry : Key × BlockRecord). entry.0.number) store.block_record
