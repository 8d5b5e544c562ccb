-- ===== src/BlockStore/Overwrite.antt =====
-- A file that `index` of src/blockstore/mod.rs finds, and the write that follows.
use mathlib.Core.Path.{subst}
use mathlib.Core.List.{append-nil}
use rust_bitcoin_node.Prelude.{
  ℕ, zero, suc, ◌+◌, ◌-◌, ◌%◌, ◌^◌, ◌≤◌, ◌<◌, ◌≡◌, ◌≢◌, refl, sym, ap, ◌∙◌, true, false, List, [],
  ◌∷◌, ◌++◌, Option, none, some, length, length-append, lookup, insert, lookup-insert, contains_key,
  arith, ltb, ok, take, drop,
}
use rust_bitcoin_node.Prelude.Words.{add32}
use rust_bitcoin_node.Encoding.{Codecs, HasWidths}
use rust_bitcoin_node.Bitcoin.{BlockHash}
use rust_bitcoin_node.BlockStore.Records.{
  FileRecord, Key, RecordType, key_beq_iff, key_eq, record_type_eq,
}
use rust_bitcoin_node.BlockStore.Files.{
  length-take, drop-past, slice-prefix, zeros, write_at, write_at-end,
}
use rust_bitcoin_node.BlockStore.Store.{
  BlockStore, allocate, header, key_of, last_record, magic_length, place, write,
}
use rust_bitcoin_node.BlockStore.Valid.{file_number}
use rust_bitcoin_node.BlockStore.Append.{header_width, magic_length-ge}
use rust_bitcoin_node.BlockStore.Index.{
  Scan, check, index, index_file, index_files, limit_lem, scan, scan_step, scan-stops,
}

-- A write over the end of a file.
write_at-over :
    (position : ℕ) (bytes content : List ℕ)
    → position ≤ length content
    → length content ≤ position + length bytes
    → write_at position bytes content ≡ take position content ++ bytes
unfolding write_at
write_at-over position bytes content low over = simp (
  slice-prefix zero position content (zeros (position - length content)) (omega arith),
  drop-past (position + length bytes) content over,
  append-nil,
)

-- A header and data, written at 4 bytes before the end of a file.
overwrites :
    (magic bytes content : List ℕ)
    → 4 ≤ length content
    → 4 ≤ length magic
    → write_at
        (length content - 4 + length magic)
        bytes
        (write_at (length content - 4) magic content)
      ≡ (take (length content - 4) content ++ magic) ++ bytes
overwrites magic bytes content long wide =
    let kept = take (length content - 4) content in
    let first : write_at (length content - 4) magic content ≡ kept ++ magic =
      write_at-over (length content - 4) magic content (omega arith) (omega arith) in
    let size : length (kept ++ magic) ≡ length content - 4 + length magic =
      omega
        (arith, length-append kept magic, length-take (length content - 4) content (omega arith)) in
    ap (write_at (length content - 4 + length magic) bytes) first
    ∙ (ap (λ p. write_at p bytes (kept ++ magic)) (sym size) ∙ write_at-end bytes (kept ++ magic))

-- The record of the last file, where the index has it.
last_record-file :
    (store : BlockStore) (record_type : RecordType) (o : Option ℕ) (f : FileRecord)
    → lookup record_type store.last_file ≡ o
    → lookup (key_of record_type (file_number o)) store.file ≡ some f
    → last_record store record_type ≡ (file_number o, f, false)
unfolding last_record
last_record-file store record_type none f last found = ground arith
last_record-file store record_type (some l) f last found = ground arith

-- `allocate` gives the last file where it has room.
allocate-last :
    (store : BlockStore) (record_type : RecordType) (size n : ℕ) (f : FileRecord)
    → last_record store record_type ≡ (n, f, false)
    → f.used + size ≤ f.length
    → f.length ≡ store.options.max_file_length
    → f.length < 2 ^ 31
    → allocate store record_type size ≡ ok (n, f, store.files)
unfolding allocate place add32
allocate-last store record_type size n f e room whole small =
    let fits : ltb store.options.max_file_length size ≡ false = ground arith in
    let enough : ltb f.length ((f.used + size % 2 ^ 32) % 2 ^ 32) ≡ false = ground arith in
    rw (fits, e, enough) refl

looked_up :
    {V : Type 0} (key : Key) (value : V) (table : List (Key × V))
    → lookup key (insert key value table) ≡ some value
looked_up key value table = ground (arith, lookup-insert key key value table, key_beq_iff key key)

module _ (c : Codecs) where
  -- The write of new data that has room in the last file.
  write-last :
      (store : BlockStore) (record_type : RecordType) (hash : BlockHash) (bytes content : List ℕ)
      (n : ℕ) (f : FileRecord)
      → file_number (lookup record_type store.last_file) ≡ n
      → lookup (key_of record_type n) store.file ≡ some f
      → lookup (key_of record_type n) store.files ≡ some content
      → contains_key (key_of record_type hash) store.block_record ≡ false
      → f.used + (length bytes + magic_length record_type) ≤ f.length
      → f.length ≡ store.options.max_file_length
      → f.length < 2 ^ 31
      → (store' : BlockStore) × (write c store record_type hash bytes ≡ ok store')
        × (lookup (key_of record_type n) store'.files
            ≡ some (
                write_at
                  (f.used + length (header c store record_type hash bytes))
                  bytes
                  (write_at f.used (header c store record_type hash bytes) content)))
  unfolding write
  write-last store record_type hash bytes content n f last found there new room whole small =
      let e : last_record store record_type ≡ (n, f, false) =
        subst
          (λ m.
            lookup (key_of record_type m) store.file ≡ some f
            → last_record store record_type ≡ (m, f, false))
          last (last_record-file store record_type (lookup record_type store.last_file) f refl)
          found in
      let alloc =
        allocate-last store record_type (length bytes + magic_length record_type) n f e room whole
          small in
      let hdr = header c store record_type hash bytes in
      let at = key_of record_type n in
      let size = length bytes + magic_length record_type in
      (
        record store {
          last_file = insert record_type n store.last_file;
          file =
              insert at
                (record {
                  blocks = add32 f.blocks 1;
                  used = add32 f.used (size % 2 ^ 32);
                  length = f.length;
                })
                store.file;
          block_record =
              insert (key_of record_type hash)
                (record {
                  file = n;
                  position = (f.used + magic_length record_type) % 2 ^ 32;
                  length = length bytes % 2 ^ 32;
                })
                store.block_record;
          files =
              insert at (write_at (f.used + length hdr) bytes (write_at f.used hdr content))
                store.files;
        },
        rw (new, alloc, there) refl,
        looked_up at (write_at (f.used + length hdr) bytes (write_at f.used hdr content))
            store.files,
      )

  module _ (widths : HasWidths c) (hash_header hash_of_slice : List ℕ → BlockHash) where
    scan-first :
        (fuel : ℕ) (record_type : RecordType) (magic fileno : ℕ) (bytes : List ℕ) (start s : Scan)
        → 4 ≤ length bytes
        → length bytes < 2 ^ 32
        → start.position < length bytes - 4
        → scan_step c hash_header hash_of_slice record_type magic fileno bytes start ≡ ok s
        → s.position ≤ length bytes - 4
        → length bytes ≤ fuel
        → ((q : ℕ)
            → s.position ≤ q
            → q < length bytes - 4
            → (found : ℕ × List ℕ) × (c.u32.decode (drop q bytes) ≡ some found) × (found.0 ≢ magic))
        → scan c hash_header hash_of_slice fuel record_type magic fileno bytes start
          ≡ ok (record s { position = length bytes - 4 })
    unfolding scan
    scan-first zero record_type magic fileno bytes start s long short before step low enough
          no_magic =
        absurd (omega arith)
    scan-first (suc fuel) record_type magic fileno bytes start s long short before step low enough
          no_magic =
        let rest =
          scan-stops c hash_header hash_of_slice fuel record_type magic fileno bytes s long short
            low (omega arith) no_magic in
        ground (arith, limit_lem (length bytes) long short)

    index_file-short :
        (store : BlockStore) (record_type : RecordType) (n : ℕ) (bytes : List ℕ) (s : Scan)
        → lookup (key_of record_type n) store.files ≡ some bytes
        → 4 < length bytes
        → length bytes < 2 ^ 32
        → scan_step c hash_header hash_of_slice record_type store.options.magic n bytes
            (record { position = 0; blocks = 0; records = store.block_record })
          ≡ ok s
        → s.position ≤ length bytes - 4
        → ((q : ℕ)
            → s.position ≤ q
            → q < length bytes - 4
            → (found : ℕ × List ℕ) × (c.u32.decode (drop q bytes) ≡ some found)
              × (found.0 ≢ store.options.magic))
        → index_file c hash_header hash_of_slice store record_type n
          ≡ ok (record store {
            file =
                insert
                  (key_of record_type n)
                  (record {
                    blocks = s.blocks;
                    used = length bytes - 4;
                    length = store.options.max_file_length;
                  })
                  store.file;
            block_record = s.records;
          })
    unfolding index_file
    index_file-short store record_type n bytes s there long short step low no_magic =
        let scanned =
          scan-first (length bytes) record_type store.options.magic n bytes
            (record { position = 0; blocks = 0; records = store.block_record }) s (omega arith)
            short (omega arith) step low (omega arith) no_magic in
        let small : (length bytes - 4) % 2 ^ 32 ≡ length bytes - 4 = omega arith in
        rw (there, scanned, small) refl

    -- For a file of more than 4 bytes that `index` finds as the only one, the one that `write` goes on with,
    -- and encodings of the widths of the format: where its first record can be read, and no magic number
    -- follows in it, `index` takes the last 4 bytes of the file for free, and a write of new data that has
    -- room, files being shorter than 2 ^ 31, puts its header over them.
    pub write-index :
        (store : BlockStore) (record_type : RecordType) (n : ℕ) (bytes : List ℕ) (s : Scan)
        (hash : BlockHash) (added : List ℕ)
        → check store record_type ≡ (true, n ∷ [])
        → file_number (lookup record_type store.last_file) ≡ n
        → lookup (key_of record_type n) store.files ≡ some bytes
        → 4 < length bytes
        → scan_step c hash_header hash_of_slice record_type store.options.magic n bytes
            (record { position = 0; blocks = 0; records = store.block_record })
          ≡ ok s
        → s.position ≤ length bytes - 4
        → ((q : ℕ)
            → s.position ≤ q
            → q < length bytes - 4
            → (found : ℕ × List ℕ) × (c.u32.decode (drop q bytes) ≡ some found)
              × (found.0 ≢ store.options.magic))
        → contains_key (key_of record_type hash) s.records ≡ false
        → length bytes + length added + magic_length record_type ≤ store.options.max_file_length
        → store.options.max_file_length < 2 ^ 31
        → (indexed written : BlockStore) × (index c hash_header hash_of_slice store record_type
            ≡ ok indexed)
          × (lookup (key_of record_type n) indexed.file
              ≡ some (record {
                blocks = s.blocks;
                used = length bytes - 4;
                length = store.options.max_file_length;
              }))
          × (write c indexed record_type hash added ≡ ok written)
          × (lookup (key_of record_type n) written.files
              ≡ some (
                  (take (length bytes - 4) bytes ++ header c store record_type hash added)
                  ++ added))
    unfolding index index_files header
    write-index store record_type n bytes s hash added checked last there long step low no_magic new
          room small =
        let f : FileRecord = record {
          blocks = s.blocks;
          used = length bytes - 4;
          length = store.options.max_file_length;
        } in
        let indexed : BlockStore = record store {
          file = insert (key_of record_type n) f store.file;
          block_record = s.records;
        } in
        let found = looked_up (key_of record_type n) f store.file in
        let done =
          index_file-short store record_type n bytes s there long (omega arith) step low no_magic in
        let (written, run, after) =
          write-last indexed record_type hash added bytes n f last found there new (omega arith)
            refl small in
        let width = header_width c widths store record_type hash added in
        (
          indexed,
          written,
          rw (checked, done) refl,
          found,
          run,
          after
              ∙ ap some (
                  overwrites (header c store record_type hash added) added bytes (omega arith)
                    (omega (arith, magic_length-ge record_type))),
        )
