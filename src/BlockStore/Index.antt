-- ===== src/BlockStore/Index.antt =====
-- `check` and `index` of src/blockstore/mod.rs: the index rebuilt from the files, where a file is there
-- that the index does not have. The hash of a header and the hash that 32 bytes make are parameters, of
-- the crate. The names of the files are those that `filepath` gives, of numbers of five digits.
use rust_bitcoin_node.Prelude.{
  ℕ, zero, suc, ◌+◌, ◌-◌, ◌%◌, ◌^◌, ◌≤◌, ◌<◌, ◌≡◌, ◌≢◌, Bool, false, List, [], ◌∷◌, some, length,
  insert, contains_key, nat_beq, nat_beq_iff, ltb, if◌then◌else◌, any, not, ok, err, panic, ◌>>=◌,
  expect, take, drop, arith, Bool-cases, inl, inr, lookup, ok_or,
}
use rust_bitcoin_node.Prelude.Words.{add32, sub64}
use rust_bitcoin_node.Encoding.{Codecs}
use rust_bitcoin_node.Bitcoin.{BlockHash}
use rust_bitcoin_node.BlockStore.Records.{
  BlockRecord, Key, RecordType, block, undo, key_eq, record_type_beq,
}
use rust_bitcoin_node.BlockStore.Store.{BlockStore, Stored, key_of, not_found, unexpected_eof}

-- The numbers of the files of a record type.
unfoldable pub file_numbers : RecordType → List (Key × List ℕ) → List ℕ
file_numbers record_type [] = []
file_numbers record_type ((key, bytes) ∷ files) =
    if record_type_beq key.record_type record_type
    then key.number ∷ file_numbers record_type files
    else file_numbers record_type files

unfoldable pub check : BlockStore → RecordType → Bool × List ℕ
unfolding file_numbers
check store record_type =
    let filenos = file_numbers record_type store.files in
    (any (λ (n : ℕ). not (contains_key (key_of record_type n) store.file)) filenos, filenos)

-- The reader's position, the blocks so far, and the records with those that the batch adds.
pub record Scan : Type 0 where
  pub position : ℕ
  pub blocks : ℕ
  pub records : List (Key × BlockRecord)

pub limit_lem : (n : ℕ) → 4 ≤ n → n < 2 ^ 32 → sub64 n 4 ≡ n - 4
unfolding sub64
limit_lem n long short = omega arith

module _ (c : Codecs) (hash_header hash_of_slice : List ℕ → BlockHash) where
  -- A record whose magic and length were read.
  unfoldable pub scan_record : RecordType → ℕ → List ℕ → ℕ → Scan → Stored Scan
  scan_record block fileno bytes size s =
      let position = s.position + 8 in
      if ltb (length bytes) (position + 80)
      then ok (record s { position = position })
      else ok (record {
        position = position + 80;
        blocks = add32 s.blocks 1;
        records =
            insert (key_of block (hash_header (take 80 (drop position bytes))))
              (record { file = fileno; position = position % 2 ^ 32; length = size }) s.records;
      })
  scan_record undo fileno bytes size s =
      let start = s.position + 8 in
      if ltb (length bytes) (start + 32)
      then err unexpected_eof
      else ok (record {
        position = start + 32;
        blocks = add32 s.blocks 1;
        records =
            insert (key_of undo (hash_of_slice (take 32 (drop start bytes))))
              (record { file = fileno; position = (start + 32) % 2 ^ 32; length = size }) s.records;
      })

  -- One round of the loop: where no magic number stands, the reader goes on by one byte.
  unfoldable pub scan_step : RecordType → ℕ → ℕ → List ℕ → Scan → Stored Scan
  unfolding scan_record
  scan_step record_type magic fileno bytes s =
      expect (c.u32.decode (drop s.position bytes)) >>= λ found.
      if nat_beq found.0 magic
      then (expect (c.u32.decode (drop (s.position + 4) bytes)) >>= λ size.
          scan_record record_type fileno bytes size.0 s)
      else ok (record s { position = s.position + 1 })

  -- The loop. Each round goes on by one byte or more, so the length is fuel enough.
  unfoldable pub scan : ℕ → RecordType → ℕ → ℕ → List ℕ → Scan → Stored Scan
  scan zero record_type magic fileno bytes s =
      if ltb s.position (sub64 (length bytes) 4) then panic else ok s
  scan (suc fuel) record_type magic fileno bytes s =
      let rest =
        (scan_step record_type magic fileno bytes s >>= λ s'.
        scan fuel record_type magic fileno bytes s') in
      if ltb s.position (sub64 (length bytes) 4) then rest else ok s

  -- One file: its records, and the record of the file. The last file's number is not written.
  unfoldable pub index_file : BlockStore → RecordType → ℕ → Stored BlockStore
  unfolding scan
  index_file store record_type fileno =
      ok_or not_found (lookup (key_of record_type fileno) store.files) >>= λ bytes.
      scan (length bytes) record_type store.options.magic fileno bytes
        (record { position = 0; blocks = 0; records = store.block_record })
      >>= λ s. ok (record store {
        file =
            insert (key_of record_type fileno)
              (record {
                blocks = s.blocks;
                used = s.position % 2 ^ 32;
                length = store.options.max_file_length;
              })
              store.file;
        block_record = s.records;
      })

  unfoldable pub index_files : RecordType → List ℕ → BlockStore → Stored BlockStore
  unfolding index_file
  index_files record_type [] store = ok store
  index_files record_type (fileno ∷ filenos) store =
      index_file store record_type fileno >>= index_files record_type filenos

  unfoldable pub index : BlockStore → RecordType → Stored BlockStore
  unfolding index_files
  index store record_type =
      let checked = check store record_type in
      if checked.0 then index_files record_type checked.1 store else ok store

  unfoldable pub index_all_types : BlockStore → Stored BlockStore
  unfolding index
  index_all_types store = index store block >>= λ store'. index store' undo

  -- From a position on in a file of 4 bytes or more, where numbers can be read but none of them is the
  -- magic number: the loop of `index` ends 4 bytes before the end of the file.
  pub scan-stops :
      (fuel : ℕ) (record_type : RecordType) (magic fileno : ℕ) (bytes : List ℕ) (s : Scan)
      → 4 ≤ length bytes
      → length bytes < 2 ^ 32
      → s.position ≤ length bytes - 4
      → length bytes ≤ s.position + 4 + fuel
      → ((q : ℕ)
          → s.position ≤ q
          → q < length bytes - 4
          → (found : ℕ × List ℕ) × (c.u32.decode (drop q bytes) ≡ some found) × (found.0 ≢ magic))
      → scan fuel record_type magic fileno bytes s ≡ ok (record s { position = length bytes - 4 })
  unfolding scan scan_step
  scan-stops zero record_type magic fileno bytes s long short low enough no_magic =
      let at : s.position ≡ length bytes - 4 = omega arith in
      ground (arith, limit_lem (length bytes) long short)
  scan-stops (suc fuel) record_type magic fileno bytes s long short low enough no_magic =
      elim (Bool-cases (ltb s.position (length bytes - 4))) [
        | inr there ↦
            let at : s.position ≡ length bytes - 4 = ground arith in
            ground (arith, limit_lem (length bytes) long short)
        | inl before ↦
            let (found, reads, other) = no_magic s.position (omega arith) (ground arith) in
            let rest =
              scan-stops fuel record_type magic fileno bytes
                (record s { position = s.position + 1 }) long short (ground arith) (omega arith)
                (λ q from to. no_magic q (omega arith) to) in
            let goes : nat_beq found.0 magic ≡ false = ground (arith, nat_beq_iff found.0 magic) in
            ground (arith, limit_lem (length bytes) long short)
      ]
