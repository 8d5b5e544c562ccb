-- ===== src/BlockStore/Refine.antt =====
-- `write`, `read` and `prune` of src/blockstore/mod.rs, against the map from keys to bytes that the
-- index and the files stand for.
use mathlib.Core.Path.{subst}
use rust_bitcoin_node.Prelude.{
  ℕ, ◌+◌, ◌*◌, ◌%◌, ◌^◌, ◌≤◌, ◌<◌, ◌≡◌, List, ◌++◌, Option, none, some, arith, length,
  length-append, lookup, ok, panic, contains_key, Option-cases, Bool-cases, inl, inr, if◌then◌else◌,
  take, drop, leb,
}
use rust_bitcoin_node.Prelude.Words.{add32}
use rust_bitcoin_node.Encoding.{Codecs, HasWidths}
use rust_bitcoin_node.Bitcoin.{BlockHash}
use rust_bitcoin_node.BlockStore.Records.{
  BlockRecord, FileRecord, Key, RecordType, key_beq, key_beq_iff, key_eq,
}
use rust_bitcoin_node.BlockStore.Files.{
  read_at, read_at-length, read_at-slice, write_at, write_at-end,
}
use rust_bitcoin_node.BlockStore.Store.{
  BlockStore, header, key_of, magic_length, read, read_length, write, allocate,
}
use rust_bitcoin_node.BlockStore.Valid.{HasNext, IsTarget, IsValid}
use rust_bitcoin_node.BlockStore.Allocate.{allocate_lem}
use rust_bitcoin_node.BlockStore.Append.{
  after, after-IsValid, contents, contents-after, header_width, magic_length-ge, stored,
}

-- A map that keeps the first data that it was given under a key.
abbrev pub put_once : Key → List ℕ → (Key → Option (List ℕ)) → Key → Option (List ℕ)
put_once key bytes view other =
    if key_beq key other
    then elim (view other) [ none ↦ some bytes | some old ↦ some old ]
    else view other

module _ (store : BlockStore) (valid : IsValid store) (key : Key) (r : BlockRecord)
    (present : lookup key store.block_record ≡ some r) where
  -- The bytes of a record, and where they are.
  found_content :
      (content bytes : List ℕ) × (lookup (key_of key.record_type r.file) store.files ≡ some content)
      × (read_at r.position r.length content ≡ some bytes)
      × (r.position + r.length ≤ store.options.max_file_length)
  unfolding read_at
  found_content =
      let placed = valid.placed key r present in
      let filled = valid.filled (key_of key.record_type r.file) placed.file_record placed.found in
      (
        filled.content,
        take r.length (drop r.position filled.content),
        filled.content_found,
        ground (arith, placed.within, filled.whole),
        omega (arith, placed.within, filled.fits, filled.bounded),
      )

  contents-some : (bytes : List ℕ) × (contents store key ≡ some bytes)
  unfolding contents
  contents-some = let (content, bytes, found, whole, _) = found_content in (bytes, ground arith)

pub contents-none :
    (store : BlockStore) (key : Key)
    → lookup key store.block_record ≡ none
    → contents store key ≡ none
unfolding contents
contents-none store key missing = ground arith

-- In a store whose index agrees with its files, reading a range of what the store holds under a key
-- gives that part of it, and panics where the range ends after it, for an offset and a count whose sum
-- is in the range of u32.
pub read_lem :
    (store : BlockStore) (record_type : RecordType) (hash : BlockHash) (offset count : ℕ)
    (bytes : List ℕ)
    → IsValid store
    → contents store (key_of record_type hash) ≡ some bytes
    → offset + count < 2 ^ 32
    → read store record_type hash offset (some count) ≡ (
        if leb (offset + count) (length bytes)
        then ok (some (take count (drop offset bytes)))
        else panic)
unfolding read read_length contents add32
read_lem store record_type hash offset count bytes valid held small =
    let key = key_of record_type hash in
    elim (Option-cases (lookup key store.block_record)) [
      | inl missing ↦ absurd (ground arith)
      | inr (r, present) ↦
          let (content, bytes', found, whole, low) = found_content store valid key r present in
          let same : bytes' ≡ bytes = ground arith in
          let size = read_at-length r.position r.length content bytes' whole in
          let size' : length bytes ≡ r.length = ground arith in
          elim (Bool-cases (leb (offset + count) r.length)) [
            | inr past ↦ ground arith
            | inl within ↦
                let slice =
                  read_at-slice r.position r.length offset count content bytes' whole
                    (ground arith) in
                ground (arith, valid.small)
          ]
    ]

module _ (c : Codecs) (widths : HasWidths c) where
  write-run :
      (store : BlockStore) (record_type : RecordType) (hash : BlockHash) (bytes : List ℕ) (n : ℕ)
      (f : FileRecord) (files : List (Key × List ℕ)) (content : List ℕ)
      → store.options.max_file_length < 2 ^ 31
      → lookup (key_of record_type hash) store.block_record ≡ none
      → allocate store record_type (length bytes + magic_length record_type) ≡ ok (n, f, files)
      → lookup (key_of record_type n) files ≡ some content
      → length content ≡ f.used
      → 8 * f.blocks ≤ f.used
      → f.used + (length bytes + magic_length record_type) ≤ store.options.max_file_length
      → write c store record_type hash bytes
        ≡ ok (
            stored store
              (key_of record_type hash)
              n
              f
              files
              (content ++ header c store record_type hash bytes)
              bytes)
  unfolding write contains_key add32
  write-run store record_type hash bytes n f files content small new given found whole few room =
      let hdr = header c store record_type hash bytes in
      let width = header_width c widths store record_type hash bytes in
      let length_before = length-append content hdr in
      let w₁ : write_at f.used hdr content ≡ content ++ hdr =
        subst (λ u. write_at u hdr content ≡ content ++ hdr) whole (write_at-end hdr content) in
      let w₂ : write_at (f.used + length hdr) bytes (content ++ hdr) ≡ (content ++ hdr) ++ bytes =
        subst (λ u. write_at u bytes (content ++ hdr) ≡ (content ++ hdr) ++ bytes) (omega arith)
          (write_at-end bytes (content ++ hdr)) in
      let blocks : (f.blocks + 1) % 2 ^ 32 ≡ f.blocks + 1 = omega arith in
      let used : (f.used + (length bytes + magic_length record_type) % 2 ^ 32) % 2 ^ 32
          ≡ length (content ++ hdr) + length bytes =
        omega arith in
      let position : (f.used + magic_length record_type) % 2 ^ 32 ≡ length (content ++ hdr) =
        omega arith in
      let size : length bytes % 2 ^ 32 ≡ length bytes = omega arith in ground arith

  -- A key that the store does not have.
  write-new :
      (store : BlockStore) (record_type : RecordType) (hash : BlockHash) (bytes : List ℕ)
      → IsValid store
      → length bytes + magic_length record_type ≤ store.options.max_file_length
      → HasNext store record_type
      → lookup (key_of record_type hash) store.block_record ≡ none
      → (store' : BlockStore) × (write c store record_type hash bytes ≡ ok store')
        × IsValid store'
        × ((other : Key)
            → contents store' other ≡ (
                if key_beq (key_of record_type hash) other
                then some bytes
                else contents store other))
  write-new store record_type hash bytes valid short next new =
      let key = key_of record_type hash in
      let hdr = header c store record_type hash bytes in
      let width = header_width c widths store record_type hash bytes in
      let size = length bytes + magic_length record_type in
      let (n, f, files, given, target) = allocate_lem store record_type size valid short next in
      let wide : 8 ≤ length hdr = omega (arith, width, magic_length-ge record_type) in
      let target' : IsTarget store record_type (length bytes + length hdr) n f files =
        rw width target in
      (
        after store key n f files hdr bytes wide valid target' new,
        write-run store record_type hash bytes n f files target'.content valid.small new given
            target'.content_found target'.whole target'.few
            (omega (arith, target.room, target.bounded)),
        after-IsValid store key n f files hdr bytes wide valid target' new,
        contents-after store key n f files hdr bytes wide valid target' new,
      )

  -- In a store whose index agrees with its files, writing a block or undo data that fits into a file
  -- succeeds while the file number can be counted up: the index agrees again, and the store holds what it
  -- held, with the data under its key where it held nothing there.
  pub write_lem :
      (store : BlockStore) (record_type : RecordType) (hash : BlockHash) (bytes : List ℕ)
      → IsValid store
      → length bytes + magic_length record_type ≤ store.options.max_file_length
      → HasNext store record_type
      → (store' : BlockStore) × (write c store record_type hash bytes ≡ ok store')
        × IsValid store'
        × ((other : Key)
            → contents store' other
              ≡ put_once (key_of record_type hash) bytes (contents store) other)
  unfolding write contains_key
  write_lem store record_type hash bytes valid short next =
      let key = key_of record_type hash in
      elim (Option-cases (lookup key store.block_record)) [
        | inr (r, present) ↦
            let (old, held) = contents-some store valid key r present in
            (store, ground arith, valid, λ other. ground (arith, key_beq_iff key other))
        | inl new ↦
            let (store', done, valid', holds) =
              write-new store record_type hash bytes valid short next new in
            let free = contents-none store key new in
            (store', done, valid', λ other. ground (arith, holds other, key_beq_iff key other))
      ]
