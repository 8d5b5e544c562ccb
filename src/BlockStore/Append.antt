-- ===== src/BlockStore/Append.antt =====
-- What `write` of src/blockstore/mod.rs leaves in the index and in the files.
use mathlib.Core.Path.{subst}
use rust_bitcoin_node.Prelude.{
  ℕ, ◌+◌, ◌%◌, ◌^◌, ◌≤◌, ◌≡◌, sym, ap, true, false, List, [], ◌++◌, Option, none, some, arith,
  length, length-append, lookup, insert, lookup-insert, Option-cases, Bool-cases, inl, inr,
  if◌then◌else◌,
}
use rust_bitcoin_node.Encoding.{Codecs, HasWidths}
use rust_bitcoin_node.Bitcoin.{BlockHash}
use rust_bitcoin_node.BlockStore.Records.{
  BlockRecord, FileRecord, Key, RecordType, block, undo, key_beq, key_beq_iff, key_eq,
  record_type_beq, record_type_beq_iff, record_type_eq,
}
use rust_bitcoin_node.BlockStore.Files.{read_at, read_at-append, read_at-last}
use rust_bitcoin_node.BlockStore.Store.{BlockStore, header, key_of, magic_length}
use rust_bitcoin_node.BlockStore.Count.{count, count-insert, insert-Distinct, lies_in}
use rust_bitcoin_node.BlockStore.Valid.{IsFilled, IsPlaced, IsTarget, IsValid}

-- What the store holds under a key: the whole of the data, or nothing.
unfoldable pub contents : BlockStore → Key → Option (List ℕ)
contents store key = elim (lookup key store.block_record) [
  | none ↦ none
  | some r ↦ elim (lookup (key_of key.record_type r.file) store.files) [
    | none ↦ none
    | some content ↦ read_at r.position r.length content
  ]
]

pub magic_length-ge : (record_type : RecordType) → 8 ≤ magic_length record_type
magic_length-ge block = omega arith
magic_length-ge undo = omega arith

module _ (c : Codecs) (widths : HasWidths c) where
  pub header_width :
      (store : BlockStore) (record_type : RecordType) (hash : BlockHash) (bytes : List ℕ)
      → length (header c store record_type hash bytes) ≡ magic_length record_type
  unfolding header
  header_width store block hash bytes = omega (
    arith,
    length-append (c.u32.encode store.options.magic) (c.u32.encode (length bytes % 2 ^ 32) ++ []),
    length-append (c.u32.encode (length bytes % 2 ^ 32)) [],
    widths.u32_width store.options.magic,
    widths.u32_width (length bytes % 2 ^ 32),
  )
  header_width store undo hash bytes = omega (
    arith,
    length-append (c.u32.encode store.options.magic)
        (c.u32.encode (length bytes % 2 ^ 32) ++ c.hash.encode hash),
    length-append (c.u32.encode (length bytes % 2 ^ 32)) (c.hash.encode hash),
    widths.u32_width store.options.magic,
    widths.u32_width (length bytes % 2 ^ 32),
    widths.hash_width hash,
  )

-- The store with one more record, at the end of a file.
abbrev pub stored :
    (store : BlockStore) (key : Key) (n : ℕ) (f : FileRecord) (files : List (Key × List ℕ))
    (before bytes : List ℕ)
    → BlockStore
stored store key n f files before bytes =
    let at = key_of key.record_type n in
    record store {
      last_file = insert key.record_type n store.last_file;
      file =
          insert at
            (record {
              blocks = f.blocks + 1;
              used = length before + length bytes;
              length = f.length;
            })
            store.file;
      block_record =
          insert key (record { file = n; position = length before; length = length bytes })
            store.block_record;
      files = insert at (before ++ bytes) files;
    }

module _ (store : BlockStore) (key : Key) (n : ℕ) (f : FileRecord) (files : List (Key × List ℕ))
    (hdr bytes : List ℕ) (wide : 8 ≤ length hdr) (valid : IsValid store)
    (target : IsTarget store key.record_type (length bytes + length hdr) n f files)
    (new : lookup key store.block_record ≡ none) where
  abbrev pub before : List ℕ
  before = target.content ++ hdr

  abbrev pub after : BlockStore
  after = stored store key n f files before bytes

  pub before_length : length before ≡ f.used + length hdr
  before_length = omega (arith, length-append target.content hdr, target.whole)

  new-IsPlaced :
      IsPlaced after key (record { file = n; position = length before; length = length bytes })
  new-IsPlaced =
      let at = key_of key.record_type n in
      let f' : FileRecord = record {
        blocks = f.blocks + 1;
        used = length before + length bytes;
        length = f.length;
      } in
      record {
        file_record = f';
        found = ground (arith, lookup-insert at at f' store.file, key_beq_iff at at);
        within = omega arith;
        last = n;
        last_found = ground (
          arith,
          lookup-insert key.record_type key.record_type n store.last_file,
          record_type_beq_iff key.record_type key.record_type,
        );
        not_after = omega arith;
      }

  abbrev pub at : Key
  at = key_of key.record_type n

  abbrev pub f' : FileRecord
  f' = record { blocks = f.blocks + 1; used = length before + length bytes; length = f.length }

  -- The last file of a record type is no earlier than it was.
  last_after :
      (record_type : RecordType) (last : ℕ)
      → lookup record_type store.last_file ≡ some last
      → (l : ℕ) × (lookup record_type after.last_file ≡ some l) × (last ≤ l)
  last_after record_type last found =
      let here = lookup-insert key.record_type record_type n store.last_file in
      elim (Bool-cases (record_type_beq key.record_type record_type)) [
        | inl same ↦
            let e : key.record_type ≡ record_type =
              (record_type_beq_iff key.record_type record_type).0 same in
            let found' : lookup key.record_type store.last_file ≡ some last =
              subst (λ k. lookup k store.last_file ≡ some last) (sym e) found in
            (n, ground arith, target.later last found')
        | inr other ↦ (last, ground arith, omega arith)
      ]

  -- A file that has a record still has one, and no less of it is used.
  file_after :
      (place : Key) (g : FileRecord)
      → lookup place store.file ≡ some g
      → (key_beq at place ≡ true → g.used ≤ f.used)
      → (g' : FileRecord) × (lookup place after.file ≡ some g') × (g.used ≤ g'.used)
  file_after place g found low =
      let here = lookup-insert at place f' store.file in
      elim (Bool-cases (key_beq at place)) [
        | inl same ↦ (f', ground arith, omega (arith, before_length, low same))
        | inr other ↦ (g, ground arith, omega arith)
      ]

  -- The record of the file that is written to.
  own_file :
      (other : Key) (r : BlockRecord) (g : FileRecord)
      → lookup other store.block_record ≡ some r
      → lookup (key_of other.record_type r.file) store.file ≡ some g
      → key_beq at (key_of other.record_type r.file) ≡ true
      → g ≡ f
  own_file other r g present found same =
      let e : at ≡ key_of other.record_type r.file =
        (key_beq_iff at (key_of other.record_type r.file)).0 same in
      let here : lies_in at other r ≡ true =
        ground (arith, key_beq_iff (key_of other.record_type r.file) at) in
      let found' : lookup at store.file ≡ some g =
        subst (λ k. lookup k store.file ≡ some g) (sym e) found in
      let both = (target.kept other r present here).0 in cc

  kept-IsPlaced :
      (other : Key) (r : BlockRecord)
      → lookup other store.block_record ≡ some r
      → IsPlaced after other r
  kept-IsPlaced other r present =
      let placed = valid.placed other r present in
      let (l, last, le) = last_after other.record_type placed.last placed.last_found in
      let (g, found, ge) =
        file_after (key_of other.record_type r.file) placed.file_record placed.found (λ same.
          let e = own_file other r placed.file_record present placed.found same in
          omega (arith, ap (λ (r : FileRecord). r.used) e)) in
      record {
        file_record = g;
        found = found;
        within = omega (arith, placed.within);
        last = l;
        last_found = last;
        not_after = omega (arith, placed.not_after);
      }

  IsPlaced-after :
      (other : Key) (r : BlockRecord)
      → lookup other after.block_record ≡ some r
      → IsPlaced after other r
  IsPlaced-after other r present =
      let own : BlockRecord = record {
        file = n;
        position = length before;
        length = length bytes;
      } in
      let here = lookup-insert key other own store.block_record in
      elim (Bool-cases (key_beq key other)) [
        | inl same ↦
            let e : key ≡ other = (key_beq_iff key other).0 same in
            let e' : own ≡ r = ground arith in
            subst (λ k. IsPlaced after k r) e (subst (IsPlaced after key) e' new-IsPlaced)
        | inr apart ↦ kept-IsPlaced other r (ground arith)
      ]

  IsFilled-after :
      (place : Key) (g : FileRecord) → lookup place after.file ≡ some g → IsFilled after place g
  IsFilled-after place g found =
      let own : BlockRecord = record {
        file = n;
        position = length before;
        length = length bytes;
      } in
      let files_here = lookup-insert at place (before ++ bytes) files in
      let here = lookup-insert at place f' store.file in
      let counts = count-insert place key own store.block_record new in
      elim (Bool-cases (key_beq at place)) [
        | inl same ↦
            let e : f' ≡ g = ground arith in
            let p : at ≡ place = (key_beq_iff at place).0 same in
            subst (IsFilled after place) e (record {
              bounded = target.bounded;
              fits = omega (arith, before_length, target.room);
              content = before ++ bytes;
              content_found = ground arith;
              whole = omega (arith, length-append before bytes);
              few = omega (arith, before_length, target.few);
              counted =
                  ground (arith, target.counted, ap (λ (k : Key). count k store.block_record) p);
            })
        | inr other ↦
            let old = valid.filled place g (ground arith) in
            record {
              bounded = old.bounded;
              fits = old.fits;
              content = old.content;
              content_found = ground (arith, old.content_found, target.others place other);
              whole = old.whole;
              few = old.few;
              counted = ground (arith, old.counted);
            }
      ]

  pub after-IsValid : IsValid after
  after-IsValid = record {
    small = valid.small;
    placed = IsPlaced-after;
    filled = IsFilled-after;
    distinct =
        insert-Distinct key (record { file = n; position = length before; length = length bytes })
          store.block_record new valid.distinct;
  }

  contents-other :
      (other : Key) → key_beq key other ≡ false → contents after other ≡ contents store other
  unfolding contents
  contents-other other apart =
      let own : BlockRecord = record {
        file = n;
        position = length before;
        length = length bytes;
      } in
      let here = lookup-insert key other own store.block_record in
      elim (Option-cases (lookup other store.block_record)) [
        | inl missing ↦ ground arith
        | inr (r, present) ↦
            let placed = valid.placed other r present in
            let place = key_of other.record_type r.file in
            let files_here = lookup-insert at place (before ++ bytes) files in
            elim (Bool-cases (key_beq at place)) [
              | inr away ↦ ground (arith, target.others place away)
              | inl same ↦
                  let e = own_file other r placed.file_record present placed.found same in
                  let p : at ≡ place = (key_beq_iff at place).0 same in
                  let inside : lies_in at other r ≡ true = ground (arith, key_beq_iff place at) in
                  let old : lookup place store.files ≡ some target.content =
                    subst (λ k. lookup k store.files ≡ some target.content) p
                      (target.kept other r present inside).1 in
                  let low : r.position + r.length ≤ length target.content =
                    omega (arith, placed.within, target.whole, ap (λ (r : FileRecord). r.used) e) in
                  let first = read_at-append r.position r.length target.content hdr low in
                  let second =
                    read_at-append r.position r.length before bytes
                      (omega (arith, length-append target.content hdr)) in
                  ground arith
            ]
      ]

  -- The new data is there, and what the store held under the other keys.
  pub contents-after :
      (other : Key)
      → contents after other ≡ (if key_beq key other then some bytes else contents store other)
  unfolding contents
  contents-after other =
      let own : BlockRecord = record {
        file = n;
        position = length before;
        length = length bytes;
      } in
      let here = lookup-insert key other own store.block_record in
      let files_here = lookup-insert at at (before ++ bytes) files in
      elim (Bool-cases (key_beq key other)) [
        | inr apart ↦ rw apart (contents-other other apart)
        | inl same ↦
            let e : key ≡ other = (key_beq_iff key other).0 same in
            let kind : key.record_type ≡ other.record_type = λ i. (e i).record_type in
            let place : at ≡ key_of other.record_type n = λ i. key_of (kind i) n in
            ground (arith, read_at-last before bytes, key_beq_iff at at)
      ]
