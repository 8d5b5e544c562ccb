-- ===== src/BlockStore/Valid.antt =====
-- When the index of src/blockstore agrees with the files, and the space that `allocate` gives then.
use mathlib.Core.Path.{subst}
use rust_bitcoin_node.Prelude.{
  ℕ, ◌+◌, ◌*◌, ◌^◌, ◌≤◌, ◌<◌, ◌≡◌, refl, sym, ◌∙◌, true, false, List, [], Option, none, some, arith,
  length, lookup, insert, lookup-insert, ok, Bool-cases, inl, inr,
}
use rust_bitcoin_node.BlockStore.Records.{
  Key, FileRecord, BlockRecord, RecordType, key_eq, key_beq, key_beq_iff, record_type_eq, empty,
}
use rust_bitcoin_node.BlockStore.Store.{BlockStore, key_of, allocate}
use rust_bitcoin_node.BlockStore.Count.{count, count-zero, Distinct, lies_in}

-- A block record points into the used part of a file that the index has, no later than the last file.
pub record IsPlaced (store : BlockStore) (key : Key) (r : BlockRecord) : Type 0 where
  pub file_record : FileRecord
  pub found : lookup (key_of key.record_type r.file) store.file ≡ some file_record
  pub within : r.position + r.length ≤ file_record.used
  pub last : ℕ
  pub last_found : lookup key.record_type store.last_file ≡ some last
  pub not_after : r.file ≤ last

-- A file record counts the blocks of its file, whose bytes are exactly those used.
pub record IsFilled (store : BlockStore) (at : Key) (f : FileRecord) : Type 0 where
  pub bounded : f.length ≡ store.options.max_file_length
  pub fits : f.used ≤ f.length
  pub content : List ℕ
  pub content_found : lookup at store.files ≡ some content
  pub whole : length content ≡ f.used
  pub few : 8 * f.blocks ≤ f.used
  pub counted : f.blocks ≡ count at store.block_record

pub record IsValid (store : BlockStore) : Type 0 where
  pub small : store.options.max_file_length < 2 ^ 31
  pub placed :
      (key : Key) (r : BlockRecord) → lookup key store.block_record ≡ some r → IsPlaced store key r
  pub filled : (at : Key) (f : FileRecord) → lookup at store.file ≡ some f → IsFilled store at f
  pub distinct : Distinct store.block_record

-- The number of the last file can be counted up.
abbrev pub HasNext : BlockStore → RecordType → Type 0
HasNext store record_type =
    (last : ℕ) → lookup record_type store.last_file ≡ some last → last + 1 < 2 ^ 32

-- What the space is that the next block of a size goes to.
pub record IsTarget (store : BlockStore) (record_type : RecordType) (size n : ℕ) (f : FileRecord)
    (files : List (Key × List ℕ)) : Type 0 where
  pub bounded : f.length ≡ store.options.max_file_length
  pub room : f.used + size ≤ f.length
  pub content : List ℕ
  pub content_found : lookup (key_of record_type n) files ≡ some content
  pub whole : length content ≡ f.used
  pub few : 8 * f.blocks ≤ f.used
  pub counted : f.blocks ≡ count (key_of record_type n) store.block_record
  pub others :
      (at : Key)
      → key_beq (key_of record_type n) at ≡ false
      → lookup at files ≡ lookup at store.files
  pub kept :
      (key : Key) (r : BlockRecord)
      → lookup key store.block_record ≡ some r
      → lies_in (key_of record_type n) key r ≡ true
      → (lookup (key_of record_type n) store.file ≡ some f)
        × (lookup (key_of record_type n) store.files ≡ some content)
  pub later : (l : ℕ) → lookup record_type store.last_file ≡ some l → l ≤ n

-- A file in which no record lies, emptied.
pub fresh-IsTarget :
    (store : BlockStore) (record_type : RecordType) (size n : ℕ)
    → IsValid store
    → size ≤ store.options.max_file_length
    → ((key : Key) (r : BlockRecord)
        → lookup key store.block_record ≡ some r
        → lies_in (key_of record_type n) key r ≡ false)
    → ((l : ℕ) → lookup record_type store.last_file ≡ some l → l ≤ n)
    → IsTarget store record_type size n
        (empty store.options.max_file_length)
        (insert (key_of record_type n) [] store.files)
fresh-IsTarget store record_type size n valid short none_in later = record {
  bounded = refl;
  room = omega arith;
  content = [];
  content_found = ground (
    arith,
    lookup-insert {V = List ℕ} (key_of record_type n) (key_of record_type n) [] store.files,
    key_beq_iff (key_of record_type n) (key_of record_type n),
  );
  whole = refl;
  few = omega arith;
  counted = sym (count-zero (key_of record_type n) store.block_record valid.distinct none_in);
  others = λ at apart.
      ground (arith, lookup-insert {V = List ℕ} (key_of record_type n) at [] store.files);
  kept = λ key r found here. absurd (ground (arith, none_in key r found));
  later = later;
}

-- The last file, where the index has it and it has room.
pub old-IsTarget :
    (store : BlockStore) (record_type : RecordType) (size n : ℕ) (f : FileRecord)
    → IsValid store
    → lookup (key_of record_type n) store.file ≡ some f
    → f.used + size ≤ f.length
    → ((l : ℕ) → lookup record_type store.last_file ≡ some l → l ≤ n)
    → IsTarget store record_type size n f store.files
old-IsTarget store record_type size n f valid found room later =
    let filled = valid.filled (key_of record_type n) f found in
    record {
      bounded = filled.bounded;
      room = room;
      content = filled.content;
      content_found = filled.content_found;
      whole = filled.whole;
      few = filled.few;
      counted = filled.counted;
      others = λ at apart. refl;
      kept = λ key r present here. (found, filled.content_found);
      later = later;
    }

-- The number of the last file, or 0.
abbrev pub file_number : Option ℕ → ℕ
file_number none = 0
file_number (some n) = n

-- No record lies in a file after the last.
pub none_after :
    (store : BlockStore) (record_type : RecordType) (n : ℕ) (o : Option ℕ)
    → IsValid store
    → lookup record_type store.last_file ≡ o
    → file_number o < n
    → (key : Key) (r : BlockRecord) → lookup key store.block_record ≡ some r
    → lies_in (key_of record_type n) key r ≡ false
none_after store record_type n o valid last above key r found =
    elim (Bool-cases (lies_in (key_of record_type n) key r)) [
      | inr out ↦ out
      | inl here ↦
          let placed = valid.placed key r found in
          let at : key_of key.record_type r.file ≡ key_of record_type n =
            (key_beq_iff (key_of key.record_type r.file) (key_of record_type n)).0 here in
          let kind : key.record_type ≡ record_type = λ i. (at i).record_type in
          let number : r.file ≡ n = λ i. (at i).number in
          let listed' : lookup record_type store.last_file ≡ some placed.last =
            subst (λ k. lookup k store.last_file ≡ some placed.last) kind placed.last_found in
          let same : o ≡ some placed.last = sym last ∙ listed' in
          let high : file_number o ≡ placed.last = λ i. file_number (same i) in
          absurd (omega (arith, placed.not_after))
    ]

-- No record lies in a file that the index does not have.
pub none_unlisted :
    (store : BlockStore) (at : Key)
    → IsValid store
    → lookup at store.file ≡ none
    → (key : Key) (r : BlockRecord) → lookup key store.block_record ≡ some r
    → lies_in at key r ≡ false
none_unlisted store at valid missing key r found = elim (Bool-cases (lies_in at key r)) [
  | inr out ↦ out
  | inl here ↦
      let placed = valid.placed key r found in
      let same : key_of key.record_type r.file ≡ at =
        (key_beq_iff (key_of key.record_type r.file) at).0 here in
      let listed = placed.found in
      let listed' : lookup at store.file ≡ some placed.file_record = rw same at listed in
      absurd (cc)
]

-- What `allocate` gives.
abbrev pub Allocated : BlockStore → RecordType → ℕ → Type 0
Allocated store record_type size =
    (n : ℕ) × (f : FileRecord) × (files : List (Key × List ℕ)) × (allocate store record_type size
      ≡ ok (n, f, files))
    × IsTarget store record_type size n f files
