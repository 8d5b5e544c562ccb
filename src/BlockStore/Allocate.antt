-- ===== src/BlockStore/Allocate.antt =====
-- `allocate` of src/blockstore/mod.rs: the block that is asked for has room where it says.
use rust_bitcoin_node.Prelude.{
  ℕ, ◌+◌, ◌^◌, ◌≤◌, ◌<◌, ◌≡◌, refl, sym, ◌∙◌, true, false, [], Option, none, some, arith, lookup,
  insert, Option-cases, Bool-cases, inl, inr, ltb,
}
use rust_bitcoin_node.Prelude.Words.{add32}
use rust_bitcoin_node.BlockStore.Records.{FileRecord, RecordType, key_eq, record_type_eq, empty}
use rust_bitcoin_node.BlockStore.Store.{BlockStore, key_of, allocate, place, last_record}
use rust_bitcoin_node.BlockStore.Valid.{
  Allocated, HasNext, IsValid, file_number, fresh-IsTarget, none_after, none_unlisted, old-IsTarget,
}

later_than :
    (store : BlockStore) (record_type : RecordType) (o : Option ℕ) (n : ℕ)
    → lookup record_type store.last_file ≡ o
    → file_number o ≤ n
    → (l : ℕ) → lookup record_type store.last_file ≡ some l
    → l ≤ n
later_than store record_type o n last low l found =
    let same : o ≡ some l = sym last ∙ found in
    let number : file_number o ≡ l = λ i. file_number (same i) in omega arith

next_fits :
    (store : BlockStore) (record_type : RecordType) (o : Option ℕ)
    → lookup record_type store.last_file ≡ o
    → HasNext store record_type
    → file_number o + 1 < 2 ^ 32
next_fits store record_type none last next = omega arith
next_fits store record_type (some l) last next = next l last

module _ (store : BlockStore) (record_type : RecordType) (size : ℕ) (valid : IsValid store)
    (short : size ≤ store.options.max_file_length) where
  -- The next file.
  next_file :
      (o : Option ℕ)
      → lookup record_type store.last_file ≡ o
      → HasNext store record_type
      → place store record_type size
        ≡ (file_number o + 1, empty store.options.max_file_length, true)
      → Allocated store record_type size
  unfolding allocate
  next_file o last next e = (
    file_number o + 1,
    empty store.options.max_file_length,
    insert (key_of record_type (file_number o + 1)) [] store.files,
    rw e (ground arith),
    fresh-IsTarget store record_type size (file_number o + 1) valid short
        (none_after store record_type (file_number o + 1) o valid last (omega arith))
        (later_than store record_type o (file_number o + 1) last (omega arith)),
  )

  -- A file that the index does not have.
  touched_file :
      (o : Option ℕ)
      → lookup record_type store.last_file ≡ o
      → lookup (key_of record_type (file_number o)) store.file ≡ none
      → place store record_type size ≡ (file_number o, empty store.options.max_file_length, true)
      → Allocated store record_type size
  unfolding allocate
  touched_file o last missing e = (
    file_number o,
    empty store.options.max_file_length,
    insert (key_of record_type (file_number o)) [] store.files,
    rw e (ground arith),
    fresh-IsTarget store record_type size (file_number o) valid short
        (none_unlisted store (key_of record_type (file_number o)) valid missing)
        (later_than store record_type o (file_number o) last (omega arith)),
  )

  last_file :
      (o : Option ℕ) (f : FileRecord)
      → lookup record_type store.last_file ≡ o
      → lookup (key_of record_type (file_number o)) store.file ≡ some f
      → f.used + size ≤ f.length
      → place store record_type size ≡ (file_number o, f, false)
      → Allocated store record_type size
  unfolding allocate
  last_file o f last found room e = (
    file_number o,
    f,
    store.files,
    rw e (ground arith),
    old-IsTarget store record_type size (file_number o) f valid found room
        (later_than store record_type o (file_number o) last (omega arith)),
  )

  last_record_lem :
      (o : Option ℕ) (p : Option FileRecord)
      → lookup record_type store.last_file ≡ o
      → lookup (key_of record_type (file_number o)) store.file ≡ p
      → last_record store record_type ≡ elim p [
        | none ↦ (file_number o, empty store.options.max_file_length, true)
        | some f ↦ (file_number o, f, false)
      ]
  unfolding last_record
  last_record_lem none none last found = ground arith
  last_record_lem none (some f) last found = ground arith
  last_record_lem (some n) none last found = ground arith
  last_record_lem (some n) (some f) last found = ground arith

  -- In a store whose index agrees with its files, `allocate` gives room to a block that is no longer
  -- than a file.
  pub allocate_lem : HasNext store record_type → Allocated store record_type size
  unfolding place add32
  allocate_lem next =
      let o = lookup record_type store.last_file in
      let number = file_number o in
      let fits = next_fits store record_type o refl next in
      elim (Option-cases (lookup (key_of record_type number) store.file)) [
        | inl missing ↦
            let e = last_record_lem o none refl missing in
            touched_file o refl missing (rw e (ground (arith, valid.small)))
        | inr (f, found) ↦
            let e = last_record_lem o (some f) refl found in
            let filled = valid.filled (key_of record_type number) f found in
            elim (Bool-cases (ltb f.length (f.used + size))) [
              | inl full ↦
                  next_file o refl next
                    (rw e (ground (arith, valid.small, filled.bounded, filled.fits)))
              | inr room ↦
                  last_file o f refl found (ground arith)
                    (rw e (ground (arith, valid.small, filled.bounded, filled.fits)))
            ]
      ]
