-- ===== src/BlockStore/Count.antt =====
-- The records of src/blockstore that lie in one file, counted.
use rust_bitcoin_node.Prelude.{
  ℕ, ◌+◌, ◌≤◌, ◌≡◌, refl, Bool, true, false, List, [], ◌∷◌, none, some, arith, lookup, insert,
  remove, lookup-insert, lookup-remove, if◌then◌else◌, Bool-cases, inl, inr,
}
use rust_bitcoin_node.BlockStore.Records.{Key, BlockRecord, key_eq, key_beq, key_beq_iff}
use rust_bitcoin_node.BlockStore.Store.{key_of}

-- Whether a record lies in the file.
abbrev pub lies_in : Key → Key → BlockRecord → Bool
lies_in at key r = key_beq (key_of key.record_type r.file) at

unfoldable pub count : Key → List (Key × BlockRecord) → ℕ
count at [] = 0
count at ((key, r) ∷ table) = (if lies_in at key r then 1 else 0) + count at table

-- Each key stands in the table once.
abbrev pub Distinct : List (Key × BlockRecord) → Type 0
Distinct [] = Unit
Distinct ((key, r) ∷ table) = (lookup key table ≡ none) × Distinct table

pub count-insert :
    (at key : Key) (r : BlockRecord) (table : List (Key × BlockRecord))
    → lookup key table ≡ none
    → count at (insert key r table) ≡ count at table + (if lies_in at key r then 1 else 0)
unfolding count lookup insert
count-insert at key r [] new = ground arith
count-insert at key r ((first, old) ∷ table) new =
    ground (arith, key_beq_iff first key, count-insert at key r table)

pub insert-Distinct :
    (key : Key) (r : BlockRecord) (table : List (Key × BlockRecord))
    → lookup key table ≡ none
    → Distinct table
    → Distinct (insert key r table)
unfolding lookup insert
insert-Distinct key r [] new distinct = (refl, tt)
insert-Distinct key r ((first, old) ∷ table) new (apart, distinct) =
    elim (Bool-cases (key_beq first key)) [
      | inl same ↦ absurd (ground arith)
      | inr other ↦
          let new' : lookup key table ≡ none = ground arith in
          rw other (
            ground (
              arith,
              lookup-insert key first r table,
              key_beq_iff first key,
              key_beq_iff key first,
            ),
            insert-Distinct key r table new' distinct,
          )
    ]

remove-none :
    (key : Key) (table : List (Key × BlockRecord))
    → lookup key table ≡ none
    → remove key table ≡ table
unfolding lookup remove
remove-none key [] new = refl
remove-none key ((first, old) ∷ table) new = ground (arith, remove-none key table)

pub count-remove :
    (at key : Key) (r : BlockRecord) (table : List (Key × BlockRecord))
    → Distinct table
    → lookup key table ≡ some r
    → count at (remove key table) + (if lies_in at key r then 1 else 0) ≡ count at table
unfolding count lookup remove
count-remove at key r [] distinct found = absurd (cc)
count-remove at key r ((first, old) ∷ table) (apart, distinct) found =
    elim (Bool-cases (key_beq first key)) [
      | inl same ↦
          let here : first ≡ key = (key_beq_iff first key).0 same in
          let gone : lookup key table ≡ none = rw here at apart in
          let own : old ≡ r = ground arith in ground (arith, remove-none key table)
      | inr other ↦
          let found' : lookup key table ≡ some r = ground arith in
          ground (arith, count-remove at key r table distinct found')
    ]

pub remove-Distinct :
    (key : Key) (table : List (Key × BlockRecord)) → Distinct table → Distinct (remove key table)
unfolding lookup remove
remove-Distinct key [] distinct = tt
remove-Distinct key ((first, old) ∷ table) (apart, distinct) =
    elim (Bool-cases (key_beq first key)) [
      | inl same ↦ rw same (remove-Distinct key table distinct)
      | inr other ↦
          rw other
            (ground (arith, lookup-remove key first table), remove-Distinct key table distinct)
    ]

-- A file in which no record lies counts none.
pub count-zero :
    (at : Key) (table : List (Key × BlockRecord))
    → Distinct table
    → ((key : Key) (r : BlockRecord) → lookup key table ≡ some r → lies_in at key r ≡ false)
    → count at table ≡ 0
unfolding count lookup
count-zero at [] distinct empty = refl
count-zero at ((first, old) ∷ table) (apart, distinct) empty =
    let here = empty first old (ground (arith, key_beq_iff first first)) in
    let rest =
      count-zero at table distinct
        (λ key r found. empty key r (ground (arith, key_beq_iff first key))) in
    ground arith

-- A record that lies in the file is counted.
pub count-positive :
    (at key : Key) (r : BlockRecord) (table : List (Key × BlockRecord))
    → lookup key table ≡ some r
    → lies_in at key r ≡ true
    → 1 ≤ count at table
unfolding count lookup
count-positive at key r [] found here = absurd (cc)
count-positive at key r ((first, old) ∷ table) found here =
    ground (arith, key_beq_iff first key, count-positive at key r table)
