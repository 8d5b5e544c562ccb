-- ===== src/BlockStore/Prune.antt =====
-- `prune` of src/blockstore/mod.rs: it forgets one block, and deletes a file with the last block in it.
use mathlib.Core.Path.{subst}
use rust_bitcoin_node.Prelude.{
  ℕ, ◌+◌, ◌-◌, ◌≡◌, sym, ap, false, List, none, some, arith, lookup, insert, remove, lookup-insert,
  lookup-remove, Option-cases, Bool-cases, inl, inr, if◌then◌else◌, nat_eq,
}
use rust_bitcoin_node.Prelude.Words.{sub32}
use rust_bitcoin_node.BlockStore.Records.{
  BlockRecord, FileRecord, Key, key_beq, key_beq_iff, key_eq,
}
use rust_bitcoin_node.BlockStore.Store.{BlockStore, key_of}
use rust_bitcoin_node.BlockStore.Count.{
  count, count-positive, count-remove, lies_in, remove-Distinct,
}
use rust_bitcoin_node.BlockStore.Valid.{IsFilled, IsPlaced, IsValid}
use rust_bitcoin_node.BlockStore.Append.{contents}

module _ (store : BlockStore) (valid : IsValid store) (key : Key) (r : BlockRecord)
    (present : lookup key store.block_record ≡ some r) where
  abbrev pub at : Key
  at = key_of key.record_type r.file

  abbrev pub f : FileRecord
  f = (valid.placed key r present).file_record

  pub filled : IsFilled store at f
  filled = valid.filled at f (valid.placed key r present).found

  -- The number of the records that stay in the file.
  pub rest_count : count at (remove key store.block_record) + 1 ≡ f.blocks
  rest_count = ground (
    arith,
    count-remove at key r store.block_record valid.distinct present,
    key_beq_iff at at,
    filled.counted,
  )

  pub blocks_lem : sub32 f.blocks 1 ≡ f.blocks - 1
  unfolding sub32
  blocks_lem = omega (arith, rest_count, filled.few, filled.fits, filled.bounded, valid.small)

  -- The store without the file.
  abbrev pub emptied : BlockStore
  emptied = record store {
    file = remove at store.file;
    block_record = remove key store.block_record;
    files = remove at store.files;
  }

  -- The store with the file counted down.
  abbrev pub lessened : BlockStore
  lessened = record store {
    file = insert at (record f { blocks = f.blocks - 1 }) store.file;
    block_record = remove key store.block_record;
  }

  was_there :
      (other : Key) (o : BlockRecord)
      → lookup other (remove key store.block_record) ≡ some o
      → (lookup other store.block_record ≡ some o) × (key_beq key other ≡ false)
  was_there other o found =
      let here = lookup-remove key other store.block_record in (ground arith, ground arith)

  -- Where no block stays in the file, every other record lies elsewhere.
  pub elsewhere :
      (other : Key) (o : BlockRecord)
      → f.blocks - 1 ≡ 0
      → lookup other (remove key store.block_record) ≡ some o
      → lies_in at other o ≡ false
  elsewhere other o last found =
      let positive = count-positive at other o (remove key store.block_record) found in
      ground (arith, rest_count)

  other_count :
      (place : Key)
      → count place (remove key store.block_record) + (if key_beq at place then 1 else 0)
        ≡ count place store.block_record
  other_count place = count-remove place key r store.block_record valid.distinct present

  emptied-IsPlaced :
      (other : Key) (o : BlockRecord)
      → f.blocks - 1 ≡ 0
      → lookup other (remove key store.block_record) ≡ some o
      → IsPlaced emptied other o
  emptied-IsPlaced other o last found =
      let placed = valid.placed other o (was_there other o found).0 in
      let place = key_of other.record_type o.file in
      record {
        file_record = placed.file_record;
        found = ground (
          arith,
          lookup-remove at place store.file,
          elsewhere other o last found,
          key_beq_iff at place,
          key_beq_iff place at,
          placed.found,
        );
        within = placed.within;
        last = placed.last;
        last_found = placed.last_found;
        not_after = placed.not_after;
      }

  emptied-IsFilled :
      (place : Key) (g : FileRecord) → lookup place emptied.file ≡ some g → IsFilled emptied place g
  emptied-IsFilled place g found =
      let here = lookup-remove at place store.file in
      let away : key_beq at place ≡ false = ground arith in
      let old = valid.filled place g (ground arith) in
      record {
        bounded = old.bounded;
        fits = old.fits;
        content = old.content;
        content_found = ground (arith, lookup-remove at place store.files, old.content_found);
        whole = old.whole;
        few = old.few;
        counted = ground (arith, other_count place, old.counted);
      }

  pub emptied-IsValid : f.blocks - 1 ≡ 0 → IsValid emptied
  emptied-IsValid last = record {
    small = valid.small;
    placed = λ other o found. emptied-IsPlaced other o last found;
    filled = emptied-IsFilled;
    distinct = remove-Distinct key store.block_record valid.distinct;
  }

  lessened-IsPlaced :
      (other : Key) (o : BlockRecord)
      → lookup other (remove key store.block_record) ≡ some o
      → IsPlaced lessened other o
  lessened-IsPlaced other o found =
      let placed = valid.placed other o (was_there other o found).0 in
      let place = key_of other.record_type o.file in
      let f' : FileRecord = record f { blocks = f.blocks - 1 } in
      let here = lookup-insert at place f' store.file in
      elim (Bool-cases (key_beq at place)) [
        | inr away ↦ record {
          file_record = placed.file_record;
          found = ground (arith, placed.found);
          within = placed.within;
          last = placed.last;
          last_found = placed.last_found;
          not_after = placed.not_after;
        }
        | inl same ↦
            let e : at ≡ place = (key_beq_iff at place).0 same in
            let found' : lookup at store.file ≡ some placed.file_record =
              subst (λ k. lookup k store.file ≡ some placed.file_record) (sym e) placed.found in
            let own : placed.file_record ≡ f =
              ground (arith, found', (valid.placed key r present).found) in
            record {
              file_record = f';
              found = ground arith;
              within = omega (arith, placed.within, ap (λ (g : FileRecord). g.used) own);
              last = placed.last;
              last_found = placed.last_found;
              not_after = placed.not_after;
            }
      ]

  lessened-IsFilled :
      (place : Key) (g : FileRecord)
      → lookup place lessened.file ≡ some g
      → IsFilled lessened place g
  lessened-IsFilled place g found =
      let f' : FileRecord = record f { blocks = f.blocks - 1 } in
      let here = lookup-insert at place f' store.file in
      elim (Bool-cases (key_beq at place)) [
        | inr away ↦
            let old = valid.filled place g (ground arith) in
            record {
              bounded = old.bounded;
              fits = old.fits;
              content = old.content;
              content_found = old.content_found;
              whole = old.whole;
              few = old.few;
              counted = ground (arith, other_count place, old.counted);
            }
        | inl same ↦
            let e : at ≡ place = (key_beq_iff at place).0 same in
            let own : f' ≡ g = ground arith in
            let at_place : IsFilled lessened at f' = record {
              bounded = filled.bounded;
              fits = filled.fits;
              content = filled.content;
              content_found = filled.content_found;
              whole = filled.whole;
              few = omega (arith, filled.few);
              counted = omega (arith, rest_count);
            } in
            subst (λ k. IsFilled lessened k g) e (subst (IsFilled lessened at) own at_place)
      ]

  pub lessened-IsValid : IsValid lessened
  lessened-IsValid = record {
    small = valid.small;
    placed = lessened-IsPlaced;
    filled = lessened-IsFilled;
    distinct = remove-Distinct key store.block_record valid.distinct;
  }

  -- What is held after the removal of the record, with files in which the others are as they were.
  pub contents_removed :
      (file : List (Key × FileRecord)) (files : List (Key × List ℕ))
      → ((other : Key) (o : BlockRecord)
          → lookup other (remove key store.block_record) ≡ some o
          → lookup (key_of other.record_type o.file) files
            ≡ lookup (key_of other.record_type o.file) store.files)
      → (other : Key)
      → contents
          (record store {
            file = file;
            block_record = remove key store.block_record;
            files = files;
          })
          other
        ≡ (if key_beq key other then none else contents store other)
  unfolding contents
  contents_removed file files kept other =
      let here = lookup-remove key other store.block_record in
      elim (Option-cases (lookup other (remove key store.block_record))) [
        | inl gone ↦ ground arith
        | inr (o, found) ↦ ground (arith, kept other o found, was_there other o found)
      ]
