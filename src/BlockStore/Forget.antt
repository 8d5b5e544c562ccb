-- ===== src/BlockStore/Forget.antt =====
-- What `prune` of src/blockstore/mod.rs leaves of what the store holds, and of `downloaded_set`.
use rust_bitcoin_node.Prelude.{
  ◌-◌, ◌≡◌, refl, true, false, List, [], ◌∷◌, none, some, arith, lookup, remove, lookup-remove, ok,
  contains_key, contains, Option-cases, Bool-cases, inl, inr, if◌then◌else◌, nat_beq, map, nat_eq,
}
use rust_bitcoin_node.Bitcoin.{BlockHash}
use rust_bitcoin_node.BlockStore.Records.{
  BlockRecord, Key, block, undo, key_beq, key_beq_iff, key_eq,
}
use rust_bitcoin_node.BlockStore.Store.{
  BlockStore, key_of, prune, prune_record, has, downloaded_set,
}
use rust_bitcoin_node.BlockStore.Valid.{IsValid}
use rust_bitcoin_node.BlockStore.Append.{contents}
use rust_bitcoin_node.BlockStore.Refine.{contents-none}
use rust_bitcoin_node.BlockStore.Prune.{
  at, blocks_lem, contents_removed, elsewhere, emptied, emptied-IsValid, f, filled, lessened,
  lessened-IsValid, rest_count,
}

-- What a pruned store is.
abbrev Forgets : BlockStore → BlockHash → BlockStore → Type 0
Forgets store hash store' =
    IsValid store'
    × ((other : Key)
        → contents store' other
          ≡ (if key_beq (key_of block hash) other then none else contents store other))

module _ (store : BlockStore) (valid : IsValid store) (hash : BlockHash) where
  prune-present :
      (r : BlockRecord)
      → lookup (key_of block hash) store.block_record ≡ some r
      → (store' : BlockStore) × (prune store hash ≡ ok (store', true)) × Forgets store hash store'
  unfolding prune prune_record
  prune-present r present =
      let key = key_of block hash in
      let placed = valid.placed key r present in
      let count = blocks_lem store valid key r present in
      let content = filled store valid key r present in
      elim (Bool-cases (nat_beq (f store valid key r present).blocks 1)) [
        | inl one ↦
            let last : (f store valid key r present).blocks - 1 ≡ 0 = ground arith in
            (
              emptied store valid key r present,
              ground (arith, placed.found, content.content_found),
              (
                emptied-IsValid store valid key r present last,
                contents_removed store valid key r present _ _ (λ other o found. ground (
                  arith,
                  lookup-remove (at store valid key r present) (key_of other.record_type o.file)
                      store.files,
                  elsewhere store valid key r present other o last found,
                  key_beq_iff (at store valid key r present) (key_of other.record_type o.file),
                  key_beq_iff (key_of other.record_type o.file) (at store valid key r present),
                )),
              ),
            )
        | inr more ↦
            let rest = rest_count store valid key r present in
            (
              lessened store valid key r present,
              ground (arith, placed.found),
              (
                lessened-IsValid store valid key r present,
                contents_removed store valid key r present _ _ (λ other o found. refl),
              ),
            )
      ]

  -- In a store whose index agrees with its files, `prune` succeeds and says whether the block was there:
  -- the index agrees again, the store holds nothing under the block, and what it held under every other
  -- key, in the same file or not.
  pub prune_lem :
      (store' : BlockStore) × (prune store hash ≡ ok (store', has store hash))
      × Forgets store hash store'
  unfolding prune has contains_key
  prune_lem =
      let key = key_of block hash in
      elim (Option-cases (lookup key store.block_record)) [
        | inr (r, present) ↦
            let (store', done, forgets) = prune-present r present in (store', ground arith, forgets)
        | inl missing ↦
            let free = contents-none store key missing in
            (store, ground arith, (valid, λ other. ground (arith, key_beq_iff key other)))
      ]

listed :
    (table : List (Key × BlockRecord)) (key : Key) (r : BlockRecord)
    → lookup key table ≡ some r
    → contains key.number (map (λ (entry : Key × BlockRecord). entry.0.number) table) ≡ true
unfolding lookup contains
listed [] key r found = absurd (cc)
listed ((first, old) ∷ table) key r found =
    ground (arith, key_beq_iff first key, listed table key r)

pruned_records :
    (store store' : BlockStore) (hash : BlockHash) (b : BlockRecord)
    → lookup (key_of block hash) store.block_record ≡ some b
    → prune store hash ≡ ok (store', true)
    → store'.block_record ≡ remove (key_of block hash) store.block_record
unfolding prune prune_record
pruned_records store store' hash b present pruned =
    elim (Option-cases (lookup (key_of block b.file) store.file)) [
      | inl missing ↦ absurd (ground arith)
      | inr (g, found) ↦ elim (Option-cases (lookup (key_of block b.file) store.files)) [
        | inl missing ↦ ground arith
        | inr (content, open_file) ↦ ground arith
      ]
    ]

-- After a block is pruned whose undo data the store holds, `downloaded_set` still has its hash though
-- `has` says that the block is not there: it takes the hashes of the undo records as well.
pub downloaded_set-prune :
    (store store' : BlockStore) (hash : BlockHash) (b r : BlockRecord)
    → lookup (key_of block hash) store.block_record ≡ some b
    → lookup (key_of undo hash) store.block_record ≡ some r
    → prune store hash ≡ ok (store', true)
    → (has store' hash ≡ false) × (contains hash (downloaded_set store') ≡ true)
unfolding has contains_key downloaded_set
downloaded_set-prune store store' hash b r present with_undo pruned =
    let records = pruned_records store store' hash b present pruned in
    let key = key_of block hash in
    let gone = lookup-remove key key store.block_record in
    let stays = lookup-remove key (key_of undo hash) store.block_record in
    let r' : lookup (key_of undo hash) (remove key store.block_record) ≡ some r =
      ground (arith, key_beq_iff key (key_of undo hash)) in
    let hashes = listed (remove key store.block_record) (key_of undo hash) r r' in
    rw records (ground (arith, key_beq_iff key key), hashes)
