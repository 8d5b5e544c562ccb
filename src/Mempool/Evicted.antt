-- ===== src/Mempool/Evicted.antt =====
-- What `add_block` of src/mempool leaves in the pool.
use mathlib.Core.Path.{subst}
use rust_bitcoin_node.Prelude.{
  ℕ, ◌≤◌, ◌≡◌, refl, ◌∙◌, true, false, List, [], ◌∷◌, none, some, remove, lookup, lookup-remove,
  nat_eq, nat_beq_iff, if◌then◌else◌, ◌==◌, ◌≢◌, arith, All, length, map, is_empty, Bool-cases,
  Option-cases, inl, inr,
}
use rust_bitcoin_node.Bitcoin.{
  Library, OutPoint, TxIn, Transaction, Txid, outpoint_eq, outpoint_beq_iff,
}
use rust_bitcoin_node.Mempool.{MemPool, MemPoolEntry}
use rust_bitcoin_node.Mempool.Laws.{AreSpent, IsIndexed, spends}
use rust_bitcoin_node.Mempool.Eviction.{
  add_block, evict_txs, previous_outputs, remove_double_spends, remove_inputs,
}
use rust_bitcoin_node.Mempool.Removes.{
  AreFree, AreFree-later, Removes, both-Removes, length-remove, remove_double_spends_lem,
  same-Removes,
}

remove_inputs_lem :
    (inputs : List TxIn) (table : List (OutPoint × Txid)) (outpoint : OutPoint)
    → lookup outpoint (remove_inputs inputs table)
      ≡ (if spends inputs outpoint then none else lookup outpoint table)
unfolding remove_inputs
remove_inputs_lem [] table outpoint = refl
remove_inputs_lem (input ∷ inputs) table outpoint = ground (
  arith,
  remove_inputs_lem inputs (remove input.previous_output table) outpoint,
  lookup-remove input.previous_output outpoint table,
)

length-remove_inputs :
    (inputs : List TxIn) (table : List (OutPoint × Txid))
    → length (remove_inputs inputs table) ≤ length table
unfolding remove_inputs
length-remove_inputs [] table = omega arith
length-remove_inputs (input ∷ inputs) table = omega (
  arith,
  length-remove_inputs inputs (remove input.previous_output table),
  length-remove input.previous_output table,
)

own_spent :
    (txid : Txid) (inputs : List TxIn) (table : List (OutPoint × Txid)) (outpoint : OutPoint)
    → AreSpent txid inputs table
    → spends inputs outpoint ≡ true
    → lookup outpoint table ≡ some txid
own_spent txid [] table outpoint spent h = absurd (cc)
own_spent txid (input ∷ inputs) table outpoint (here, there) h =
    elim (Bool-cases (input.previous_output == outpoint)) [
      | inl same ↦
          subst (λ (o : OutPoint). lookup o table ≡ some txid)
            ((outpoint_beq_iff input.previous_output outpoint).0 same) here
      | inr other ↦ own_spent txid inputs table outpoint there (ground arith)
    ]

other_kept :
    (txid other : Txid) (inputs others : List TxIn) (table : List (OutPoint × Txid))
    → txid ≢ other
    → AreSpent txid inputs table
    → AreSpent other others table
    → AreSpent other others (remove_inputs inputs table)
other_kept txid other inputs [] table apart own spent = tt
other_kept txid other inputs (input ∷ others) table apart own (here, there) = (
  elim (Bool-cases (spends inputs input.previous_output)) [
    | inl both ↦
        let found = own_spent txid inputs table input.previous_output own both in
        absurd (ground arith)
    | inr free ↦ ground (arith, remove_inputs_lem inputs table input.previous_output)
  ],
  other_kept txid other inputs others table apart own there,
)

-- The pool without a transaction and its inputs.
abbrev confirmed : MemPool → Txid → MemPoolEntry → MemPool
confirmed pool txid entry = record {
  transactions = remove txid pool.transactions;
  spents = remove_inputs entry.tx.input pool.spents;
}

confirmed-Removes :
    (pool : MemPool) (txid : Txid) (entry : MemPoolEntry)
    → lookup txid pool.transactions ≡ some entry
    → Removes pool (confirmed pool txid entry)
confirmed-Removes pool txid entry present = record {
  shorter = length-remove_inputs entry.tx.input pool.spents;
  gone = λ o h. ground (arith, remove_inputs_lem entry.tx.input pool.spents o);
  indexed = λ indexed other found_entry found.
      let here = lookup-remove txid other pool.transactions in
      let apart : txid ≢ other = λ same. absurd (ground (arith, nat_beq_iff txid other)) in
      other_kept txid other entry.tx.input found_entry.tx.input pool.spents apart
        (indexed txid entry present) (indexed other found_entry (ground arith));
  fewer = λ other e found. ground (arith, lookup-remove txid other pool.transactions);
}

removed_inputs :
    (all inputs : List TxIn) (table : List (OutPoint × Txid))
    → ((outpoint : OutPoint) → spends inputs outpoint ≡ true → spends all outpoint ≡ true)
    → All
        (λ (o : OutPoint). lookup o (remove_inputs all table) ≡ none)
        (map (λ (input : TxIn). input.previous_output) inputs)
removed_inputs all [] table within = tt
removed_inputs all (input ∷ inputs) table within = (
  ground (
    arith,
    remove_inputs_lem all table input.previous_output,
    within input.previous_output,
    outpoint_beq_iff input.previous_output input.previous_output,
  ),
  removed_inputs all inputs table (λ outpoint h. ground (arith, within outpoint)),
)

-- An outpoint that the index does not have is spent by no transaction of an indexed pool.
not_spent :
    (inputs : List TxIn) (txid : Txid) (table : List (OutPoint × Txid)) (outpoint : OutPoint)
    → AreSpent txid inputs table
    → lookup outpoint table ≡ none
    → spends inputs outpoint ≡ false
not_spent inputs txid table outpoint spent free = elim (Bool-cases (spends inputs outpoint)) [
  | inr apart ↦ apart
  | inl h ↦ let found = own_spent txid inputs table outpoint spent h in absurd (ground arith)
]

-- No transaction of the pool spends the outpoint.
abbrev pub IsUnspent : MemPool → OutPoint → Type 0
IsUnspent pool outpoint =
    (txid : Txid) (entry : MemPoolEntry)
    → lookup txid pool.transactions ≡ some entry
    → spends entry.tx.input outpoint ≡ false

module _ ⦃lib : Library⦄ where
  -- What stands in the pool under the id of one of the transactions spends the same outpoints as it.
  abbrev pub Agrees : MemPool → List Transaction → Type 0
  Agrees pool txs =
      All
        (λ (tx : Transaction).
          (entry : MemPoolEntry)
          → lookup (lib.txid tx) pool.transactions ≡ some entry
          → previous_outputs entry.tx ≡ previous_outputs tx)
        txs

  Agrees-later :
      (pool pool' : MemPool) (txs : List Transaction)
      → Removes pool pool'
      → Agrees pool txs
      → Agrees pool' txs
  Agrees-later pool pool' [] removes agrees = tt
  Agrees-later pool pool' (tx ∷ txs) removes (here, there) = (
    λ entry found. here entry (removes.fewer (lib.txid tx) entry found),
    Agrees-later pool pool' txs removes there,
  )

  abbrev pub BlockFree : MemPool → List Transaction → Type 0
  BlockFree pool txs = All (λ (tx : Transaction). AreFree pool (previous_outputs tx)) txs

  evict_txs-missing :
      (fuel : ℕ) (tx : Transaction) (txs : List Transaction) (pool pool₁ : MemPool)
      → lookup (lib.txid tx) pool.transactions ≡ none
      → remove_double_spends fuel tx pool ≡ some pool₁
      → evict_txs fuel (tx ∷ txs) pool ≡ evict_txs fuel txs pool₁
  unfolding evict_txs
  evict_txs-missing fuel tx txs pool pool₁ missing step = ground arith

  evict_txs-present :
      (fuel : ℕ) (tx : Transaction) (txs : List Transaction) (pool : MemPool) (entry : MemPoolEntry)
      → lookup (lib.txid tx) pool.transactions ≡ some entry
      → evict_txs fuel (tx ∷ txs) pool ≡ evict_txs fuel txs (confirmed pool (lib.txid tx) entry)
  unfolding evict_txs
  evict_txs-present fuel tx txs pool entry present = ground arith

  evict_txs_lem :
      (fuel : ℕ) (txs : List Transaction) (pool : MemPool)
      → Agrees pool txs
      → length pool.spents ≤ fuel
      → (pool' : MemPool) × (evict_txs fuel txs pool ≡ some pool')
        × Removes pool pool'
        × BlockFree pool' txs
  unfolding evict_txs
  evict_txs_lem fuel [] pool agrees low = (pool, refl, same-Removes pool, tt)
  evict_txs_lem fuel (tx ∷ txs) pool (here, there) low =
      elim (Option-cases (lookup (lib.txid tx) pool.transactions)) [
        | inl missing ↦
            let (pool₁, step, first, freed) = remove_double_spends_lem fuel tx pool low in
            let (pool', done, second, rest) =
              evict_txs_lem fuel txs pool₁ (Agrees-later pool pool₁ txs first there)
                (omega (arith, first.shorter)) in
            (
              pool',
              evict_txs-missing fuel tx txs pool pool₁ missing step ∙ done,
              both-Removes pool pool₁ pool' first second,
              (AreFree-later pool₁ pool' (previous_outputs tx) second freed, rest),
            )
        | inr (entry, present) ↦
            let pool₁ = confirmed pool (lib.txid tx) entry in
            let first = confirmed-Removes pool (lib.txid tx) entry present in
            let (pool', done, second, rest) =
              evict_txs_lem fuel txs pool₁ (Agrees-later pool pool₁ txs first there)
                (omega (arith, first.shorter)) in
            let same = here entry present in
            let freed : AreFree pool₁ (previous_outputs tx) =
              subst (λ os. AreFree pool₁ os) same
                (removed_inputs entry.tx.input entry.tx.input pool.spents (λ o h. h)) in
            (
              pool',
              evict_txs-present fuel tx txs pool entry present ∙ done,
              both-Removes pool pool₁ pool' first second,
              (AreFree-later pool₁ pool' (previous_outputs tx) second freed, rest),
            )
      ]

  block-IsUnspent :
      (pool : MemPool) (outpoints : List OutPoint)
      → IsIndexed pool
      → AreFree pool outpoints
      → All (IsUnspent pool) outpoints
  block-IsUnspent pool [] indexed free = tt
  block-IsUnspent pool (o ∷ os) indexed (here, there) = (
    λ txid entry found. not_spent entry.tx.input txid pool.spents o (indexed txid entry found) here,
    block-IsUnspent pool os indexed there,
  )

  txs-IsUnspent :
      (pool : MemPool) (txs : List Transaction)
      → IsIndexed pool
      → BlockFree pool txs
      → All (λ (tx : Transaction). All (IsUnspent pool) (previous_outputs tx)) txs
  txs-IsUnspent pool [] indexed free = tt
  txs-IsUnspent pool (tx ∷ txs) indexed (here, there) = (
    block-IsUnspent pool (previous_outputs tx) indexed here,
    txs-IsUnspent pool txs indexed there,
  )

  -- The empty pool.
  nothing-IsUnspent :
      (pool : MemPool) (outpoints : List OutPoint)
      → is_empty pool.transactions ≡ true
      → All (IsUnspent pool) outpoints
  unfolding lookup
  nothing-IsUnspent pool [] none_left = tt
  nothing-IsUnspent pool (o ∷ os) none_left =
      (λ txid entry found. absurd (ground arith), nothing-IsUnspent pool os none_left)

  txs_nothing :
      (pool : MemPool) (txs : List Transaction)
      → is_empty pool.transactions ≡ true
      → All (λ (tx : Transaction). All (IsUnspent pool) (previous_outputs tx)) txs
  txs_nothing pool [] none_left = tt
  txs_nothing pool (tx ∷ txs) none_left =
      (nothing-IsUnspent pool (previous_outputs tx) none_left, txs_nothing pool txs none_left)

  -- Where the index agrees with the pool, and what the pool has under the id of a transaction of the
  -- block spends the same outpoints as that transaction: `add_block`, with fuel for the length of the
  -- index, ends. The index agrees with the pool after it, no transaction of that pool is new, and none of
  -- them spends an outpoint that a transaction of the block spends.
  pub add_block-Evicts :
      (fuel : ℕ) (txs : List Transaction) (pool : MemPool)
      → Agrees pool txs
      → IsIndexed pool
      → length pool.spents ≤ fuel
      → (pool' : MemPool) × (add_block fuel txs pool ≡ some pool')
        × IsIndexed pool'
        × ((txid : Txid) (entry : MemPoolEntry)
            → lookup txid pool'.transactions ≡ some entry
            → lookup txid pool.transactions ≡ some entry)
        × All (λ (tx : Transaction). All (IsUnspent pool') (previous_outputs tx)) txs
  unfolding add_block
  add_block-Evicts fuel txs pool agrees indexed low =
      elim (Bool-cases (is_empty pool.transactions)) [
        | inl none_left ↦ (pool, ground arith, indexed, λ t e h. h, txs_nothing pool txs none_left)
        | inr some_left ↦
            let (pool', done, removes, free) = evict_txs_lem fuel txs pool agrees low in
            let indexed' = removes.indexed indexed in
            (pool', ground arith, indexed', removes.fewer, txs-IsUnspent pool' txs indexed' free)
      ]
