-- ===== src/Mempool/Removes.antt =====
-- What the removals of src/mempool have in common, and that they end.
use rust_bitcoin_node.Prelude.{
  ℕ, zero, suc, ◌≤◌, ◌<◌, ◌≡◌, refl, List, [], ◌∷◌, Option, none, some, remove, lookup,
  lookup-remove, nat_eq, nat_beq_iff, ◌≢◌, arith, All, Eq, length, Option-cases, inl, inr,
}
use rust_bitcoin_node.Bitcoin.{
  Library, OutPoint, TxIn, Transaction, Txid, outpoint_eq, outpoint_beq_iff,
}
use rust_bitcoin_node.Mempool.{MemPool, MemPoolEntry, remove_spent}
use rust_bitcoin_node.Mempool.Laws.{AreSpent, IsIndexed}
use rust_bitcoin_node.Mempool.Eviction.{
  outpoints_from, previous_outputs, remove_double_spends, remove_each, remove_spenders,
}

-- The pool after is the pool before with some transactions and some of the index gone.
pub record Removes (pool pool' : MemPool) : Type 0 where
  pub shorter : length pool'.spents ≤ length pool.spents
  pub gone :
      (outpoint : OutPoint)
      → lookup outpoint pool.spents ≡ none
      → lookup outpoint pool'.spents ≡ none
  pub indexed : IsIndexed pool → IsIndexed pool'
  pub fewer :
      (txid : Txid) (entry : MemPoolEntry)
      → lookup txid pool'.transactions ≡ some entry
      → lookup txid pool.transactions ≡ some entry

pub same-Removes : (pool : MemPool) → Removes pool pool
same-Removes pool = record {
  shorter = omega arith;
  gone = λ o h. h;
  indexed = λ h. h;
  fewer = λ t e h. h;
}

pub both-Removes :
    (pool pool' pool'' : MemPool) → Removes pool pool' → Removes pool' pool'' → Removes pool pool''
both-Removes pool pool' pool'' first second = record {
  shorter = omega (arith, first.shorter, second.shorter);
  gone = λ o h. second.gone o (first.gone o h);
  indexed = λ h. second.indexed (first.indexed h);
  fewer = λ t e h. first.fewer t e (second.fewer t e h);
}

module _ {ℓ κ} {K : Type ℓ} {V : Type κ} ⦃e : Eq K⦄ where
  pub length-remove : (k : K) (m : List (K × V)) → length (remove k m) ≤ length m
  unfolding remove
  length-remove k [] = omega arith
  length-remove k ((j, w) ∷ m) = ground (arith, length-remove k m)

  length-remove-present :
      (k : K) (v : V) (m : List (K × V)) → lookup k m ≡ some v → length (remove k m) < length m
  unfolding remove lookup
  length-remove-present k v [] found = absurd (cc)
  length-remove-present k v ((j, w) ∷ m) found =
      ground (arith, length-remove k m, length-remove-present k v m)

-- Taking outpoints of one transaction off the index leaves the inputs of another.
kept_spent :
    (outpoint : OutPoint) (txid other : Txid) (inputs : List TxIn) (table : List (OutPoint × Txid))
    → lookup outpoint table ≡ some txid
    → txid ≢ other
    → AreSpent other inputs table
    → AreSpent other inputs (remove outpoint table)
kept_spent outpoint txid other [] table at apart spent = tt
kept_spent outpoint txid other (input ∷ inputs) table at apart (here, there) = (
  ground (
    arith,
    lookup-remove outpoint input.previous_output table,
    outpoint_beq_iff outpoint input.previous_output,
  ),
  kept_spent outpoint txid other inputs table at apart there,
)

-- The pool without a spent outpoint and its spender.
spent-Removes :
    (pool : MemPool) (outpoint : OutPoint) (txid : Txid)
    → lookup outpoint pool.spents ≡ some txid
    → Removes pool (record {
      transactions = remove txid pool.transactions;
      spents = remove outpoint pool.spents;
    })
spent-Removes pool outpoint txid at = record {
  shorter = length-remove outpoint pool.spents;
  gone = λ o h. ground (arith, lookup-remove outpoint o pool.spents);
  indexed = λ indexed other entry found.
      let here = lookup-remove txid other pool.transactions in
      let apart : txid ≢ other = λ same. absurd (ground (arith, nat_beq_iff txid other)) in
      kept_spent outpoint txid other entry.tx.input pool.spents at apart
        (indexed other entry (ground arith));
  fewer = λ other entry found. ground (arith, lookup-remove txid other pool.transactions);
}

remove_spent-free :
    (pool : MemPool) (outpoint : OutPoint)
    → lookup outpoint pool.spents ≡ none
    → remove_spent pool outpoint ≡ (pool, none)
unfolding remove_spent
remove_spent-free pool outpoint free = ground arith

remove_spent-taken :
    (pool : MemPool) (outpoint : OutPoint) (txid : Txid)
    → lookup outpoint pool.spents ≡ some txid
    → remove_spent pool outpoint ≡ (
      record { transactions = remove txid pool.transactions; spents = remove outpoint pool.spents },
      lookup txid pool.transactions,
    )
unfolding remove_spent
remove_spent-taken pool outpoint txid at = ground arith

-- What one call of `remove_spent` does: it frees the outpoint, and where it gives an entry the index
-- got shorter.
pub remove_spent_lem :
    (pool : MemPool) (outpoint : OutPoint)
    → Removes pool (remove_spent pool outpoint).0
      × (lookup outpoint (remove_spent pool outpoint).0.spents ≡ none)
      × ((remove_spent pool outpoint).1 ≢ none
          → length (remove_spent pool outpoint).0.spents < length pool.spents)
remove_spent_lem pool outpoint = elim (Option-cases (lookup outpoint pool.spents)) [
  | inl free ↦
      rw (remove_spent-free pool outpoint free) (same-Removes pool, free, λ h. absurd (h refl))
  | inr (txid, at) ↦ rw (remove_spent-taken pool outpoint txid at) (
    spent-Removes pool outpoint txid at,
    ground (arith, lookup-remove outpoint outpoint pool.spents, outpoint_beq_iff outpoint outpoint),
    λ h. length-remove-present outpoint txid pool.spents at,
  )
]

abbrev pub AreFree : MemPool → List OutPoint → Type 0
AreFree pool outpoints = All (λ (o : OutPoint). lookup o pool.spents ≡ none) outpoints

pub AreFree-later :
    (pool pool' : MemPool) (outpoints : List OutPoint)
    → Removes pool pool'
    → AreFree pool outpoints
    → AreFree pool' outpoints
AreFree-later pool pool' [] removes free = tt
AreFree-later pool pool' (o ∷ os) removes (here, there) =
    (removes.gone o here, AreFree-later pool pool' os removes there)

-- A removal that ends, for pools whose index is shorter than a bound.
abbrev Ends : ℕ → (MemPoolEntry → MemPool → Option MemPool) → Type 0
Ends bound spenders =
    (entry : MemPoolEntry) (pool : MemPool)
    → length pool.spents < bound
    → (pool' : MemPool) × (spenders entry pool ≡ some pool') × Removes pool pool'

remove_each_lem :
    (bound : ℕ) (spenders : MemPoolEntry → MemPool → Option MemPool)
    → Ends bound spenders
    → (outpoints : List OutPoint) (pool : MemPool) → length pool.spents ≤ bound
    → (pool' : MemPool) × (remove_each spenders outpoints pool ≡ some pool')
      × Removes pool pool'
      × AreFree pool' outpoints
unfolding remove_each
remove_each_lem bound spenders ends [] pool low = (pool, refl, same-Removes pool, tt)
remove_each_lem bound spenders ends (o ∷ os) pool low =
    let (first, free, less) = remove_spent_lem pool o in
    let pool₁ = (remove_spent pool o).0 in
    elim (Option-cases (remove_spent pool o).1) [
      | inl unspent ↦
          let (pool', done, second, freed) =
            remove_each_lem bound spenders ends os pool₁ (omega (arith, first.shorter)) in
          (
            pool',
            rw unspent done,
            both-Removes pool pool₁ pool' first second,
            (second.gone o free, freed),
          )
      | inr (entry, spender) ↦
          let shorter = less (λ h. absurd (ground arith)) in
          let (pool₂, step, second) = ends entry pool₁ (omega arith) in
          let (pool', done, third, freed) =
            remove_each_lem bound spenders ends os pool₂
              (omega (arith, first.shorter, second.shorter)) in
          let rest = both-Removes pool₁ pool₂ pool' second third in
          (
            pool',
            rw spender (rw step done),
            both-Removes pool pool₁ pool' first rest,
            (rest.gone o free, freed),
          )
    ]

module _ ⦃lib : Library⦄ where
  remove_spenders_lem : (fuel : ℕ) → Ends fuel (remove_spenders fuel)
  unfolding remove_spenders
  remove_spenders_lem zero entry pool low = absurd (omega arith)
  remove_spenders_lem (suc fuel) entry pool low =
      let (pool', done, removes, _) =
        remove_each_lem fuel (remove_spenders fuel) (remove_spenders_lem fuel)
          (outpoints_from (lib.txid entry.tx) 0 (length entry.tx.output)) pool (omega arith) in
      (pool', done, removes)

  -- With fuel for the length of the index, `remove_double_spends` ends, and the outpoints that the
  -- transaction spends are off the index.
  pub remove_double_spends_lem :
      (fuel : ℕ) (tx : Transaction) (pool : MemPool)
      → length pool.spents ≤ fuel
      → (pool' : MemPool) × (remove_double_spends fuel tx pool ≡ some pool')
        × Removes pool pool'
        × AreFree pool' (previous_outputs tx)
  unfolding remove_double_spends
  remove_double_spends_lem fuel tx pool low =
      remove_each_lem fuel (remove_spenders fuel) (remove_spenders_lem fuel) (previous_outputs tx)
        pool low
