-- ===== src/Mempool/Laws.antt =====
-- The index of the spent outpoints in src/mempool agrees with the pool.
use rust_bitcoin_node.Prelude.{
  ℕ, ◌≡◌, refl, sym, ◌∙◌, Bool, true, false, List, [], ◌∷◌, none, some, insert, lookup,
  lookup-insert, lookup-remove, ◌≢◌, contains_key, nat_eq, nat_beq_iff, any, if◌then◌else◌, ◌==◌,
  arith, ok, >>=-eq-ok, expect, reject_if, All, not, Bool-cases, inl, inr, map_err,
}
use rust_bitcoin_node.Bitcoin.{
  Library, OutPoint, TxIn, Transaction, Txid, outpoint_eq, outpoint_beq_iff,
}
use rust_bitcoin_node.Coins.{empty_view}
use rust_bitcoin_node.Blockchain.Chain.{Chain}
use rust_bitcoin_node.Primitives.Tx.{signals_replacement}
use rust_bitcoin_node.Mempool.{
  MemPool, MemPoolEntry, add_tx, check_entry, coin_view, insert_spents, remove_spent,
  is_double_spend, orphan, double_spend, replace_by_fee, spends_coinbase,
  transaction_verification_error, verify_entry,
}

-- Each input of a transaction stands in the index under its transaction.
abbrev pub AreSpent : Txid → List TxIn → List (OutPoint × Txid) → Type 0
AreSpent txid inputs spents =
    All (λ (input : TxIn). lookup input.previous_output spents ≡ some txid) inputs

-- The index has the inputs of every transaction of the pool, each under its transaction, so no two
-- transactions of the pool spend the same outpoint.
abbrev pub IsIndexed : MemPool → Type 0
IsIndexed pool =
    (txid : Txid) (entry : MemPoolEntry)
    → lookup txid pool.transactions ≡ some entry
    → AreSpent txid entry.tx.input pool.spents

abbrev pub spends : List TxIn → OutPoint → Bool
spends inputs outpoint = any (λ (input : TxIn). input.previous_output == outpoint) inputs

insert_spents_lem :
    (hash : Txid) (inputs : List TxIn) (table : List (OutPoint × Txid)) (outpoint : OutPoint)
    → lookup outpoint (insert_spents hash inputs table)
      ≡ (if spends inputs outpoint then some hash else lookup outpoint table)
unfolding insert_spents
insert_spents_lem hash [] table outpoint = refl
insert_spents_lem hash (input ∷ inputs) table outpoint = ground (
  arith,
  insert_spents_lem hash inputs (insert input.previous_output hash table) outpoint,
  lookup-insert input.previous_output outpoint hash table,
)

-- The inputs that were entered are in the index.
own_spends :
    (hash : Txid) (all inputs : List TxIn) (table : List (OutPoint × Txid))
    → ((outpoint : OutPoint) → spends inputs outpoint ≡ true → spends all outpoint ≡ true)
    → AreSpent hash inputs (insert_spents hash all table)
own_spends hash all [] table within = tt
own_spends hash all (input ∷ inputs) table within = (
  ground (
    arith,
    insert_spents_lem hash all table input.previous_output,
    within input.previous_output,
    outpoint_beq_iff input.previous_output input.previous_output,
  ),
  own_spends hash all inputs table (λ outpoint h. ground (arith, within outpoint)),
)

-- Where no input of a transaction is in the index, entering them leaves what is there.
no_spend :
    (pool : MemPool) (inputs : List TxIn) (outpoint : OutPoint) (txid : Txid)
    → is_double_spend pool inputs ≡ false
    → lookup outpoint pool.spents ≡ some txid
    → spends inputs outpoint ≡ false
unfolding is_double_spend contains_key
no_spend pool [] outpoint txid h found = refl
no_spend pool (input ∷ inputs) outpoint txid h found =
    elim (Bool-cases (input.previous_output == outpoint)) [
      | inl same ↦
          let at : input.previous_output ≡ outpoint =
            (outpoint_beq_iff input.previous_output outpoint).0 same in
          let found' : lookup input.previous_output pool.spents ≡ some txid = rw at found in
          absurd (ground arith)
      | inr other ↦ rw other (no_spend pool inputs outpoint txid (ground arith) found)
    ]

kept_spends :
    (pool : MemPool) (hash txid : Txid) (inputs others : List TxIn)
    → is_double_spend pool inputs ≡ false
    → AreSpent txid others pool.spents
    → AreSpent txid others (insert_spents hash inputs pool.spents)
kept_spends pool hash txid inputs [] h old = tt
kept_spends pool hash txid inputs (other ∷ others) h (found, old) = (
  insert_spents_lem hash inputs pool.spents other.previous_output
      ∙ rw (no_spend pool inputs other.previous_output txid h found) found,
  kept_spends pool hash txid inputs others h old,
)

not_double_spend :
    (b replaces : Bool) {u : Unit {0}}
    → reject_if b (if replaces then replace_by_fee else double_spend) ≡ ok u
    → b ≡ false
not_double_spend b replaces e = ground arith

-- The pool with a transaction more.
abbrev grown : MemPool → Txid → MemPoolEntry → MemPool
grown pool hash added = record {
  transactions = insert hash added pool.transactions;
  spents = insert_spents hash added.tx.input pool.spents;
}

grown-IsIndexed :
    (pool : MemPool) (hash : Txid) (added : MemPoolEntry)
    → IsIndexed pool
    → is_double_spend pool added.tx.input ≡ false
    → IsIndexed (grown pool hash added)
grown-IsIndexed pool hash added indexed new txid entry found =
    let here = lookup-insert hash txid added pool.transactions in
    elim (Bool-cases (hash == txid)) [
      | inl same ↦
          let at : hash ≡ txid = (nat_beq_iff hash txid).0 same in
          let both : some entry ≡ some added = sym found ∙ (rw same at here) in
          let own : entry ≡ added = cc in
          rw (own, sym at) (own_spends hash added.tx.input added.tx.input pool.spents (λ o h. h))
      | inr other ↦
          kept_spends pool hash txid added.tx.input entry.tx.input new
            (indexed txid entry (sym (rw other at here) ∙ found))
    ]

module _ ⦃lib : Library⦄ where
  -- `add_tx` keeps the index in agreement with the pool: where it accepts a transaction, the inputs of
  -- every transaction of the pool are still in the index, each under its transaction.
  pub add_tx-IsIndexed :
      (now : ℕ) (chain : Chain) (pool pool' : MemPool) (tx : Transaction)
      → IsIndexed pool
      → add_tx now chain pool tx ≡ ok pool'
      → IsIndexed pool'
  unfolding add_tx
  add_tx-IsIndexed now chain pool pool' tx indexed e =
      let (_, _, e₁) = >>=-eq-ok (check_entry now chain pool tx) _ e in
      let replaces = if signals_replacement tx then replace_by_fee else double_spend in
      let (_, new, e₂) = >>=-eq-ok (reject_if (is_double_spend pool tx.input) replaces) _ e₁ in
      let (m, _, e₃) = >>=-eq-ok (expect (coin_view pool chain tx.input [])) _ e₂ in
      let (_, _, e₄) =
        >>=-eq-ok
          (reject_if (any (λ (input : TxIn). not (contains_key input.previous_output m)) tx.input)
            orphan)
          _ e₃ in
      let (coinbase, _, e₅) = >>=-eq-ok (expect (spends_coinbase m tx.input)) _ e₄ in
      let (_, _, e₆) =
        >>=-eq-ok
          (map_err transaction_verification_error
            (verify_entry chain tx (record empty_view { map = m })))
          _ e₅ in
      let added : MemPoolEntry = record { tx = tx; height = chain.height; coinbase = coinbase } in
      let same : pool' ≡ grown pool (lib.txid tx) added = cc in
      rw same (
        grown-IsIndexed pool (lib.txid tx) added indexed
          (not_double_spend _ (signals_replacement tx) new))

-- `remove_spent` takes only the one outpoint off the index: where the index has another outpoint under
-- the same transaction, that stays there, though the transaction is no longer in the pool.
pub remove_spent-stale :
    (pool : MemPool) (outpoint other : OutPoint) (txid : Txid)
    → lookup outpoint pool.spents ≡ some txid
    → lookup other pool.spents ≡ some txid
    → outpoint ≢ other
    → (lookup txid (remove_spent pool outpoint).0.transactions ≡ none)
      × (lookup other (remove_spent pool outpoint).0.spents ≡ some txid)
unfolding remove_spent
remove_spent-stale pool outpoint other txid spent listed apart = (
  ground (arith, lookup-remove txid txid pool.transactions, nat_beq_iff txid txid),
  ground (arith, lookup-remove outpoint other pool.spents, outpoint_beq_iff outpoint other),
)
