-- ===== src/Blockchain/Roundtrip.antt =====
-- Taking a block off the chain gives back the coins that it spent and takes away those that it
-- made: `disconnect_block` undoes what `save_view` wrote for the view of the block.
use rust_bitcoin_node.Prelude.{
  ℕ, suc, ◌≡◌, refl, true, false, List, [], ◌∷◌, none, some, lookup, insert, lookup-insert,
  lookup-remove, ok, >>=-eq-ok, nat_beq, if◌then◌else◌, map, arith, ◌∙◌, ap, Option-cases, inl, inr,
  Bool-cases,
}
use rust_bitcoin_node.Prelude.Partial.{◌>>=◌}
use rust_bitcoin_node.Bitcoin.{
  Library, OutPoint, TxIn, TxOut, Transaction, outpoint_eq, outpoint_beq_iff,
}
use rust_bitcoin_node.Coins.{
  CoinEntry, CoinMap, CoinView, spend_input, spend_input_list, spend_inputs, add_tx, view_tx,
  view_txs, remove_tx, undo_apply, undo_apply_items, get_output,
}
use rust_bitcoin_node.Coins.Encoding.{reload, reload-unspent}
use rust_bitcoin_node.Coins.Laws.{
  Utxo, overlay, overlay-insert, Spends, spend_input-Spends, written, index_tx_lem,
}
use rust_bitcoin_node.Blockchain.State
use rust_bitcoin_node.Blockchain.Disk.{Disk, Batch, write_batch}
use rust_bitcoin_node.Blockchain.Connect.{
  Undoing, restore_input, restore_inputs, disconnect_tx, disconnect_txs, save_view, take_outputs,
}

-- The coins that `save_view` leaves on disk are those that the view stands for.
pub lookup-save_view :
    (m : CoinMap) (batch : Batch) (d : Disk) (o : OutPoint)
    → lookup o (write_batch (save_view m batch) d).coin
      ≡ overlay (λ p. lookup p (write_batch batch d).coin) m o
unfolding save_view write_batch lookup
lookup-save_view [] batch d o = refl
lookup-save_view ((p, coin) ∷ m) batch d o =
    let e = write_batch (save_view m batch) d in
    ground (
      arith,
      lookup-save_view m batch d o,
      lookup-insert p o (reload coin) e.coin,
      lookup-remove p o e.coin,
      reload-unspent coin,
    )

-- The undo in progress has come back to a view: the same coins, where `Q` holds, and the undo list
-- as it was stored.
pub record Matches (Q : OutPoint → Type 0) (disk db : Utxo) (u : Undoing) (view : CoinView)
    : Type 0 where
  pub same : (p : OutPoint) → Q p → overlay disk u.view.map p ≡ overlay db view.map p
  pub undone : u.undo.items ≡ map reload view.undo.items

-- The undo in progress after one input: its coin is in the view again.
abbrev restored : Undoing → OutPoint → CoinEntry → List CoinEntry → Undoing
restored u o coin items = record {
  view = record u.view { map = insert o (reload coin) u.view.map };
  undo = record { items = items };
  pending = State.add u.pending coin.output;
}

restore_input-pop :
    (input : TxIn) (u : Undoing) (coin : CoinEntry) (items : List CoinEntry)
    → u.undo.items ≡ reload coin ∷ items
    → restore_input input u ≡ some (restored u input.previous_output coin items)
unfolding restore_input undo_apply undo_apply_items get_output reload
restore_input-pop input u coin items e =
    let o = input.previous_output in
    ground (arith, lookup-insert o o (reload coin) u.view.map, outpoint_beq_iff o o)

restore_input-Matches :
    (Q : OutPoint → Type 0) (disk db : Utxo) (view view' : CoinView) (input : TxIn)
    (coin : CoinEntry) (u : Undoing)
    → Spends db view view' input.previous_output coin
    → Matches Q disk db u view'
    → (u' : Undoing) × (restore_input input u ≡ some u') × Matches Q disk db u' view
unfolding reload
restore_input-Matches Q disk db view view' input coin u s m =
    let o = input.previous_output in
    let items = map reload view.undo.items in
    (
      restored u o coin items,
      restore_input-pop input u coin items (m.undone ∙ ap (map reload) s.pushed),
      record {
        same = λ p q. ground (
          arith,
          overlay-insert disk o p (reload coin) u.view.map,
          s.taken p,
          m.same p q,
          s.found,
          s.was_unspent,
          outpoint_beq_iff o p,
        );
        undone = refl;
      },
    )

restore_inputs-Matches :
    (Q : OutPoint → Type 0) (disk db : Utxo) (view view' : CoinView) (inputs : List TxIn)
    (u : Undoing)
    → spend_input_list db view inputs ≡ ok view'
    → Matches Q disk db u view'
    → (u' : Undoing) × (restore_inputs inputs u ≡ some u') × Matches Q disk db u' view
unfolding restore_inputs spend_input_list
restore_inputs-Matches Q disk db view view' [] u e m = (
  u,
  refl,
  record { same = λ p q. ground (arith, m.same p q); undone = ground (arith, m.undone) },
)
restore_inputs-Matches Q disk db view view' (input ∷ inputs) u e m =
    let (view₁, first, others) = >>=-eq-ok (spend_input db view input) _ e in
    let (coin, s) = spend_input-Spends db view view₁ input first in
    let (u₁, run₁, m₁) = restore_inputs-Matches Q disk db view₁ view' inputs u others m in
    let (u₂, run₂, m₂) = restore_input-Matches Q disk db view view₁ input coin u₁ s m₁ in
    (u₂, rw run₁ run₂, m₂)

module _ ⦃lib : Library⦄ where
  -- No output of the transaction is a coin yet.
  abbrev pub IsFresh : Utxo → CoinView → Transaction → Type 0
  IsFresh db view tx =
      (p : OutPoint) (output : TxOut)
      → written tx 0 tx.output p ≡ some output
      → overlay db view.map p ≡ none

  remove_tx-Matches :
      (disk db : Utxo) (view : CoinView) (height : ℕ) (tx : Transaction) (u : Undoing)
      → IsFresh db view tx
      → ((p : OutPoint)
          → written tx 0 tx.output p ≡ none
          → overlay disk u.view.map p ≡ overlay db view.map p)
      → (p : OutPoint) → overlay disk (remove_tx u.view tx height).map p ≡ overlay db view.map p
  unfolding remove_tx
  remove_tx-Matches disk db view height tx u fresh same p =
      elim (Option-cases (written tx 0 tx.output p)) [
        | inl e ↦ ground (arith, index_tx_lem disk u.view.map tx height true p, same p e)
        | inr (output, e) ↦
            ground (arith, index_tx_lem disk u.view.map tx height true p, fresh p output e)
      ]

  -- Away from the outputs of a transaction, adding it changes no coin.
  add_tx-Matches :
      (disk db : Utxo) (spent view' : CoinView) (height : ℕ) (tx : Transaction) (u : Undoing)
      → add_tx spent tx height ≡ view'
      → Matches (λ p. Unit {0}) disk db u view'
      → Matches (λ p. written tx 0 tx.output p ≡ none) disk db u spent
  unfolding add_tx
  add_tx-Matches disk db spent view' height tx u e m = record {
    same = λ p q. ground (arith, m.same p tt, index_tx_lem db spent.map tx height false p);
    undone = ground (arith, m.undone);
  }

  inputs-Matches :
      (disk db : Utxo) (view spent : CoinView) (index : ℕ) (tx : Transaction) (u : Undoing)
      → lib.is_coin_base tx ≡ nat_beq index 0
      → (if lib.is_coin_base tx then ok view else spend_inputs db view tx) ≡ ok spent
      → Matches (λ p. written tx 0 tx.output p ≡ none) disk db u spent
      → (u' : Undoing) × ((if nat_beq index 0 then some u else restore_inputs tx.input u) ≡ some u')
        × Matches (λ p. written tx 0 tx.output p ≡ none) disk db u' view
  unfolding spend_inputs
  inputs-Matches disk db view spent index tx u coinbase e m = elim (Bool-cases (nat_beq index 0)) [
    | inl first ↦ (
      u,
      rw first refl,
      record { same = λ p q. ground (arith, m.same p q); undone = ground (arith, m.undone) },
    )
    | inr later ↦
        rw later
          (restore_inputs-Matches _ disk db view spent tx.input u (rw (coinbase, later) at e) m)
  ]

  disconnect_tx-Matches :
      (disk db : Utxo) (view view' : CoinView) (height index : ℕ) (tx : Transaction) (u : Undoing)
      → lib.is_coin_base tx ≡ nat_beq index 0
      → IsFresh db view tx
      → view_tx db view height tx ≡ ok view'
      → Matches (λ p. Unit {0}) disk db u view'
      → (u' : Undoing) × (disconnect_tx height index tx u ≡ some u')
        × Matches (λ p. Unit {0}) disk db u' view
  unfolding disconnect_tx view_tx
  disconnect_tx-Matches disk db view view' height index tx u coinbase fresh e m =
      let (spent, e₁, e₂) =
        >>=-eq-ok (if lib.is_coin_base tx then ok view else spend_inputs db view tx) _ e in
      let m₁ = add_tx-Matches disk db spent view' height tx u (cc) m in
      let (u₁, run, m₂) = inputs-Matches disk db view spent index tx u coinbase e₁ m₁ in
      (
        record u₁ {
          view = remove_tx u₁.view tx height;
          pending = take_outputs tx.output u₁.pending;
        },
        rw (run, ◌>>=◌) refl,
        record {
          same = λ p q. remove_tx-Matches disk db view height tx u₁ fresh m₂.same p;
          undone = m₂.undone;
        },
      )

  -- Only the first transaction is a coinbase, and each finds its outputs fresh.
  abbrev pub IsOrderly : Utxo → CoinView → ℕ → ℕ → List Transaction → Type 0
  IsOrderly db view height index [] = Unit
  IsOrderly db view height index (tx ∷ txs) =
      (lib.is_coin_base tx ≡ nat_beq index 0)
      × IsFresh db view tx
      × ((view' : CoinView)
          → view_tx db view height tx ≡ ok view'
          → IsOrderly db view' height (suc index) txs)

  pub disconnect_txs-Matches :
      (disk db : Utxo) (view view' : CoinView) (height index : ℕ) (txs : List Transaction)
      (u : Undoing)
      → IsOrderly db view height index txs
      → view_txs db view height txs ≡ ok view'
      → Matches (λ p. Unit {0}) disk db u view'
      → (u' : Undoing) × (disconnect_txs height index txs u ≡ some u')
        × Matches (λ p. Unit {0}) disk db u' view
  unfolding disconnect_txs view_txs
  disconnect_txs-Matches disk db view view' height index [] u o e m = (
    u,
    refl,
    record { same = λ p q. ground (arith, m.same p q); undone = ground (arith, m.undone) },
  )
  disconnect_txs-Matches disk db view view' height index (tx ∷ txs) u (coinbase, fresh, rest) e m =
      let (view₁, first, others) = >>=-eq-ok (view_tx db view height tx) _ e in
      let (u₁, run₁, m₁) =
        disconnect_txs-Matches disk db view₁ view' height (suc index) txs u (rest view₁ first)
          others m in
      let (u₂, run₂, m₂) =
        disconnect_tx-Matches disk db view view₁ height index tx u₁ coinbase fresh first m₁ in
      (u₂, rw (run₁, ◌>>=◌) run₂, m₂)
