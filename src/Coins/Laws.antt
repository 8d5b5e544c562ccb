-- ===== src/Coins/Laws.antt =====
-- The unspent coins that a view stands for, over the coins of the database: what each operation of
-- src/coins/coin_view.rs does to them.
use rust_bitcoin_node.Prelude.{
  ℕ, suc, ◌%◌, ◌^◌, ◌≡◌, refl, Bool, true, false, List, [], ◌∷◌, Option, none, some, lookup, insert,
  lookup-insert, if◌then◌else◌, arith, ok, ◌==◌, Bool-cases, inl, inr,
}
use rust_bitcoin_node.Bitcoin.{
  Library, OutPoint, Transaction, TxIn, TxOut, outpoint_eq, outpoint_beq_iff,
}
use rust_bitcoin_node.Coins.{
  CoinEntry, CoinMap, CoinView, read_coin, spend_coin, spend_input, index_outputs, index_tx,
  indexed_coin,
}

-- The coins that can be spent, by outpoint.
abbrev pub Utxo : Type 0
Utxo = OutPoint → Option CoinEntry

-- A coin that is marked as spent is no coin.
abbrev pub unspent : CoinEntry → Option CoinEntry
unspent coin = if coin.spent then none else some coin

-- The view's coins hide those of the database.
abbrev pub overlay : Utxo → CoinMap → Utxo
overlay db m o = elim (lookup o m) [ none ↦ db o | some coin ↦ unspent coin ]

pub overlay-insert :
    (db : Utxo) (o p : OutPoint) (coin : CoinEntry) (m : CoinMap)
    → overlay db (insert o coin m) p ≡ (if o == p then unspent coin else overlay db m p)
overlay-insert db o p coin m = ground (arith, lookup-insert o p coin m)

-- The database holds no coin that is marked as spent.
abbrev pub IsUnspent : Utxo → Type 0
IsUnspent f = (o : OutPoint) (coin : CoinEntry) → f o ≡ some coin → coin.spent ≡ false

-- A successful spend found an unspent coin, took it from the coins and left all others, and pushed
-- it, marked as spent, on the undo list.
pub record Spends (db : Utxo) (view view' : CoinView) (o : OutPoint) (coin : CoinEntry)
    : Type 0 where
  pub found : overlay db view.map o ≡ some coin
  pub was_unspent : coin.spent ≡ false
  pub taken :
      (p : OutPoint) → overlay db view'.map p ≡ (if o == p then none else overlay db view.map p)
  pub pushed : view'.undo.items ≡ record coin { spent = true } ∷ view.undo.items

-- The coin that `read_coin` returns, and what it does to the view.
read_coin_lem :
    (db : Utxo) (view : CoinView) (o : OutPoint) (coin : CoinEntry)
    → (read_coin db view o).1 ≡ some coin
    → coin.spent ≡ false
    → (overlay db view.map o ≡ some coin)
      × ((read_coin db view o).0.undo ≡ view.undo)
      × ((p : OutPoint) → overlay db (read_coin db view o).0.map p ≡ overlay db view.map p)
unfolding read_coin
read_coin_lem db view o coin e u = (
  ground arith,
  ground arith,
  λ p. ground (arith, overlay-insert db o p coin view.map, outpoint_beq_iff o p),
)

-- The view after a coin was spent.
abbrev spent_view : CoinView → OutPoint → CoinEntry → CoinView
spent_view view o coin = record {
  map = insert o (record coin { spent = true }) view.map;
  undo = record { items = record coin { spent = true } ∷ view.undo.items };
}

spend_coin-ok :
    (view : CoinView) (o : OutPoint) (r : Option CoinEntry) {view' : CoinView}
    → spend_coin view o r ≡ ok view'
    → (coin : CoinEntry) × (r ≡ some coin) × (coin.spent ≡ false) × (view' ≡ spent_view view o coin)
unfolding spend_coin
spend_coin-ok view o none e = cc
spend_coin-ok view o (some coin) e = elim (Bool-cases coin.spent) [
  | inl s ↦ cc (rw s at e)
  | inr s ↦ (coin, refl, s, ground arith)
]

pub spend_input-Spends :
    (db : Utxo) (view view' : CoinView) (input : TxIn)
    → spend_input db view input ≡ ok view'
    → (coin : CoinEntry) × Spends db view view' input.previous_output coin
unfolding spend_input
spend_input-Spends db view view' input e =
    let o = input.previous_output in
    let read = (read_coin db view o).0 in
    let (coin, found, unspent_coin, is_view) = spend_coin-ok read o (read_coin db view o).1 e in
    let (overlaid, same_undo, same) = read_coin_lem db view o coin found unspent_coin in
    (
      coin,
      record {
        found = overlaid;
        was_unspent = unspent_coin;
        taken = λ p.
            ground (arith, overlay-insert db o p (record coin { spent = true }) read.map, same p);
        pushed = ground arith;
      },
    )

module _ ⦃lib : Library⦄ where
  -- Which output `index_tx` writes at an outpoint, from the output at `index` on.
  abbrev pub written : Transaction → ℕ → List TxOut → OutPoint → Option TxOut
  written tx index [] p = none
  written tx index (output ∷ outputs) p = elim (written tx (suc index) outputs p) [
    | some o ↦ some o
    | none ↦
        if lib.is_provably_unspendable output.script_pubkey
        then none
        else if record { txid = lib.txid tx; vout = index % 2 ^ 32 } == p
        then some output
        else none
  ]

  index_outputs_lem :
      (db : Utxo) (tx : Transaction) (height : ℕ) (spent : Bool) (index : ℕ) (outputs : List TxOut)
      (m : CoinMap) (p : OutPoint)
      → overlay db (index_outputs tx height spent index outputs m) p
        ≡ elim (written tx index outputs p) [
          | none ↦ overlay db m p
          | some output ↦ unspent (indexed_coin tx height spent output)
        ]
  unfolding index_outputs
  index_outputs_lem db tx height spent index [] m p = refl
  index_outputs_lem db tx height spent index (output ∷ outputs) m p =
      let o : OutPoint = record { txid = lib.txid tx; vout = index % 2 ^ 32 } in
      ground (
        arith,
        index_outputs_lem db tx height spent (suc index) outputs m p,
        index_outputs_lem db tx height spent (suc index) outputs
            (insert o (indexed_coin tx height spent output) m) p,
        overlay-insert db o p (indexed_coin tx height spent output) m,
      )

  -- `add_tx` makes the spendable outputs of the transaction, and `remove_tx` takes them away.
  pub index_tx_lem :
      (db : Utxo) (m : CoinMap) (tx : Transaction) (height : ℕ) (spent : Bool) (p : OutPoint)
      → overlay db (index_tx m tx height spent) p ≡ elim (written tx 0 tx.output p) [
        | none ↦ overlay db m p
        | some output ↦ unspent (indexed_coin tx height spent output)
      ]
  unfolding index_tx
  index_tx_lem db m tx height spent p = index_outputs_lem db tx height spent 0 tx.output m p
