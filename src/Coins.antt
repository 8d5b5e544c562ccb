-- ===== src/Coins.antt =====
-- src/coins: coins, the view of the coins that a block touches, and the coins that it spent. The
-- children hold the encodings.
pub mod Encoding
pub mod Laws
use rust_bitcoin_node.Prelude.{
  ℕ, suc, ◌+◌, ◌%◌, ◌^◌, Bool, true, false, List, [], ◌∷◌, Option, none, some, get_elem?, lookup,
  insert, Outcome, ok, err, expect, ◌>>=◌, if◌then◌else◌, not, is_empty,
}
use rust_bitcoin_node.Prelude.Int.{ℤ, pos}
use rust_bitcoin_node.Bitcoin.{Library, OutPoint, TxIn, TxOut, Transaction, Txid, outpoint_eq}
use rust_bitcoin_node.Errors.{TransactionVerificationError, inputs_missing_or_spent}

pub record CoinEntry : Type 0 where
  pub version : ℤ
  -- the height of the block that made the coin; `none` in the mempool
  pub height : Option ℕ
  pub coinbase : Bool
  pub output : TxOut
  pub spent : Bool

-- The last coin pushed is the head of the list.
pub record UndoCoins : Type 0 where
  pub items : List CoinEntry

abbrev pub CoinMap : Type 0
CoinMap = List (OutPoint × CoinEntry)

pub record CoinView : Type 0 where
  pub map : CoinMap
  pub undo : UndoCoins

-- `CoinView::default()`
abbrev pub empty_view : CoinView
empty_view = record { map = []; undo = record { items = [] } }

-- `UndoCoins::push`, and `is_empty`.
abbrev pub undo_push : UndoCoins → CoinEntry → UndoCoins
undo_push u coin = record { items = coin ∷ u.items }

abbrev pub undo_is_empty : UndoCoins → Bool
undo_is_empty u = is_empty u.items

-- Takes the last coin off and puts it into a map; `none` is the panic "bad code".
unfoldable pub undo_apply_items : List CoinEntry → CoinMap → OutPoint → Option (UndoCoins × CoinMap)
undo_apply_items [] m prevout = none
undo_apply_items (coin ∷ items) m prevout = some (record { items = items }, insert prevout coin m)

-- `UndoCoins::apply`
unfoldable pub undo_apply : UndoCoins → CoinMap → OutPoint → Option (UndoCoins × CoinMap)
unfolding undo_apply_items
undo_apply u m prevout = undo_apply_items u.items m prevout

module _ ⦃lib : Library⦄ where
  -- `CoinEntry::from_tx`; `none` is the panic of an index out of bounds
  unfoldable pub from_tx : Transaction → ℕ → ℕ → Option CoinEntry
  from_tx tx index height = elim (get_elem? tx.output index) [
    | none ↦ none
    | some output ↦ some (record {
      version = tx.version;
      height = some height;
      coinbase = lib.is_coin_base tx;
      output = output;
      spent = false;
    })
  ]

  -- The coin that `index_tx` makes of one output.
  abbrev pub indexed_coin : Transaction → ℕ → Bool → TxOut → CoinEntry
  indexed_coin tx height spent output = record {
    version = tx.version;
    height = some height;
    coinbase = lib.is_coin_base tx;
    output = output;
    spent = spent;
  }

  -- The loop of `index_tx`, from the output at `index` on. `index as u32` wraps.
  unfoldable pub index_outputs : Transaction → ℕ → Bool → ℕ → List TxOut → CoinMap → CoinMap
  index_outputs tx height spent index [] m = m
  index_outputs tx height spent index (output ∷ outputs) m =
      index_outputs tx height spent (suc index) outputs (
        if lib.is_provably_unspendable output.script_pubkey
        then m
        else insert (record { txid = lib.txid tx; vout = index % 2 ^ 32 })
            (indexed_coin tx height spent output) m)

  unfoldable pub index_tx : CoinMap → Transaction → ℕ → Bool → CoinMap
  index_tx m tx height spent = index_outputs tx height spent 0 tx.output m

  unfoldable pub add_tx : CoinView → Transaction → ℕ → CoinView
  unfolding index_tx
  add_tx view tx height = record view { map = index_tx view.map tx height false }

  unfoldable pub remove_tx : CoinView → Transaction → ℕ → CoinView
  unfolding index_tx
  remove_tx view tx height = record view { map = index_tx view.map tx height true }

unfoldable pub get_entry : CoinView → OutPoint → Option CoinEntry
get_entry view prevout = lookup prevout view.map

unfoldable pub get_output : CoinView → OutPoint → Option TxOut
get_output view prevout = elim (lookup prevout view.map) [
  | none ↦ none
  | some coin ↦ some coin.output
]

-- `read_coin`: the coin of the view, else that of the database, which then enters the view. `db` is
-- `ChainDB::read_coin`.
unfoldable pub read_coin :
    (OutPoint → Option CoinEntry) → CoinView → OutPoint → CoinView × Option CoinEntry
read_coin db view prevout = elim (lookup prevout view.map) [
  | some coin ↦ (view, some coin)
  | none ↦ elim (db prevout) [
    | none ↦ (view, none)
    | some coin ↦ (record view { map = insert prevout coin view.map }, some coin)
  ]
]

-- The body of the loop of `spend_inputs`: the coin is marked as spent before it is copied to the
-- undo list.
unfoldable pub spend_coin :
    CoinView → OutPoint → Option CoinEntry → Outcome TransactionVerificationError CoinView
spend_coin view prevout none = err inputs_missing_or_spent
spend_coin view prevout (some coin) =
    if coin.spent
    then err inputs_missing_or_spent
    else ok (record {
      map = insert prevout (record coin { spent = true }) view.map;
      undo = undo_push view.undo (record coin { spent = true });
    })

unfoldable pub spend_input :
    (OutPoint → Option CoinEntry) → CoinView → TxIn → Outcome TransactionVerificationError CoinView
unfolding read_coin spend_coin
spend_input db view input =
    let (view', coin) = read_coin db view input.previous_output in
    spend_coin view' input.previous_output coin

unfoldable pub spend_input_list :
    (OutPoint → Option CoinEntry)
    → CoinView
    → List TxIn
    → Outcome TransactionVerificationError CoinView
spend_input_list db view [] = ok view
spend_input_list db view (input ∷ inputs) = do
  view' ← spend_input db view input
  spend_input_list db view' inputs

unfoldable pub spend_inputs :
    (OutPoint → Option CoinEntry)
    → CoinView
    → Transaction
    → Outcome TransactionVerificationError CoinView
unfolding spend_input_list
spend_inputs db view tx = spend_input_list db view tx.input

module _ ⦃lib : Library⦄ where
  -- The coins that a block's transactions spend and make, in a view: what `verify_inputs` does to
  -- its view.
  unfoldable pub view_tx :
      (OutPoint → Option CoinEntry)
      → CoinView
      → ℕ
      → Transaction
      → Outcome TransactionVerificationError CoinView
  view_tx db view height tx = do
    spent ← (if lib.is_coin_base tx then ok view else spend_inputs db view tx)
    ok (add_tx spent tx height)

  unfoldable pub view_txs :
      (OutPoint → Option CoinEntry)
      → CoinView
      → ℕ
      → List Transaction
      → Outcome TransactionVerificationError CoinView
  view_txs db view height [] = ok view
  view_txs db view height (tx ∷ txs) = do
    view' ← view_tx db view height tx
    view_txs db view' height txs
