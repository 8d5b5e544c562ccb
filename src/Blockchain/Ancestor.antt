-- ===== src/Blockchain/Ancestor.antt =====
-- `get_ancestor` of src/blockchain/chain_db.rs: the ancestor of an entry at a height, found on the
-- main chain by its height and elsewhere by skip pointers. `none` is a panic, or no more fuel.
pub mod Laws
use rust_bitcoin_node.Prelude.{
  ℕ, zero, suc, ◌-◌, Bool, Option, none, some, leb, nat_beq, if◌then◌else◌, ◌&&◌, ◌||◌, not, ltb,
}
use rust_bitcoin_node.Prelude.Partial.{◌>>=◌, ◌>>◌, assert}
use rust_bitcoin_node.Prelude.Words.{as_i32, add32, sub32}
use rust_bitcoin_node.Prelude.Int.{ltb_ℤ, leb_ℤ}
use rust_bitcoin_node.Bitcoin.{BlockHash}
use rust_bitcoin_node.Blockchain.Entry.{ChainEntry}
use rust_bitcoin_node.Blockchain.Db.{ChainDb, get_entry_by_hash, get_entry_by_height, is_main_chain}
use rust_bitcoin_node.Blockchain.Skip.{get_skip_height}

-- `skip_better`, `prev_better` and the choice between them, from the skip height of the entry, that
-- of the entry after it, and the height that is looked for; the casts to i32 are the source's.
unfoldable pub takes_skip : ℕ → ℕ → ℕ → Bool
takes_skip skip prev height =
    nat_beq skip height
    || (ltb_ℤ (as_i32 height) (as_i32 skip)
        && not (ltb_ℤ (as_i32 prev) (as_i32 (sub32 skip 2)) && leb_ℤ (as_i32 height) (as_i32 prev)))

-- The hash that the loop goes on to; 0 is the default hash.
unfoldable pub next_step : ChainEntry → ℕ → BlockHash
unfolding takes_skip
next_step entry height =
    if nat_beq entry.skip 0
    then entry.prev_block
    else if takes_skip (get_skip_height entry.height) (get_skip_height (add32 entry.height 1))
        height
    then entry.skip
    else entry.prev_block

-- The loop. Each round lowers the height of the entry, so its distance to `height` is fuel enough.
unfoldable pub walk : ℕ → ChainDb → ChainEntry → ℕ → Option ChainEntry
walk zero c entry height = if nat_beq entry.height height then some entry else none
walk (suc fuel) c entry height =
    let rest = (get_entry_by_hash c (next_step entry height) >>= λ next. walk fuel c next height) in
    if nat_beq entry.height height then some entry else rest

unfoldable pub get_ancestor : ChainDb → ChainEntry → ℕ → Option ChainEntry
get_ancestor c entry height = do
  assert (leb height entry.height)
  (if is_main_chain c entry
      then (get_entry_by_height c height >>= λ found. found)
      else walk (entry.height - height) c entry height)

-- `get_skip`
unfoldable pub get_skip : ChainDb → ChainEntry → Option ChainEntry
get_skip c entry = get_ancestor c entry (get_skip_height entry.height)
