-- ===== src/Blockchain/Disk.antt =====
-- The column families of src/blockchain/chain_db.rs (its module `key`) and the batches of
-- src/db/batch.rs and src/db/disk.rs over them. Values are stored serialised; here a column holds
-- what reading it gives back, so a coin loses its `spent` and a state its `commited`. Failures of
-- the disk are not modelled.
use rust_bitcoin_node.Prelude.{
  ℕ, ◌≡◌, ◌↔◌, ◌&&◌, Bool, true, false, List, [], ◌∷◌, Option, some, Eq, insert, remove, nat_beq,
  nat_beq_iff, arith, nat_eq,
}
use rust_bitcoin_node.Bitcoin.{BlockHash, OutPoint, outpoint_eq}
use rust_bitcoin_node.Coins.{CoinEntry, CoinMap}
use rust_bitcoin_node.Coins.Encoding.{reload}
use rust_bitcoin_node.Blockchain.Entry.{ChainEntry}
use rust_bitcoin_node.Blockchain.State.{ChainState}

-- The key of the column of chain work.
pub record WorkKey : Type 0 where
  pub work : ℕ
  pub hash : BlockHash

abbrev pub work_key_beq : WorkKey → WorkKey → Bool
work_key_beq a b = nat_beq a.work b.work && nat_beq a.hash b.hash

pub work_key_beq_iff : (a b : WorkKey) → (work_key_beq a b ≡ true) ↔ (a ≡ b)
work_key_beq_iff a b = ground (arith, nat_beq_iff a.work b.work, nat_beq_iff a.hash b.hash)

instance abbrev pub work_key_eq : Eq WorkKey
work_key_eq = record { decides = work_key_beq_iff; equals = work_key_beq }

pub record Disk : Type 0 where
  pub entry : List (BlockHash × ChainEntry)
  pub height : List (BlockHash × ℕ)
  pub hash : List (ℕ × BlockHash)
  pub coin : CoinMap
  pub chain_work : List (WorkKey × ChainEntry)
  pub next_hash : List (BlockHash × BlockHash)
  pub next_hashes : List (BlockHash × List BlockHash)
  pub chain_state : Option ChainState

-- `Operation`, one constructor for each use of `Batch::insert` and `Batch::remove` with a `Key`.
pub data Operation : Type 0 where
  insert_entry : BlockHash → ChainEntry → Operation
  insert_height : BlockHash → ℕ → Operation
  insert_hash : ℕ → BlockHash → Operation
  remove_hash : ℕ → Operation
  insert_coin : OutPoint → CoinEntry → Operation
  remove_coin : OutPoint → Operation
  insert_chain_work : WorkKey → ChainEntry → Operation
  remove_chain_work : WorkKey → Operation
  insert_next_hash : BlockHash → BlockHash → Operation
  remove_next_hash : BlockHash → Operation
  insert_next_hashes : BlockHash → List BlockHash → Operation
  insert_chain_state : ChainState → Operation

-- The last operation is the head.
abbrev pub Batch : Type 0
Batch = List Operation

unfoldable pub apply_operation : Operation → Disk → Disk
apply_operation (insert_entry h e) d = record d { entry = insert h e d.entry }
apply_operation (insert_height h n) d = record d { height = insert h n d.height }
apply_operation (insert_hash n h) d = record d { hash = insert n h d.hash }
apply_operation (remove_hash n) d = record d { hash = remove n d.hash }
apply_operation (insert_coin o c) d = record d { coin = insert o (reload c) d.coin }
apply_operation (remove_coin o) d = record d { coin = remove o d.coin }
apply_operation (insert_chain_work k e) d = record d { chain_work = insert k e d.chain_work }
apply_operation (remove_chain_work k) d = record d { chain_work = remove k d.chain_work }
apply_operation (insert_next_hash h n) d = record d { next_hash = insert h n d.next_hash }
apply_operation (remove_next_hash h) d = record d { next_hash = remove h d.next_hash }
apply_operation (insert_next_hashes h n) d = record d { next_hashes = insert h n d.next_hashes }
apply_operation (insert_chain_state s) d = record d {
  chain_state = some (record s { commited = false });
}

-- `write_batch`: the operations in the order in which they were pushed.
unfoldable pub write_batch : Batch → Disk → Disk
unfolding apply_operation
write_batch [] d = d
write_batch (o ∷ os) d = apply_operation o (write_batch os d)
