-- ===== src/Examples/Best.antt =====
-- The search for the branch with the most work in the database with a fork, and a block that is
-- connected at the tip.
use rust_bitcoin_node.Prelude.{
  ℕ, ◌+◌, ◌≤◌, ◌<◌, ◌≡◌, ◌⊎◌, map, refl, arith, true, List, [], ◌∷◌, Option, none, some, All,
  lookup, nat_eq, ok, suc, ◌^◌, ◌-◌, ◌≢◌, lookup-All,
}
use rust_bitcoin_node.Bitcoin.{Block, Transaction, TxIn}
use rust_bitcoin_node.Primitives.Block.{Verified}
use rust_bitcoin_node.Blockchain.Entry.{ChainEntry}
use rust_bitcoin_node.Blockchain.Db.{ChainDb, get_entry_by_hash, is_main_chain}
use rust_bitcoin_node.Blockchain.Chain.{Chain, is_block_ready}
use rust_bitcoin_node.Blockchain.Ancestor.Laws.{IsKnown, IsLinked, back}
use rust_bitcoin_node.Blockchain.Best.{connect_best, get_next_best, get_next_entries}
use rust_bitcoin_node.Blockchain.Best.Most.{
  Grows, IsNext, ReadyAbove, final_work, get_next_best-IsMost,
}
use rust_bitcoin_node.Blockchain.Best.Ends.{HasRoot}
use rust_bitcoin_node.Blockchain.Skip.{get_skip_height}
use rust_bitcoin_node.Blockchain.Best.Work.{connect_best-gains}
use rust_bitcoin_node.Examples.Setup.{
  coinbase_tx, first_entry, second_entry, spend_tx, small_chain, small_db, small_library,
  third_block, third_entry,
}
use rust_bitcoin_node.Examples.Branches.{fork_db, of_four, rival_entry}

abbrev grown_db : ChainDb
grown_db = record fork_db {
  db = record fork_db.db { next_hashes = (10, 11 ∷ 13 ∷ []) ∷ (11, 12 ∷ []) ∷ [] };
  downloaded = 10 ∷ 11 ∷ 12 ∷ 13 ∷ [];
}

abbrev grown_chain : Chain
grown_chain = record small_chain { db = grown_db }

abbrev GrowsAt : ℕ → ChainEntry → Type 0
GrowsAt h e =
    (e.height < 2 ^ 31)
    × (nexts : List ChainEntry) × (get_next_entries grown_db e.hash ≡ some nexts)
    × All (IsNext grown_db e) nexts

grown_db-Grows : Grows grown_db
unfolding get_entry_by_hash lookup get_next_entries rust_bitcoin_node.Blockchain.Best.entries_of
    rust_bitcoin_node.Blockchain.Db.get_next_hashes
grown_db-Grows e known =
    of_four GrowsAt e.hash e
      (
        omega arith,
        second_entry ∷ rival_entry ∷ [],
        refl,
        ((refl, refl, omega arith), ((refl, refl, omega arith), tt)),
      )
      (omega arith, third_entry ∷ [], refl, ((refl, refl, omega arith), tt))
      (omega arith, [], refl, tt) (omega arith, [], refl, tt) known

first_entry-IsKnown : IsKnown grown_db first_entry
unfolding get_entry_by_hash lookup
first_entry-IsKnown = refl

first_entry-ready : is_block_ready grown_chain 10 ≡ true
unfolding is_block_ready rust_bitcoin_node.Blockchain.Db.has_invalid
    rust_bitcoin_node.Blockchain.Db.has_block rust_bitcoin_node.Prelude.contains
first_entry-ready = refl

get_next_best-IsMost_example :
    (path : List ChainEntry) × (get_next_best 0x80000000 grown_chain first_entry ≡ some path)
    × ((k : ℕ) × (l : ChainEntry) × ReadyAbove grown_chain k first_entry l
        × (l.chainwork ≡ final_work (first_entry ∷ path)))
    × ((k : ℕ) (l : ChainEntry)
        → ReadyAbove grown_chain k first_entry l
        → l.chainwork ≤ final_work (first_entry ∷ path))
get_next_best-IsMost_example =
    get_next_best-IsMost grown_chain grown_db-Grows 0x80000000 first_entry first_entry-IsKnown
      (omega arith) first_entry-ready

abbrev ready_chain : Chain
ready_chain = record small_chain { db = record small_db { downloaded = 10 ∷ 11 ∷ 12 ∷ [] } }

-- The same inputs, with final sequence numbers.
abbrev final_tx : Transaction → Transaction
final_tx tx = record tx {
  input = map (λ (input : TxIn). record input { sequence = 0xffffffff }) tx.input;
}

abbrev final_block : Block
final_block = record third_block { txdata = final_tx coinbase_tx ∷ final_tx spend_tx ∷ [] }

abbrev End : Type 0
End = Option (Option (Chain × Verified (Unit {0})))

abbrev result_chain : End → Chain
result_chain none = ready_chain
result_chain (some none) = ready_chain
result_chain (some (some r)) = r.0

abbrev moved_chain : Chain
moved_chain = result_chain (connect_best 4 ready_chain third_entry second_entry (some final_block))

-- A block at the same height with more work than the third one.
abbrev heavy_entry : ChainEntry
heavy_entry = record third_entry { hash = 14; nonce = 14; chainwork = 4 }

abbrev heavy_db : ChainDb
heavy_db = record moved_chain.db {
  entry_cache = record {
    height = (0, 10) ∷ (1, 11) ∷ (2, 12) ∷ [];
    hash = (10, first_entry) ∷ (11, second_entry) ∷ (12, third_entry) ∷ (14, heavy_entry) ∷ [];
    batch = [];
  };
  db = record moved_chain.db.db { next_hashes = (10, 11 ∷ []) ∷ (11, 12 ∷ 14 ∷ []) ∷ [] };
  blocks = record moved_chain.db.blocks { block = (12, final_block) ∷ [] };
  downloaded = 10 ∷ 11 ∷ 12 ∷ 14 ∷ [];
}

abbrev heavy_chain : Chain
heavy_chain = record moved_chain { db = heavy_db; tip = third_entry; height = 2 }

-- The third block goes off the chain, and the heavier one goes on.
heavy_chain-moves :
    (result_chain (connect_best 4 heavy_chain heavy_entry second_entry (some final_block))).tip
    ≡ heavy_entry
unfolding rust_bitcoin_node.Prelude.lookup rust_bitcoin_node.Prelude.insert
    rust_bitcoin_node.Prelude.contains_key rust_bitcoin_node.Prelude.contains
    rust_bitcoin_node.Prelude.Words.add32 rust_bitcoin_node.Prelude.Words.add64
    rust_bitcoin_node.Prelude.Words.checked_add64 rust_bitcoin_node.Coins.index_outputs
    rust_bitcoin_node.Coins.add_tx rust_bitcoin_node.Coins.get_entry
    rust_bitcoin_node.Coins.get_output rust_bitcoin_node.Coins.spend_input
    rust_bitcoin_node.Coins.spend_inputs rust_bitcoin_node.Protocol.Consensus.has_flag
    rust_bitcoin_node.Protocol.Consensus.get_block_subsidy
    rust_bitcoin_node.Protocol.VersionBits.is_active rust_bitcoin_node.Protocol.Network.from_network
    rust_bitcoin_node.Primitives.Script.get_witness_sig_op_count
    rust_bitcoin_node.Primitives.Tx.get_output_value rust_bitcoin_node.Primitives.Tx.check_coin
    rust_bitcoin_node.Primitives.Tx.check_input_coins rust_bitcoin_node.Primitives.Tx.check_inputs
    rust_bitcoin_node.Primitives.Tx.is_final rust_bitcoin_node.Primitives.Tx.check_outputs
    rust_bitcoin_node.Primitives.Tx.stripped_size rust_bitcoin_node.Primitives.Tx.check_sanity
    rust_bitcoin_node.Primitives.Tx.get_legacy_sig_op_count
    rust_bitcoin_node.Primitives.Tx.get_p2sh_sig_ops
    rust_bitcoin_node.Primitives.Tx.get_witness_sig_ops
    rust_bitcoin_node.Primitives.Tx.get_sigop_cost
    rust_bitcoin_node.Primitives.Scripts.spent_outputs
    rust_bitcoin_node.Primitives.Scripts.verify_script_list
    rust_bitcoin_node.Primitives.Scripts.verify_scripts
    rust_bitcoin_node.Primitives.Block.get_claimed rust_bitcoin_node.Primitives.Block.stripped_size
    rust_bitcoin_node.Primitives.Block.check_body rust_bitcoin_node.Blockchain.Entry.is_genesis
    rust_bitcoin_node.Blockchain.Db.is_main_hash rust_bitcoin_node.Blockchain.Db.has_block
    rust_bitcoin_node.Blockchain.Db.has_invalid rust_bitcoin_node.Blockchain.Db.read_coin
    rust_bitcoin_node.Blockchain.Db.get_next_hashes rust_bitcoin_node.Blockchain.Db.start
    rust_bitcoin_node.Blockchain.Db.commit rust_bitcoin_node.Blockchain.Connect.spend_outputs
    rust_bitcoin_node.Blockchain.Connect.connect_txs
    rust_bitcoin_node.Blockchain.Connect.connect_block rust_bitcoin_node.Blockchain.Connect.connect
    rust_bitcoin_node.Blockchain.Time.get_median_time rust_bitcoin_node.Blockchain.Chain.has_bip34
    rust_bitcoin_node.Blockchain.Chain.is_block_ready
    rust_bitcoin_node.Blockchain.Deployments.get_deployment_status
    rust_bitcoin_node.Blockchain.Deployments.is_deployment_active
    rust_bitcoin_node.Blockchain.Deployments.find_deployment
    rust_bitcoin_node.Blockchain.Deployments.get_deployments
    rust_bitcoin_node.Blockchain.Locks.get_locks
    rust_bitcoin_node.Blockchain.Locks.check_height_lock
    rust_bitcoin_node.Blockchain.Locks.check_time_lock
    rust_bitcoin_node.Blockchain.Locks.verify_locks
    rust_bitcoin_node.Blockchain.Inputs.verify_spends rust_bitcoin_node.Blockchain.Inputs.verify_tx
    rust_bitcoin_node.Blockchain.Inputs.verify_txs
    rust_bitcoin_node.Blockchain.Inputs.verify_all_scripts
    rust_bitcoin_node.Blockchain.Inputs.verify_inputs
    rust_bitcoin_node.Blockchain.Verify.verify_with_state
    rust_bitcoin_node.Blockchain.Verify.verify_contents rust_bitcoin_node.Blockchain.Verify.verify
    rust_bitcoin_node.Blockchain.Verify.has_coins
    rust_bitcoin_node.Blockchain.Verify.verify_duplicates
    rust_bitcoin_node.Blockchain.Verify.verify_coins
    rust_bitcoin_node.Blockchain.Verify.verify_context
    rust_bitcoin_node.Blockchain.Growth.connect_verified rust_bitcoin_node.Blockchain.Growth.connect
    rust_bitcoin_node.Blockchain.Growth.disconnect rust_bitcoin_node.Blockchain.Growth.get_block
    rust_bitcoin_node.Blockchain.Connect.disconnect
    rust_bitcoin_node.Blockchain.Best.get_next_entries
    rust_bitcoin_node.Blockchain.Best.get_next_best rust_bitcoin_node.Blockchain.Best.build_queue
    rust_bitcoin_node.Blockchain.Best.queued_block rust_bitcoin_node.Blockchain.Best.connect_best
    rust_bitcoin_node.Blockchain.Connect.disconnect_block
    rust_bitcoin_node.Blockchain.Connect.write_undo
    rust_bitcoin_node.Blockchain.Connect.disconnect_txs
    rust_bitcoin_node.Blockchain.Connect.disconnect_tx
    rust_bitcoin_node.Blockchain.Connect.restore_inputs
    rust_bitcoin_node.Blockchain.Connect.restore_input rust_bitcoin_node.Coins.undo_apply
    rust_bitcoin_node.Blockchain.Db.push_operation rust_bitcoin_node.Blockchain.Disk.write_batch
    rust_bitcoin_node.Blockchain.Connect.save_view rust_bitcoin_node.Coins.remove_tx
    rust_bitcoin_node.Coins.Encoding.reload rust_bitcoin_node.Prelude.remove
heavy_chain-moves = refl

of_heavy :
    (P : ℕ → ChainEntry → Type 0) (e : ChainEntry)
    → P 10 first_entry
    → P 11 second_entry
    → P 12 third_entry
    → P 14 heavy_entry
    → IsKnown heavy_db e
    → P e.hash e
unfolding get_entry_by_hash
of_heavy P e a b c d known =
    lookup-All P e.hash e heavy_db.entry_cache.hash (a, (b, (c, (d, tt)))) known

heavy_db-own_hash : (h : ℕ) (e : ChainEntry) → get_entry_by_hash heavy_db h ≡ some e → e.hash ≡ h
unfolding get_entry_by_hash
heavy_db-own_hash h e found =
    lookup-All (λ h (e : ChainEntry). e.hash ≡ h) h e heavy_db.entry_cache.hash
      (refl, (refl, (refl, (refl, tt)))) found

abbrev HasParent : ℕ → ChainEntry → Type 0
HasParent h e =
    0 < e.height
    → (p : ChainEntry) × (get_entry_by_hash heavy_db e.prev_block ≡ some p)
      × (suc p.height ≡ e.height)

abbrev Skips : ℕ → ChainEntry → Type 0
Skips h e =
    0 < e.height
    → e.skip ≢ 0
    → (s : ChainEntry) × (get_entry_by_hash heavy_db e.skip ≡ some s)
      × (back heavy_db (e.height - get_skip_height e.height) e ≡ some s)

abbrev MainBelow : ℕ → ChainEntry → Type 0
MainBelow h e =
    0 < e.height
    → lookup e.height heavy_db.entry_cache.height ≡ some e.hash
    → lookup (e.height - 1) heavy_db.entry_cache.height ≡ some e.prev_block

heavy_db-IsLinked : IsLinked heavy_db
unfolding get_entry_by_hash lookup back get_skip_height
heavy_db-IsLinked = record {
  own_hash = heavy_db-own_hash;
  in_range = λ e known.
      of_heavy (λ h e. e.height < 2 ^ 31) e (omega arith) (omega arith) (omega arith) (omega arith)
        known;
  parent = λ e known.
      of_heavy HasParent e (λ h. absurd (omega arith)) (λ h. (first_entry, refl, refl))
        (λ h. (second_entry, refl, refl)) (λ h. (second_entry, refl, refl)) known;
  skips = λ e known.
      of_heavy Skips e (λ h. absurd (omega arith)) (λ h s. (first_entry, refl, refl))
        (λ h s. (first_entry, refl, refl)) (λ h s. (first_entry, refl, refl)) known;
  main_below = λ e known.
      of_heavy MainBelow e (λ h. absurd (omega arith)) (λ h m. refl) (λ h m. refl) (λ h m. refl)
        known;
}

abbrev IsRoot : ℕ → ChainEntry → Type 0
IsRoot h e =
    e.height ≡ 0
    → (is_main_chain heavy_db e ≡ true) × (get_entry_by_hash heavy_db e.prev_block ≡ none)

heavy_db-HasRoot : HasRoot heavy_db
unfolding get_entry_by_hash lookup is_main_chain
heavy_db-HasRoot e known =
    of_heavy IsRoot e (λ h. (refl, refl)) (λ h. absurd (omega arith)) (λ h. absurd (omega arith))
      (λ h. absurd (omega arith)) known

abbrev GrowsBy : ℕ → ChainEntry → Type 0
GrowsBy h e =
    (e.height < 2 ^ 31)
    × (nexts : List ChainEntry) × (get_next_entries heavy_db e.hash ≡ some nexts)
    × All (IsNext heavy_db e) nexts

heavy_db-Grows : Grows heavy_db
unfolding get_entry_by_hash lookup get_next_entries rust_bitcoin_node.Blockchain.Best.entries_of
    rust_bitcoin_node.Blockchain.Db.get_next_hashes
heavy_db-Grows e known =
    of_heavy GrowsBy e (omega arith, second_entry ∷ [], refl, ((refl, refl, omega arith), tt))
      (
        omega arith,
        third_entry ∷ heavy_entry ∷ [],
        refl,
        ((refl, refl, omega arith), ((refl, refl, omega arith), tt)),
      )
      (omega arith, [], refl, tt) (omega arith, [], refl, tt) known

connect_best-gains_example :
    (end : Option (Chain × Verified (Unit {0}))) × (connect_best 0x80000000 heavy_chain heavy_entry
        second_entry
        (some final_block)
      ≡ some end)
    × ((chain' : Chain)
        → end ≡ some (chain', ok tt)
        → (chain' ≡ heavy_chain) ⊎ (3 < chain'.tip.chainwork))
unfolding get_entry_by_hash lookup
connect_best-gains_example =
    connect_best-gains 0x80000000 heavy_chain heavy_entry second_entry (some final_block)
      heavy_db-IsLinked heavy_db-HasRoot heavy_db-Grows refl refl refl refl (omega arith)
