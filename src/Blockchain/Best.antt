-- ===== src/Blockchain/Best.antt =====
-- How the chain of src/blockchain/chain.rs moves to the branch with the most work: `get_next_best`,
-- `connect_best`, `attach` and `add`, with `get_next_entries` of src/blockchain/chain_db.rs. `none` is a
-- panic, or no more fuel; the logging is left out.
pub mod Ends
pub mod Work
pub mod Most
use rust_bitcoin_node.Prelude.{
  ℕ, zero, suc, Bool, true, false, List, [], ◌∷◌, ◌++◌, Option, none, some, leb, ltb, nat_beq,
  if◌then◌else◌, ok, err, panic, drop, reverse, map_err, is_empty,
}
use rust_bitcoin_node.Prelude.Partial.{◌>>=◌, ◌>>◌, assert}
use rust_bitcoin_node.Bitcoin.{Library, BlockHash, Block}
use rust_bitcoin_node.Errors.{bad_header}
use rust_bitcoin_node.Primitives.Block.{Verified}
use rust_bitcoin_node.Blockchain.Entry.{ChainEntry}
use rust_bitcoin_node.Blockchain.Db.{ChainDb, get_entry_by_hash, get_next_hashes, is_main_chain}
use rust_bitcoin_node.Blockchain.Chain.{Chain, is_block_ready}
use rust_bitcoin_node.Blockchain.Growth.{add_block, add_header, connect, disconnect, get_block}

unfoldable pub entries_of : ChainDb → List BlockHash → Option (List ChainEntry)
entries_of c [] = some []
entries_of c (hash ∷ hashes) = do
  entry ← get_entry_by_hash c hash
  entries ← entries_of c hashes
  some (entry ∷ entries)

unfoldable pub get_next_entries : ChainDb → BlockHash → Option (List ChainEntry)
unfolding entries_of
get_next_entries c hash = entries_of c (get_next_hashes c hash)

abbrev pub last_entry : List ChainEntry → Option ChainEntry
last_entry [] = none
last_entry (entry ∷ []) = some entry
last_entry (entry ∷ next ∷ entries) = last_entry (next ∷ entries)

-- The loop over the children, from the most work so far and the path to it.
unfoldable pub best_child :
    (ChainEntry → Option (List ChainEntry))
    → List ChainEntry
    → ℕ
    → List ChainEntry
    → Option (List ChainEntry)
best_child next_best [] max_work max_path = some max_path
best_child next_best (next ∷ entries) max_work max_path = next_best next >>= λ path.
    elim (last_entry path) [
      | none ↦ best_child next_best entries max_work max_path
      | some last ↦
          if ltb max_work last.chainwork
          then best_child next_best entries last.chainwork path
          else best_child next_best entries max_work max_path
    ]

-- The inner `get_next_best`; the fuel bounds the depth.
unfoldable pub next_best : ℕ → Chain → ChainEntry → Option (List ChainEntry)
unfolding best_child
next_best zero chain entry = none
next_best (suc fuel) chain entry =
    let rest =
      (get_next_entries chain.db entry.hash >>= λ entries.
      best_child (next_best fuel chain) entries 0 [] >>= λ path. some (entry ∷ path)) in
    if is_block_ready chain entry.hash then rest else some []

unfoldable pub get_next_best : ℕ → Chain → ChainEntry → Option (List ChainEntry)
unfolding next_best
get_next_best fuel chain entry = next_best fuel chain entry >>= λ path. some (drop 1 path)

-- What the queue of `connect_best` holds.
pub record Queued : Type 0 where
  pub entry : ChainEntry
  pub prev : ChainEntry
  pub block : Option Block

-- The loop down to the main chain. `some none` is the early return.
unfoldable pub down_to_main : ℕ → Chain → ChainEntry → List Queued → Option (Option (List Queued))
down_to_main zero chain head queue = if is_main_chain chain.db head then some (some queue) else none
down_to_main (suc fuel) chain head queue =
    let rest =
      (get_entry_by_hash chain.db head.prev_block >>= λ prev.
      down_to_main fuel chain prev (record { entry = head; prev = prev; block = none } ∷ queue)) in
    if is_main_chain chain.db head
    then some (some queue)
    else if is_block_ready chain head.hash
    then rest
    else some none

-- The loop that queues what follows.
unfoldable pub queue_nexts : ChainEntry → List ChainEntry → List Queued
queue_nexts entry [] = []
queue_nexts entry (next ∷ nexts) =
    record { entry = next; prev = entry; block = none } ∷ queue_nexts next nexts

abbrev pub last_queued : Queued → List Queued → Queued
last_queued first [] = first
last_queued first (next ∷ rest) = last_queued next rest

-- The queue is emptied where it does not lead to more work than the tip has.
unfoldable pub keep_better : Chain → List Queued → List Queued
keep_better chain [] = []
keep_better chain (first ∷ rest) =
    if leb (last_queued first rest).entry.chainwork chain.tip.chainwork then [] else first ∷ rest

unfoldable pub build_queue :
    ℕ → Chain → ChainEntry → ChainEntry → Option Block → Option (List Queued)
unfolding down_to_main queue_nexts keep_better
build_queue fuel chain entry prev block =
    if is_block_ready chain entry.hash
    then (down_to_main fuel chain prev (record { entry = entry; prev = prev; block = block } ∷ [])
        >>= λ below. elim below [
          | none ↦ some []
          | some queue ↦ get_next_best fuel chain entry >>= λ nexts.
              some (keep_better chain (queue ++ queue_nexts entry nexts))
        ])
    else some []

module _ ⦃lib : Library⦄ where
  -- The loop that takes blocks off the chain down to a hash. `none` is no more fuel, and `some none` is a
  -- panic.
  unfoldable pub rewind : ℕ → Chain → BlockHash → Option (Option Chain)
  rewind zero chain hash = if nat_beq chain.tip.hash hash then some (some chain) else none
  rewind (suc fuel) chain hash =
      let rest : Option (Option Chain) = elim (disconnect chain chain.tip) [
        | none ↦ some none
        | some chain' ↦ rewind fuel chain' hash
      ] in
      if nat_beq chain.tip.hash hash then some (some chain) else rest

  unfoldable pub queued_block : Chain → Queued → Option Block
  queued_block chain queued = elim queued.block [
    | some block ↦ some block
    | none ↦ get_block chain.db queued.entry.hash
  ]

  -- The loop that connects; it stops at the first error, and what it connected stays.
  unfoldable pub connect_queue : Chain → List Queued → Option (Chain × Verified (Unit {0}))
  connect_queue chain [] = some (chain, ok tt)
  connect_queue chain (queued ∷ queue) = queued_block chain queued >>= λ block.
      connect chain block queued.entry queued.prev >>= λ connected. elim connected.1 [
        | ok _ ↦ connect_queue connected.0 queue
        | err e ↦ some (connected.0, err e)
        | panic ↦ none
      ]

  -- Off the chain down to the fork, and up along the queue. `none` is no more fuel, and `some none` is a
  -- panic.
  unfoldable pub move_along :
      ℕ → Chain → List Queued → Option (Option (Chain × Verified (Unit {0})))
  unfolding connect_queue rewind
  move_along fuel chain [] = some (some (chain, ok tt))
  move_along fuel chain (first ∷ rest) = rewind fuel chain first.entry.prev_block >>= λ end.
      some (end >>= λ forked. connect_queue forked (first ∷ rest))

  -- `none` is no more fuel, or a panic before the first block goes off or on; `some none` is one after it.
  unfoldable pub connect_best :
      ℕ
      → Chain
      → ChainEntry
      → ChainEntry
      → Option Block
      → Option (Option (Chain × Verified (Unit {0})))
  unfolding move_along
  connect_best fuel chain entry prev block = do
    assert (nat_beq entry.prev_block prev.hash)
    queue ← build_queue fuel chain entry prev block
    move_along fuel chain queue

  -- Here and below, `none` and `some none` are as for `connect_best`.
  unfoldable pub attach : ℕ → Chain → ChainEntry → Option (Option (Chain × Verified (Unit {0})))
  attach fuel chain entry =
      if is_main_chain chain.db entry
      then some (some (chain, ok tt))
      else (get_entry_by_hash chain.db entry.prev_block >>= λ prev.
          connect_best fuel chain entry prev none)

  -- The entry of a block and the one before it: known, or added with its header.
  unfoldable pub find_or_add_header :
      ℕ → Chain → Block → Option (Chain × Verified (ChainEntry × ChainEntry))
  find_or_add_header now chain block =
      elim (get_entry_by_hash chain.db (lib.block_hash block.header)) [
        | some entry ↦ get_entry_by_hash chain.db block.header.prev_blockhash >>= λ prev.
            some (chain, ok (entry, prev))
        | none ↦ add_header now chain block.header >>= λ added.
            some (added.0, map_err bad_header added.1)
      ]

  -- `add` once the header is there.
  unfoldable pub add_known :
      ℕ → Chain → Block → ChainEntry → ChainEntry → Option (Option (Chain × Verified ChainEntry))
  add_known fuel chain block entry prev = add_block chain block entry prev >>= λ added.
      elim added.1 [
        | ok _ ↦ connect_best fuel added.0 entry prev (some block) >>= λ end. some (
            end >>= λ best. elim best.1 [
              | ok _ ↦ some (best.0, ok entry)
              | err e ↦ some (best.0, err e)
              | panic ↦ none
            ])
        | err e ↦ some (some (added.0, err e))
        | panic ↦ none
      ]

  unfoldable pub add : ℕ → ℕ → Chain → Block → Option (Option (Chain × Verified ChainEntry))
  add fuel now chain block = find_or_add_header now chain block >>= λ found. elim found.1 [
    | ok entries ↦ add_known fuel found.0 block entries.0 entries.1
    | err e ↦ some (some (found.0, err e))
    | panic ↦ none
  ]
