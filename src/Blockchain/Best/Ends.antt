-- ===== src/Blockchain/Best/Ends.antt =====
-- The loops of `connect_best` in src/blockchain/chain.rs end.
use mathlib.Core.Path.{subst}
use rust_bitcoin_node.Prelude.{
  ℕ, zero, suc, ◌≤◌, ◌<◌, ◌^◌, ◌≡◌, refl, sym, ap, ◌∙◌, inl, inr, true, List, [], ◌∷◌, ◌++◌, Option,
  none, some, arith, Bool-cases, Option-cases, nat_beq, lookup, nat_eq,
}
use rust_bitcoin_node.Prelude.Partial.{>>=-eq-some}
use rust_bitcoin_node.Bitcoin.{Block, BlockHash, Library}
use rust_bitcoin_node.Blockchain.Entry.{ChainEntry}
use rust_bitcoin_node.Blockchain.Connect
use rust_bitcoin_node.Blockchain.Connect.{disconnect_block}
use rust_bitcoin_node.Blockchain.Db
use rust_bitcoin_node.Blockchain.Disk.{Batch, remove_hash, remove_next_hash}
use rust_bitcoin_node.Coins.{CoinView}
use rust_bitcoin_node.Blockchain.Db.{ChainDb, get_entry_by_hash, is_main_chain}
use rust_bitcoin_node.Blockchain.Ancestor.Laws.{IsKnown, IsLinked}
use rust_bitcoin_node.Blockchain.Chain.{Chain, is_block_ready}
use rust_bitcoin_node.Blockchain.Growth.{disconnect, get_block}
use rust_bitcoin_node.Blockchain.Best.{
  Queued, build_queue, down_to_main, keep_better, queue_nexts, rewind,
}
use rust_bitcoin_node.Blockchain.Best.Most.{Grows, get_next_best-IsMost}

-- The entries at height 0 are on the main chain, and nothing is before them.
abbrev pub HasRoot : ChainDb → Type 0
HasRoot c =
    (e : ChainEntry)
    → IsKnown c e
    → e.height ≡ 0
    → (is_main_chain c e ≡ true) × (get_entry_by_hash c e.prev_block ≡ none)

module _ (chain : Chain) (linked : IsLinked chain.db) (root : HasRoot chain.db) where
  down_to_main-some :
      (fuel : ℕ) (head : ChainEntry) (queue : List Queued)
      → IsKnown chain.db head
      → head.height ≤ fuel
      → (below : Option (List Queued)) × (down_to_main fuel chain head queue ≡ some below)
  unfolding down_to_main
  down_to_main-some zero head queue known low =
      let (main, _) = root head known (omega arith) in (some queue, rw main refl)
  down_to_main-some (suc fuel) head queue known low =
      elim (Bool-cases (is_main_chain chain.db head)) [
        | inl main ↦ (some queue, rw main refl)
        | inr side ↦ elim (Bool-cases (is_block_ready chain head.hash)) [
          | inr unready ↦ (none, rw (side, unready) refl)
          | inl ready ↦ elim (Bool-cases (nat_beq head.height 0)) [
            | inl bottom ↦ absurd (ground (arith, root head known))
            | inr above ↦
                let (prev, found, level) = linked.parent head known (ground arith) in
                let own = linked.own_hash head.prev_block prev found in
                let (below, done) =
                  down_to_main-some fuel prev
                    (record { entry = head; prev = prev; block = none } ∷ queue)
                    (ap (get_entry_by_hash chain.db) own ∙ found) (omega arith) in
                (below, rw (side, ready, found) done)
          ]
        ]
      ]

  -- The queue is built, with fuel for all heights.
  pub build_queue-some :
      (fuel : ℕ) (entry prev : ChainEntry) (block : Option Block)
      → Grows chain.db
      → IsKnown chain.db entry
      → IsKnown chain.db prev
      → 2 ^ 31 ≤ fuel
      → (queue : List Queued) × (build_queue fuel chain entry prev block ≡ some queue)
  unfolding build_queue
  build_queue-some fuel entry prev block grows known known_prev enough =
      elim (Bool-cases (is_block_ready chain entry.hash)) [
        | inr unready ↦ ([], rw unready refl)
        | inl ready ↦
            let own : Queued = record { entry = entry; prev = prev; block = block } in
            let (below, down) =
              down_to_main-some fuel prev (own ∷ []) known_prev
                (omega (arith, linked.in_range prev known_prev)) in
            let (nexts, best, _, _) =
              get_next_best-IsMost chain grows fuel entry known (omega arith) ready in
            elim (Option-cases below) [
              | inl early ↦ ([], rw (ready, down, early) refl)
              | inr (queue, found) ↦ (
                keep_better chain (queue ++ queue_nexts entry nexts),
                rw (ready, down, found, best) refl,
              )
            ]
      ]

start-cache :
    (c started : ChainDb)
    → Db.start c ≡ some started
    → started.entry_cache ≡ Db.clear_cache c.entry_cache
unfolding Db.start
start-cache c started e = elim (Option-cases c.pending) [
  | inl settled ↦ ground arith
  | inr (pending, found) ↦ absurd (ground arith)
]

commit-cache :
    (c c' : ChainDb) (batch : Batch)
    → Db.commit c batch ≡ some c'
    → c'.entry_cache ≡ Db.write_cache c.entry_cache
unfolding Db.commit
commit-cache c c' batch e = elim (Option-cases c.pending) [
  | inl settled ↦ absurd (ground arith)
  | inr (pending, found) ↦ ground arith
]

-- Taking a height off changes no entry.
remove_height-entries :
    (cache : Db.ChainEntryCache) (height : ℕ)
    → (Db.write_cache (
        Db.push_operation
          (Db.clear_cache cache)
          (Db.ChainEntryCacheOperation.remove_height height))).hash
      ≡ cache.hash
unfolding Db.write_cache Db.push_operation Db.clear_cache
remove_height-entries cache height = refl

-- The entries are those of the first database.
abbrev SameEntries : ChainDb → ChainDb → Type 0
SameEntries c c' = c'.entry_cache.hash ≡ c.entry_cache.hash

module _ ⦃lib : Library⦄ where
  db_disconnect-entries :
      (c : ChainDb) (entry : ChainEntry) (block : Block) (taken : ChainDb × CoinView)
      → Connect.disconnect c entry block ≡ some taken
      → SameEntries c taken.0
  unfolding Connect.disconnect
  db_disconnect-entries c entry block taken e =
      let (started, begun, e₁) = >>=-eq-some (Db.start c) _ e in
      let (pending, _, e₂) = >>=-eq-some started.pending _ e₁ in
      let (off, _, e₃) =
        >>=-eq-some
          (disconnect_block started.blocks
            (remove_hash entry.height ∷ remove_next_hash entry.prev_block ∷ []) pending entry block)
          _ e₂ in
      let (c', done, e₄) = >>=-eq-some _ _ e₃ in
      let cache = commit-cache _ c' _ done in
      let own : c' ≡ taken.0 = ground arith in
      let operation = Db.ChainEntryCacheOperation.remove_height entry.height in
      ap (λ (d : ChainDb). d.entry_cache.hash) (sym own)
      ∙ (ap (λ (x : Db.ChainEntryCache). x.hash)
            (cache
              ∙ ap (λ x. Db.write_cache (Db.push_operation x operation))
                  (start-cache c started begun))
          ∙ remove_height-entries c.entry_cache entry.height)

  disconnect-lower :
      (c : ChainDb) (chain chain' : Chain)
      → disconnect chain chain.tip ≡ some chain'
      → SameEntries c chain.db
      → SameEntries c chain'.db × (get_entry_by_hash c chain.tip.prev_block ≡ some chain'.tip)
  unfolding disconnect get_entry_by_hash
  disconnect-lower c chain chain' e same =
      let (block, _, e₁) = >>=-eq-some (get_block chain.db chain.tip.hash) _ e in
      let (prev, before, e₂) = >>=-eq-some (get_entry_by_hash chain.db chain.tip.prev_block) _ e₁ in
      let (taken, off, e₃) = >>=-eq-some (Connect.disconnect chain.db chain.tip block) _ e₂ in
      let kept = db_disconnect-entries chain.db chain.tip block taken off in
      let db : taken.0 ≡ chain'.db = ground arith in
      let tip : prev ≡ chain'.tip = ground arith in
      let there : get_entry_by_hash c chain.tip.prev_block ≡ some prev =
        ap (lookup chain.tip.prev_block) (sym same) ∙ before in
      (ap (λ (d : ChainDb). d.entry_cache.hash) (sym db) ∙ (kept ∙ same), there ∙ ap some tip)

  module _ (c : ChainDb) (linked : IsLinked c) (root : HasRoot c) where
    -- The loop that takes blocks off ends, with fuel for the tip's height.
    pub rewind-some :
        (fuel : ℕ) (chain : Chain) (hash : BlockHash)
        → SameEntries c chain.db
        → IsKnown c chain.tip
        → chain.tip.height < fuel
        → (end : Option Chain) × (rewind fuel chain hash ≡ some end)
    unfolding rewind
    rewind-some zero chain hash same known low = absurd (omega arith)
    rewind-some (suc fuel) chain hash same known low =
        elim (Bool-cases (nat_beq chain.tip.hash hash)) [
          | inl there ↦ (some chain, rw there refl)
          | inr not_yet ↦ elim (Option-cases (disconnect chain chain.tip)) [
            | inl panics ↦ (none, rw (not_yet, panics) refl)
            | inr (chain', off) ↦
                let (same', before) = disconnect-lower c chain chain' off same in
                elim (Bool-cases (nat_beq chain.tip.height 0)) [
                  | inl bottom ↦ absurd (ground (arith, root chain.tip known))
                  | inr above ↦
                      let (prev, found, level) = linked.parent chain.tip known (ground arith) in
                      let prev_tip : prev ≡ chain'.tip = cc in
                      let lower : suc chain'.tip.height ≡ chain.tip.height =
                        subst (λ (e : ChainEntry). suc e.height ≡ chain.tip.height) prev_tip
                          level in
                      let own = linked.own_hash chain.tip.prev_block chain'.tip before in
                      let (end, done) =
                        rewind-some fuel chain' hash same' (ap (get_entry_by_hash c) own ∙ before)
                          (omega arith) in
                      (end, rw (not_yet, off) done)
                ]
          ]
        ]
