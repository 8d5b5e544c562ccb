-- ===== src/Blockchain/Best/Work.antt =====
-- A move of the chain by `connect_best` of src/blockchain/chain.rs gains work.
use rust_bitcoin_node.Prelude.{
  ℕ, ◌^◌, ◌≤◌, ◌<◌, true, nat_beq_iff, ◌≡◌, refl, sym, ap, ◌∙◌, ◌⊎◌, inl, inr, List, [], ◌∷◌, ◌++◌,
  Option, none, some, leb, nat_beq, arith, ok, err, panic, Bool-cases, Option-cases,
}
use rust_bitcoin_node.Prelude.Partial.{◌>>=◌, >>=-eq-some, assert}
use rust_bitcoin_node.Bitcoin.{Library, Block}
use rust_bitcoin_node.Coins.{CoinView}
use rust_bitcoin_node.Primitives.Block.{Verified}
use rust_bitcoin_node.Blockchain.Entry.{ChainEntry}
use rust_bitcoin_node.Blockchain.Connect
use rust_bitcoin_node.Blockchain.Chain.{Chain, DeploymentState, is_block_ready}
use rust_bitcoin_node.Blockchain.Verify.{verify_context}
use rust_bitcoin_node.Blockchain.Growth.{connect, connect_verified}
use rust_bitcoin_node.Blockchain.Ancestor.Laws.{IsKnown, IsLinked}
use rust_bitcoin_node.Blockchain.Best.Most.{Grows}
use rust_bitcoin_node.Blockchain.Best.Ends.{HasRoot, build_queue-some, rewind-some}
use rust_bitcoin_node.Blockchain.Best.{
  Queued, build_queue, connect_best, connect_queue, down_to_main, get_next_best, keep_better,
  last_queued, move_along, queue_nexts, queued_block, rewind,
}

keep_better-gains :
    (chain : Chain) (queue : List Queued) (first : Queued) (rest : List Queued)
    → keep_better chain queue ≡ first ∷ rest
    → chain.tip.chainwork < (last_queued first rest).entry.chainwork
unfolding keep_better
keep_better-gains chain [] first rest e = absurd (cc)
keep_better-gains chain (a ∷ queue) first rest e =
    elim (Bool-cases (leb (last_queued a queue).entry.chainwork chain.tip.chainwork)) [
      | inl less ↦ absurd (ground arith)
      | inr more ↦
          let same : a ∷ queue ≡ first ∷ rest = ground arith in
          let last =
            ap {B = ℕ}
              (λ (l : List Queued). elim l [ [] ↦ 0 | x ∷ xs ↦ (last_queued x xs).entry.chainwork ])
              same in
          ground arith
    ]

build_queue-gains :
    (fuel : ℕ) (chain : Chain) (entry prev : ChainEntry) (block : Option Block) (first : Queued)
    (rest : List Queued)
    → build_queue fuel chain entry prev block ≡ some (first ∷ rest)
    → chain.tip.chainwork < (last_queued first rest).entry.chainwork
unfolding build_queue
build_queue-gains fuel chain entry prev block first rest e =
    elim (Bool-cases (is_block_ready chain entry.hash)) [
      | inr unready ↦ absurd (ground arith)
      | inl ready ↦
          let e' = rw ready at e in
          let own : Queued = record { entry = entry; prev = prev; block = block } in
          let (below, down, e₁) = >>=-eq-some (down_to_main fuel chain prev (own ∷ [])) _ e' in
          elim (Option-cases below) [
            | inl early ↦ absurd (ground arith)
            | inr (queue, found) ↦
                let e₂ = rw found at e₁ in
                let (nexts, best, e₃) = >>=-eq-some (get_next_best fuel chain entry) _ e₂ in
                keep_better-gains chain (queue ++ queue_nexts entry nexts) first rest (cc)
          ]
    ]

module _ ⦃lib : Library⦄ where
  connect_verified-tip :
      (chain chain' : Chain) (entry : ChainEntry) (block : Block)
      (verified : Verified (CoinView × DeploymentState)) (result : ChainEntry)
      → connect_verified chain entry block verified ≡ some (chain', ok result)
      → chain'.tip ≡ entry
  unfolding connect_verified
  connect_verified-tip chain chain' entry block panic result e = absurd (cc)
  connect_verified-tip chain chain' entry block (err x) result e = absurd (ground arith)
  connect_verified-tip chain chain' entry block (ok (view, state)) result e =
      let (c, _, done) = >>=-eq-some (Connect.connect chain.db entry block view) _ e in ground arith

  connect-tip :
      (chain chain' : Chain) (block : Block) (entry prev : ChainEntry) (result : ChainEntry)
      → connect chain block entry prev ≡ some (chain', ok result)
      → chain'.tip ≡ entry
  unfolding connect
  connect-tip chain chain' block entry prev result e =
      let (_, _, e₁) = >>=-eq-some (assert (nat_beq block.header.prev_blockhash prev.hash)) _ e in
      let (_, _, e₂) = >>=-eq-some (assert (nat_beq prev.hash chain.tip.hash)) _ e₁ in
      let (verified, _, e₃) = >>=-eq-some (verify_context chain block prev) _ e₂ in
      connect_verified-tip verified.0 chain' entry block verified.1 result e₃

  connected-ok :
      (connected : Chain × Verified ChainEntry)
      (next : Chain → Option (Chain × Verified (Unit {0}))) (chain' : Chain)
      → elim connected.1 [
        | ok _ ↦ next connected.0
        | err e ↦ some (connected.0, err e)
        | panic ↦ none
      ]
        ≡ some (chain', ok tt)
      → (result : ChainEntry) × (connected ≡ (connected.0, ok result))
        × (next connected.0 ≡ some (chain', ok tt))
  connected-ok (c, ok result) next chain' e = (result, refl, e)
  connected-ok (c, err x) next chain' e = absurd (ground arith)
  connected-ok (c, panic) next chain' e = absurd (cc)

  -- The tip after a queue is connected without an error is the queue's last entry.
  connect_queue-tip :
      (chain chain' : Chain) (first : Queued) (rest : List Queued)
      → connect_queue chain (first ∷ rest) ≡ some (chain', ok tt)
      → chain'.tip ≡ (last_queued first rest).entry
  unfolding connect_queue
  connect_queue-tip chain chain' first [] e =
      let (block, _, e₁) = >>=-eq-some (queued_block chain first) _ e in
      let (connected, run, e₂) = >>=-eq-some (connect chain block first.entry first.prev) _ e₁ in
      let (result, done, e₃) = connected-ok connected (λ c. some (c, ok tt)) chain' e₂ in
      let tip =
        connect-tip chain connected.0 block first.entry first.prev result (run ∙ ap some done) in
      let same : connected.0 ≡ chain' = ground arith in ap (λ (c : Chain). c.tip) (sym same) ∙ tip
  connect_queue-tip chain chain' first (next ∷ rest) e =
      let (block, _, e₁) = >>=-eq-some (queued_block chain first) _ e in
      let (connected, run, e₂) = >>=-eq-some (connect chain block first.entry first.prev) _ e₁ in
      let (result, done, e₃) =
        connected-ok connected (λ c. connect_queue c (next ∷ rest)) chain' e₂ in
      connect_queue-tip connected.0 chain' next rest e₃

  moved :
      (fuel : ℕ) (chain chain' : Chain) (entry prev : ChainEntry) (block : Option Block)
      (queue : List Queued)
      → build_queue fuel chain entry prev block ≡ some queue
      → move_along fuel chain queue ≡ some (some (chain', ok tt))
      → (chain' ≡ chain) ⊎ (chain.tip.chainwork < chain'.tip.chainwork)
  unfolding move_along
  moved fuel chain chain' entry prev block [] built e = inl (ground arith)
  moved fuel chain chain' entry prev block (first ∷ rest) built e =
      let more = build_queue-gains fuel chain entry prev block first rest built in
      let (end, _, e₁) = >>=-eq-some (rewind fuel chain first.entry.prev_block) _ e in
      let e₂ : (end >>= λ forked. connect_queue forked (first ∷ rest)) ≡ some (chain', ok tt) =
        ground arith in
      let (forked, _, run) = >>=-eq-some end _ e₂ in
      let tip = connect_queue-tip forked chain' first rest run in
      inr (ground (arith, ap (λ (x : ChainEntry). x.chainwork) tip))

  move_along-some :
      (fuel : ℕ) (chain : Chain) (queue : List Queued)
      → IsLinked chain.db
      → HasRoot chain.db
      → IsKnown chain.db chain.tip
      → 2 ^ 31 ≤ fuel
      → (end : Option (Chain × Verified (Unit {0}))) × (move_along fuel chain queue ≡ some end)
  unfolding move_along
  move_along-some fuel chain [] linked root known enough = (some (chain, ok tt), refl)
  move_along-some fuel chain (first ∷ rest) linked root known enough =
      let (end, done) =
        rewind-some chain.db linked root fuel chain first.entry.prev_block refl known
          (omega (arith, linked.in_range chain.tip known)) in
      ((end >>= λ forked. connect_queue forked (first ∷ rest)), rw done refl)

  -- In a linked database whose entries of height 0 are on the main chain with none before them, and where
  -- what follows a known entry is known, one higher and has more work: from a known tip, for a known entry and the one before it, and with fuel for all heights,
  -- `connect_best` ends; where it ends without a panic or an error, either the chain is as it was, or its
  -- tip has more work than the tip before, whatever blocks were taken off on the way.
  pub connect_best-gains :
      (fuel : ℕ) (chain : Chain) (entry prev : ChainEntry) (block : Option Block)
      → IsLinked chain.db
      → HasRoot chain.db
      → Grows chain.db
      → IsKnown chain.db chain.tip
      → IsKnown chain.db entry
      → IsKnown chain.db prev
      → entry.prev_block ≡ prev.hash
      → 2 ^ 31 ≤ fuel
      → (end : Option (Chain × Verified (Unit {0}))) × (connect_best fuel chain entry prev block
          ≡ some end)
        × ((chain' : Chain)
            → end ≡ some (chain', ok tt)
            → (chain' ≡ chain) ⊎ (chain.tip.chainwork < chain'.tip.chainwork))
  unfolding connect_best
  connect_best-gains fuel chain entry prev block linked root grows known_tip known known_prev
        follows enough =
      let (queue, built) =
        build_queue-some chain linked root fuel entry prev block grows known known_prev enough in
      let (end, done) = move_along-some fuel chain queue linked root known_tip enough in
      let passes : nat_beq entry.prev_block prev.hash ≡ true =
        ground (arith, nat_beq_iff entry.prev_block prev.hash) in
      (
        end,
        rw (passes, built) done,
        λ chain' e. moved fuel chain chain' entry prev block queue built (done ∙ ap some e),
      )
