-- ===== src/Blockchain/Inputs/Laws.antt =====
-- What `verify_inputs` in src/blockchain/chain.rs accepts: its view, its fees, and its coinbase.
use rust_bitcoin_node.Prelude.{
  ℕ, ◌+◌, ◌/◌, ◌^◌, ◌≤◌, ◌≡◌, refl, sym, ◌∙◌, ap, ◌⊎◌, true, false, List, [], ◌∷◌, ltb,
  if◌then◌else◌, ok, err, panic, ◌>>=◌, reject_if, map_err, >>=-eq-ok, drop, arith, Bool-cases, inl,
  inr,
}
use native.Mathlib.Nat.{div-le_self}
use rust_bitcoin_node.Prelude.Words.{add32, add64, checked_add64}
use rust_bitcoin_node.Prelude.Int.{pos, ltb_ℤ}
use rust_bitcoin_node.Bitcoin.{Library, Block, Transaction}
use rust_bitcoin_node.Errors.{bad_transaction, bad_block_sigops, bad_coinbase_amount}
use rust_bitcoin_node.Coins.{CoinView, empty_view, spend_inputs, add_tx, view_tx, view_txs}
use rust_bitcoin_node.Protocol.Consensus.{
  max_money, max_block_sigops_cost, base_reward, get_block_subsidy,
}
use rust_bitcoin_node.Primitives.Tx.{Checked, check_inputs, get_sigop_cost}
use rust_bitcoin_node.Primitives.Block.{get_claimed}
use rust_bitcoin_node.Blockchain.Entry.{ChainEntry}
use rust_bitcoin_node.Blockchain.Db.{read_coin}
use rust_bitcoin_node.Blockchain.Chain.{Chain, DeploymentState}
use rust_bitcoin_node.Blockchain.Locks.{verify_locks}
use rust_bitcoin_node.Blockchain.Inputs.{
  Verifying, add_fee, verify_spends, verify_tx, verify_txs, verify_all_scripts, verify_inputs,
}

module _ ⦃lib : Library⦄ where
  -- The fees of a list of transactions, one after the other on the coins that those before left: the
  -- reference, with no bound on a sum.
  pub data Fees (chain : Chain) (height : ℕ)
      : CoinView → List Transaction → CoinView → ℕ → Type 0 where
    done : {view : CoinView} → Fees chain height view [] view 0
    coinbase :
        {view view' : CoinView} {tx : Transaction} {txs : List Transaction} {fee : ℕ}
        → lib.is_coin_base tx ≡ true
        → Fees chain height (add_tx view tx height) txs view' fee
        → Fees chain height view (tx ∷ txs) view' fee
    spending :
        {view spent view' : CoinView} {tx : Transaction} {txs : List Transaction} {fee fees : ℕ}
        → lib.is_coin_base tx ≡ false
        → spend_inputs (read_coin chain.db) view tx ≡ ok spent
        → check_inputs tx spent height ≡ ok fee
        → Fees chain height (add_tx spent tx height) txs view' fees
        → Fees chain height view (tx ∷ txs) view' (fee + fees)

  -- The view that the fees are read from is the one that the coins of the transactions make.
  pub Fees-view_txs :
      {chain : Chain} {height fee : ℕ} {view view' : CoinView} {txs : List Transaction}
      → Fees chain height view txs view' fee
      → view_txs (read_coin chain.db) view height txs ≡ ok view'
  unfolding view_txs view_tx
  Fees-view_txs done = refl
  Fees-view_txs (coinbase base rest) = rw base (Fees-view_txs rest)
  Fees-view_txs (spending normal spent checked rest) = rw (normal, spent) (Fees-view_txs rest)

  add_fee-ok :
      (reward fee : ℕ) {total : ℕ}
      → add_fee reward fee ≡ ok total
      → (total ≡ reward + fee) × (total ≤ max_money)
  unfolding add_fee checked_add64
  add_fee-ok reward fee e = ground arith

  verify_spends-ok :
      (chain : Chain) (prev : ChainEntry) (height : ℕ) (state : DeploymentState) (tx : Transaction)
      (v : Verifying) {v' : Verifying}
      → verify_spends chain prev height state tx v ≡ ok v'
      → (spent : CoinView) × (fee : ℕ) × (spend_inputs (read_coin chain.db) v.view tx ≡ ok spent)
        × (check_inputs tx spent height ≡ ok fee)
        × (v' ≡ record { view = spent; sigops = v.sigops; reward = v.reward + fee })
        × (v.reward + fee ≤ max_money)
  unfolding verify_spends
  verify_spends-ok chain prev height state tx v {v'} e =
      let (spent, a, e₁) = >>=-eq-ok (spend_inputs (read_coin chain.db) v.view tx) _ e in
      let (fee, b, e₂) = >>=-eq-ok (check_inputs tx spent height) _ e₁ in
      let (reward, c, e₃) = >>=-eq-ok (add_fee v.reward fee) _ e₂ in
      let (_, _, e₄) =
        >>=-eq-ok
          (if ltb_ℤ tx.version (pos 2)
            then ok tt
            else verify_locks chain prev tx spent state.lock_flags)
          _ e₃ in
      let (total, low) = add_fee-ok v.reward fee c in
      let same : v' ≡ record { view = spent; sigops = v.sigops; reward = reward } = cc in
      (
        spent,
        fee,
        a,
        b,
        same ∙ ap (λ r. record { view = spent; sigops = v.sigops; reward = r }) total,
        omega (arith, total, low),
      )

  not_above :
      (sigops : ℕ) {u : Unit {0}}
      → reject_if (ltb max_block_sigops_cost sigops) bad_block_sigops ≡ ok u
      → sigops ≤ max_block_sigops_cost
  not_above sigops e = ground arith

  -- The rest of a round, after the spends.
  finish_tx-ok :
      (height : ℕ) (state : DeploymentState) (tx : Transaction) (v : Verifying) {v' : Verifying}
      → (reject_if
            (ltb max_block_sigops_cost (v.sigops + get_sigop_cost tx v.view state.script_flags))
            bad_block_sigops
          >>= λ _. ok (record v {
            view = add_tx v.view tx height;
            sigops = v.sigops + get_sigop_cost tx v.view state.script_flags;
          }))
        ≡ ok v'
      → (v'.view ≡ add_tx v.view tx height)
        × (v'.reward ≡ v.reward)
        × (v'.sigops ≤ max_block_sigops_cost)
  finish_tx-ok height state tx v {v'} e =
      let sigops = v.sigops + get_sigop_cost tx v.view state.script_flags in
      let (_, low, e₁) =
        >>=-eq-ok (reject_if (ltb max_block_sigops_cost sigops) bad_block_sigops) _ e in
      let same : v'
          ≡ record { view = add_tx v.view tx height; sigops = sigops; reward = v.reward } =
        cc in
      (
        ap (λ (x : Verifying). x.view) same,
        ap (λ (x : Verifying). x.reward) same,
        rw same (not_above sigops low),
      )

  map_err-ok : {A : Type 0} (m : Checked A) {a : A} → map_err bad_transaction m ≡ ok a → m ≡ ok a
  map_err-ok (ok a) e = cc
  map_err-ok (err x) e = cc
  map_err-ok panic e = cc

  -- A round that succeeds, for a coinbase and for another transaction.
  verify_tx-ok :
      (chain : Chain) (prev : ChainEntry) (height : ℕ) (state : DeploymentState) (tx : Transaction)
      (v : Verifying) {v' : Verifying}
      → verify_tx chain prev height state tx v ≡ ok v'
      → ((lib.is_coin_base tx ≡ true)
          × (v'.view ≡ add_tx v.view tx height)
          × (v'.reward ≡ v.reward))
        ⊎ ((spent : CoinView) × (fee : ℕ) × (lib.is_coin_base tx ≡ false)
            × (spend_inputs (read_coin chain.db) v.view tx ≡ ok spent)
            × (check_inputs tx spent height ≡ ok fee)
            × (v'.view ≡ add_tx spent tx height)
            × (v'.reward ≡ v.reward + fee)
            × (v.reward + fee ≤ max_money))
  unfolding verify_tx
  verify_tx-ok chain prev height state tx v {v'} e = elim (Bool-cases (lib.is_coin_base tx)) [
    | inl base ↦
        let (made, kept, _) = finish_tx-ok height state tx v (rw base at e) in
        inl (base, made, kept)
    | inr normal ↦
        let (x, b, e₁) =
          >>=-eq-ok (map_err bad_transaction (verify_spends chain prev height state tx v)) _
            (rw normal at e) in
        let (spent, fee, c, d, same, under) =
          verify_spends-ok chain prev height state tx v (map_err-ok _ b) in
        let (made, kept, _) = finish_tx-ok height state tx x e₁ in
        inr (
          spent,
          fee,
          normal,
          c,
          d,
          made ∙ ap (λ (y : Verifying). add_tx y.view tx height) same,
          kept ∙ ap (λ (y : Verifying). y.reward) same,
          under,
        )
  ]

  verify_txs-Fees :
      (chain : Chain) (prev : ChainEntry) (height : ℕ) (state : DeploymentState)
      (txs : List Transaction) (v : Verifying) {v' : Verifying}
      → verify_txs chain prev height state txs v ≡ ok v'
      → v.reward ≤ max_money
      → (fee : ℕ) × Fees chain height v.view txs v'.view fee
        × (v'.reward ≡ v.reward + fee)
        × (v'.reward ≤ max_money)
  unfolding verify_txs
  verify_txs-Fees chain prev height state [] v {v'} e low =
      let same : v' ≡ v = cc in rw same (0, done, omega arith, low)
  verify_txs-Fees chain prev height state (tx ∷ txs) v {v'} e low =
      let (w, a, e₁) = >>=-eq-ok (verify_tx chain prev height state tx v) _ e in
      elim (verify_tx-ok chain prev height state tx v a) [
        | inl (base, made, kept) ↦
            let (fee, fees, total, bound) =
              verify_txs-Fees chain prev height state txs w e₁ (omega arith) in
            (fee, coinbase base (rw (sym made) fees), omega arith, bound)
        | inr (spent, fee, normal, c, d, made, added, under) ↦
            let (fees, rest, total, bound) =
              verify_txs-Fees chain prev height state txs w e₁ (omega arith) in
            (fee + fees, spending normal c d (rw (sym made) rest), omega arith, bound)
      ]

  subsidy-le : (height interval : ℕ) → get_block_subsidy height interval ≤ base_reward
  unfolding get_block_subsidy
  subsidy-le height interval = ground (arith, div-le_self base_reward (2 ^ (height / interval)))

  -- A block whose inputs are accepted has a coinbase that claims at most the subsidy and the fees of its
  -- transactions, which are the sum, without a wrap-around, of what each of them leaves of the coins
  -- that it spends, on the coins that those before left; the view is the one of these coins.
  pub verify_inputs-Fees :
      (chain : Chain) (block : Block) (prev : ChainEntry) (state : DeploymentState)
      (view : CoinView)
      → verify_inputs chain block prev state ≡ ok view
      → let height = add32 prev.height 1 in
        (fee : ℕ) × (claimed : ℕ) × Fees chain height empty_view block.txdata view fee
        × (get_claimed block ≡ ok claimed)
        × (claimed ≤ fee + get_block_subsidy height chain.options.network.halving_interval)
        × (fee ≤ max_money)
  unfolding verify_inputs add64
  verify_inputs-Fees chain block prev state view e =
      let height = add32 prev.height 1 in
      let begin : Verifying = record { view = empty_view; sigops = 0; reward = 0 } in
      let subsidy = get_block_subsidy height chain.options.network.halving_interval in
      let (v, a, e₁) = >>=-eq-ok (verify_txs chain prev height state block.txdata begin) _ e in
      let (claimed, b, e₂) = >>=-eq-ok (get_claimed block) _ e₁ in
      let (_, c, e₃) =
        >>=-eq-ok (reject_if (ltb (add64 v.reward subsidy) claimed) bad_coinbase_amount) _ e₂ in
      let (_, _, e₄) =
        >>=-eq-ok
          (if chain.options.verify_scripts
            then verify_all_scripts v.view state.script_flags (drop 1 block.txdata)
            else ok tt)
          _ e₃ in
      let (fee, fees, total, bound) =
        verify_txs-Fees chain prev height state block.txdata begin a (omega arith) in
      let same : view ≡ v.view = cc in
      (
        fee,
        claimed,
        rw same fees,
        b,
        ground (arith, subsidy-le height chain.options.network.halving_interval),
        omega arith,
      )
