-- ===== src/Primitives/Tx/Laws.antt =====
-- What a transaction that passes `check_sanity` and `check_inputs` of src/primitives/tx.rs is.
use rust_bitcoin_node.Prelude.{
  ℕ, ◌+◌, ◌*◌, ◌≤◌, ◌<◌, ◌≡◌, refl, ◌≢◌, true, false, List, [], ◌∷◌, none, some, ok, length, sum_of,
  contains, arith, All, >>=-eq-ok, reject_if, ok_or, is_empty, ◌%◌, if◌then◌else◌, ltb,
  Option-cases, inl, inr,
}
use rust_bitcoin_node.Prelude.Words.{add64, checked_add64, u64_mod}
use rust_bitcoin_node.Bitcoin.{Library, OutPoint, TxIn, TxOut, Transaction, outpoint_eq}
use rust_bitcoin_node.Errors.{
  TransactionVerificationError, inputs_missing_or_spent, duplicate_input, inputs_empty,
  outputs_empty, oversized,
}
use rust_bitcoin_node.Coins.{CoinEntry, CoinView, get_entry}
use rust_bitcoin_node.Protocol.Consensus.{max_money, coinbase_maturity}
use rust_bitcoin_node.Primitives.Tx.{
  sum_values, get_output_value, check_maturity, check_coin, check_input_coins, check_inputs,
  check_outputs, check_duplicates, check_sanity, stripped_size,
}

-- The true sum of the outputs.
abbrev pub output_total : Transaction → ℕ
output_total tx = sum_of (λ (output : TxOut). output.value) tx.output

-- The value of the coin that an input spends; 0 where the view has none.
abbrev pub coin_value : CoinView → TxIn → ℕ
coin_value view input = elim (get_entry view input.previous_output) [
  | none ↦ 0
  | some coin ↦ coin.output.value
]

abbrev pub input_total : CoinView → Transaction → ℕ
input_total view tx = sum_of (coin_value view) tx.input

-- Every coin that the inputs spend is in the view, and if it is of a coinbase, it is mature.
abbrev pub IsMature : CoinView → ℕ → TxIn → Type 0
IsMature view height input =
    (coin : CoinEntry) × (get_entry view input.previous_output ≡ some coin)
    × (coin.coinbase ≡ true
        → (made : ℕ) × (coin.height ≡ some made) × (made + coinbase_maturity ≤ height))

check_coin-ok :
    (coin : CoinEntry) (height total : ℕ) {total' : ℕ}
    → check_coin coin height total ≡ ok total'
    → (total' ≡ total + coin.output.value) × (total' ≤ max_money)
unfolding check_coin check_maturity checked_add64
check_coin-ok coin height total e = ground arith

check_coin-mature :
    (coin : CoinEntry) (height total : ℕ) {total' : ℕ}
    → check_coin coin height total ≡ ok total'
    → coin.coinbase ≡ true
    → (made : ℕ) × (coin.height ≡ some made) × (made + coinbase_maturity ≤ height)
unfolding check_coin check_maturity
check_coin-mature coin height total e c = elim (Option-cases coin.height) [
  | inl h ↦ absurd (ground arith)
  | inr (made, h) ↦ (made, h, ground arith)
]

check_input_coins-ok :
    (view : CoinView) (height total : ℕ) (inputs : List TxIn) {total' : ℕ}
    → check_input_coins view height total inputs ≡ ok total'
    → total ≤ max_money
    → (total' ≡ total + sum_of (coin_value view) inputs)
      × (total' ≤ max_money)
      × All (IsMature view height) inputs
unfolding check_input_coins
check_input_coins-ok view height total [] e small = ground arith
check_input_coins-ok view height total (input ∷ inputs) e small =
    let (coin, found, e₁) =
      >>=-eq-ok (ok_or inputs_missing_or_spent (get_entry view input.previous_output)) _ e in
    let (total₁, here, rest) = >>=-eq-ok (check_coin coin height total) _ e₁ in
    let (sum, bound) = check_coin-ok coin height total here in
    let (sum', bound', mature) = check_input_coins-ok view height total₁ inputs rest bound in
    let in_view : get_entry view input.previous_output ≡ some coin = ground arith in
    (ground arith, bound', ((coin, in_view, check_coin-mature coin height total here), mature))

sum_values-lt :
    (total : ℕ) (outputs : List TxOut)
    → total + sum_of (λ (output : TxOut). output.value) outputs < u64_mod
    → sum_values total outputs ≡ total + sum_of (λ (output : TxOut). output.value) outputs
unfolding sum_values add64
sum_values-lt total [] h = omega arith
sum_values-lt total (output ∷ outputs) h =
    let small : (total + output.value) % u64_mod ≡ total + output.value = omega arith in
    rw small (omega (arith, sum_values-lt (total + output.value) outputs (omega arith)))

check_outputs-ok :
    (total : ℕ) (outputs : List TxOut)
    → total ≤ max_money
    → check_outputs total outputs ≡ ok tt
    → total + sum_of (λ (output : TxOut). output.value) outputs ≤ max_money
unfolding check_outputs checked_add64
check_outputs-ok total [] small e = omega arith
check_outputs-ok total (output ∷ outputs) small e =
    ground (arith, check_outputs-ok (total + output.value) outputs)

nonempty_of_accepted {ℓ} :
    {A : Type ℓ} {xs : List A} (error : TransactionVerificationError) {u : Unit {0}}
    → reject_if (is_empty xs) error ≡ ok u
    → xs ≢ []
nonempty_of_accepted {xs = []} error e h = cc
nonempty_of_accepted {xs = x ∷ xs} error e h = cc

-- No outpoint is spent twice, nor is one of those in `seen`.
abbrev pub IsDistinct : List OutPoint → List TxIn → Type 0
IsDistinct seen [] = Unit
IsDistinct seen (input ∷ inputs) =
    (contains input.previous_output seen ≡ false) × IsDistinct (input.previous_output ∷ seen) inputs

check_duplicates-ok :
    (seen : List OutPoint) (inputs : List TxIn)
    → check_duplicates seen inputs ≡ ok tt
    → IsDistinct seen inputs
unfolding check_duplicates
check_duplicates-ok seen [] e = tt
check_duplicates-ok seen (input ∷ inputs) e =
    let (_, new, rest) =
      >>=-eq-ok (reject_if (contains input.previous_output seen) duplicate_input) _ e in
    (ground arith, check_duplicates-ok (input.previous_output ∷ seen) inputs rest)

check_duplicates_if_many :
    (inputs : List TxIn)
    → (if ltb 1 (length inputs) then check_duplicates [] inputs else ok tt) ≡ ok tt
    → IsDistinct [] inputs
unfolding contains
check_duplicates_if_many [] e = tt
check_duplicates_if_many (a ∷ []) e = (refl, tt)
check_duplicates_if_many (a ∷ b ∷ inputs) e = check_duplicates-ok [] (a ∷ b ∷ inputs) (ground arith)

module _ ⦃lib : Library⦄ where
  -- A transaction that passes `check_sanity`.
  pub record IsSane (tx : Transaction) : Type 0 where
    pub has_inputs : tx.input ≢ []
    pub has_outputs : tx.output ≢ []
    pub distinct : IsDistinct [] tx.input
    pub total : output_total tx ≤ max_money

  -- A transaction that passes `check_sanity` has inputs and outputs, spends no outpoint twice, and
  -- its outputs, summed without wrap-around, are worth at most 21 million coins.
  pub check_sanity-IsSane : (tx : Transaction) → check_sanity tx ≡ ok tt → IsSane tx
  unfolding check_sanity
  check_sanity-IsSane tx e =
      let (_, a, e₁) = >>=-eq-ok (reject_if (is_empty tx.input) inputs_empty) _ e in
      let (_, b, e₂) = >>=-eq-ok (reject_if (is_empty tx.output) outputs_empty) _ e₁ in
      let (_, _, e₃) =
        >>=-eq-ok
          (reject_if (ltb lib.max_block_weight (stripped_size tx * lib.witness_scale_factor))
            oversized)
          _ e₂ in
      let (_, c, e₄) = >>=-eq-ok (check_outputs 0 tx.output) _ e₃ in
      let (_, d, _) =
        >>=-eq-ok (if ltb 1 (length tx.input) then check_duplicates [] tx.input else ok tt) _ e₄ in
      record {
        has_inputs = nonempty_of_accepted inputs_empty a;
        has_outputs = nonempty_of_accepted outputs_empty b;
        distinct = check_duplicates_if_many tx.input d;
        total = omega (arith, check_outputs-ok 0 tx.output (omega arith) c);
      }

  -- Where a transaction passes `check_sanity` and then `check_inputs` with a fee: the inputs' coins
  -- are worth exactly its outputs and the fee together, in true sums; that is at most 21 million
  -- coins; and every input's coin is in the view and, if of a coinbase, 100 blocks deep.
  pub check_inputs_conserves :
      (tx : Transaction) (view : CoinView) (height : ℕ) {fee : ℕ}
      → check_sanity tx ≡ ok tt
      → check_inputs tx view height ≡ ok fee
      → (output_total tx + fee ≡ input_total view tx)
        × (input_total view tx ≤ max_money)
        × All (IsMature view height) tx.input
  unfolding check_inputs get_output_value
  check_inputs_conserves tx view height sane e =
      let (total, coins, _) = >>=-eq-ok (check_input_coins view height 0 tx.input) _ e in
      let (sum, bound, mature) = check_input_coins-ok view height 0 tx.input coins (omega arith) in
      let value = sum_values-lt 0 tx.output (omega (arith, (check_sanity-IsSane tx sane).total)) in
      (ground (arith, value), omega arith, mature)
