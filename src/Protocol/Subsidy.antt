-- ===== src/Protocol/Subsidy.antt =====
-- The money that the subsidies of all blocks make.
use native.Mathlib.Nat.{add_comm, add-zero, add-suc, zero-mul, mul-le-mul_right, mul-le-mul}
use rust_bitcoin_node.Prelude.{
  ℕ, zero, suc, ◌+◌, ◌*◌, ◌/◌, ◌%◌, ◌^◌, ◌≤◌, ◌<◌, ◌≡◌, refl, ap, ◌∙◌, arith, leb, if◌then◌else◌,
}
use rust_bitcoin_node.Protocol.Consensus.{get_block_subsidy, base_reward, max_money}

-- The sum of the subsidies of the blocks below a height.
pub issued : ℕ → ℕ → ℕ
issued interval zero = 0
issued interval (suc n) = issued interval n + get_block_subsidy n interval

-- The subsidy in the q-th period, and the sum of those of the periods below.
subsidy_of : ℕ → ℕ
subsidy_of q = if leb 64 q then 0 else base_reward / 2 ^ q

periods : ℕ → ℕ
periods zero = 0
periods (suc q) = periods q + subsidy_of q

div_of_period : (interval q r : ℕ) → r < interval → (q * interval + r) / interval ≡ q
div_of_period interval q r h = grind arith

subsidy_in_period :
    (interval q r : ℕ) → r < interval → get_block_subsidy (q * interval + r) interval ≡ subsidy_of q
unfolding get_block_subsidy subsidy_of
subsidy_in_period interval q r h = rw (div_of_period interval q r h) refl

issued_in_period :
    (interval q r : ℕ)
    → r ≤ interval
    → issued interval (q * interval) ≡ interval * periods q
    → issued interval (q * interval + r) ≡ interval * periods q + r * subsidy_of q
unfolding issued
issued_in_period interval q zero h base = rw add-zero (omega (arith, base))
issued_in_period interval q (suc r) h base = rw add-suc (
    omega
      (arith, issued_in_period interval q r (omega arith) base, subsidy_in_period interval q r h))

issued_at_period : (interval q : ℕ) → issued interval (q * interval) ≡ interval * periods q
unfolding issued periods
issued_at_period interval zero = rw zero-mul (omega arith)
issued_at_period interval (suc q) =
    let next : suc q * interval ≡ q * interval + interval = omega arith in
    rw next (
      omega
        (arith, issued_in_period interval q interval (omega arith) (issued_at_period interval q)))

subsidy_end : (k : ℕ) → subsidy_of (64 + k) ≡ 0
unfolding subsidy_of
subsidy_end k = ground arith

-- After 64 periods nothing is added.
periods_end : (k : ℕ) → periods (64 + k) ≡ 9_999_999_989
unfolding periods subsidy_of
periods_end zero = refl
periods_end (suc k) = rw add-suc (omega (arith, periods_end k, subsidy_end k))

periods_mono : (q k : ℕ) → periods q ≤ periods (q + k)
unfolding periods
periods_mono q zero = rw add-zero (omega arith)
periods_mono q (suc k) = rw add-suc (omega (arith, periods_mono q k))

periods-le : (q : ℕ) → periods q ≤ 9_999_999_989
periods-le q =
    let commute : q + 64 ≡ 64 + q = add_comm q 64 in
    omega (arith, rw commute at (periods_mono q 64), periods_end q)

-- However many blocks there are, and whatever they claim up to their subsidies, the money supply
-- stays within 21 million coins, on a network that halves the subsidy at least every 210,000 blocks.
pub issued-le-max_money :
    (interval n : ℕ) → 0 < interval → interval ≤ 210_000 → issued interval n ≤ max_money
unfolding periods
issued-le-max_money interval n pos h =
    let q = n / interval in
    let r = n % interval in
    let whole : n ≡ q * interval + r = omega arith in
    let count : issued interval n ≡ interval * periods q + r * subsidy_of q =
      ap (issued interval) whole
      ∙ issued_in_period interval q r (omega arith) (issued_at_period interval q) in
    let part : r * subsidy_of q ≤ interval * subsidy_of q =
      mul-le-mul_right (subsidy_of q) (omega arith) in
    let bound : periods q + subsidy_of q ≤ 9_999_999_989 = periods-le (suc q) in
    let total : interval * (periods q + subsidy_of q) ≤ 210_000 * 9_999_999_989 =
      mul-le-mul h bound in
    omega (arith, count, part, total)
