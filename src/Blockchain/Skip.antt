-- ===== src/Blockchain/Skip.antt =====
-- `get_skip_height` of src/blockchain/chain_db.rs: the height that an entry's skip pointer leads to.
use rust_bitcoin_node.Prelude.{ℕ, ◌+◌, ◌-◌, ◌≤◌, ◌<◌, arith, ltb, nat_beq, if◌then◌else◌, bit_and}
use rust_bitcoin_node.Prelude.Bits.{bit_and-le_right}

-- `n & (n - 1)`
flip_low : ℕ → ℕ
flip_low n = bit_and n (n - 1)

unfoldable pub get_skip_height : ℕ → ℕ
unfolding flip_low
get_skip_height height =
    if ltb height 2
    then 0
    else if nat_beq (bit_and height 1) 1
    then flip_low (flip_low (height - 1) + 1)
    else flip_low height

flip_low-le : (n : ℕ) → flip_low n ≤ n - 1
unfolding flip_low
flip_low-le n = bit_and-le_right n (n - 1)

-- The height that the skip pointer of an entry above the genesis block leads to is below the entry's.
pub get_skip_height-lt : (height : ℕ) → 0 < height → get_skip_height height < height
unfolding get_skip_height
get_skip_height-lt height h =
    ground
      (arith, flip_low-le (flip_low (height - 1) + 1), flip_low-le (height - 1), flip_low-le height)
