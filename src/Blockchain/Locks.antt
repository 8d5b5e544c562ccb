-- ===== src/Blockchain/Locks.antt =====
-- The locks of transactions in src/blockchain/chain.rs: `get_locks` and `verify_locks` for relative
-- locks (BIP 68), `verify_final` for the lock time.
use rust_bitcoin_node.Prelude.{
  ℕ, suc, ◌+◌, ◌-◌, ◌^◌, ◌%◌, ◌≤◌, ◌<◌, ◌≡◌, Bool, true, false, List, [], ◌∷◌, Option, none, some,
  nat_beq, ltb, leb, if◌then◌else◌, not, max, bit_and, arith, ok, expect, ◌>>=◌, ◌>>◌, reject_if,
  All, >>=-eq-ok, Bool-cases, inl, inr,
}
use rust_bitcoin_node.Prelude.Partial
use rust_bitcoin_node.Prelude.Bits.{bit_and-le_right}
use rust_bitcoin_node.Prelude.Words.{add32, sub32, mul32, as_i32, u32_mod}
use rust_bitcoin_node.Prelude.Int.{pos, negsuc, ltb_ℤ}
use rust_bitcoin_node.Bitcoin.{Library, TxIn, Transaction, outpoint_eq}
use rust_bitcoin_node.Errors.{TransactionVerificationError, non_final}
use rust_bitcoin_node.Coins.{CoinView, get_entry}
use rust_bitcoin_node.Protocol.Consensus.{
  Flags, has_flag, verify_sequence, median_time_past, sequence_disable_flag, sequence_type_flag,
  sequence_mask, sequence_granularity, locktime_threshold,
}
use rust_bitcoin_node.Primitives.Tx.{Checked, is_final}
use rust_bitcoin_node.Blockchain.Entry.{ChainEntry}
use rust_bitcoin_node.Blockchain.Ancestor.{get_ancestor}
use rust_bitcoin_node.Blockchain.Time.{get_median_time}
use rust_bitcoin_node.Blockchain.Chain.{Chain}

-- `min_height` and `min_time` of the source.
pub record Locks : Type 0 where
  pub height : Option ℕ
  pub time : Option ℕ

-- `Some(max(old.unwrap_or(0), new))`
abbrev raise : Option ℕ → ℕ → Option ℕ
raise none new = some (max 0 new)
raise (some old) new = some (max old new)

-- The height of the coin that an input spends; a coin that is unknown or not in a block counts as
-- one of the next block.
unfoldable pub coin_height : Chain → CoinView → TxIn → ℕ
coin_height chain view input = elim (get_entry view input.previous_output) [
  | none ↦ add32 chain.height 1
  | some coin ↦ elim coin.height [ none ↦ add32 chain.height 1 | some height ↦ height ]
]

-- The part of the loop for an input that is locked by time; `none` is a panic.
unfoldable pub time_lock : Chain → ChainEntry → ℕ → ℕ → Option ℕ
time_lock chain prev height sequence =
    Partial.◌>>=◌ (get_ancestor chain.db prev (height - 1)) (λ entry.
      Partial.◌>>=◌ (get_median_time chain.db entry) (λ time.
        some (
          add32 time
            (sub32 (mul32 (bit_and sequence sequence_mask) (2 ^ sequence_granularity)) 1))))

-- The loop over the inputs.
unfoldable pub input_locks : Chain → ChainEntry → CoinView → List TxIn → Locks → Option Locks
input_locks chain prev view [] locks = some locks
input_locks chain prev view (input ∷ inputs) locks =
    let height = coin_height chain view input in
    let timed = Partial.◌>>=◌ (time_lock chain prev height input.sequence) (λ time.
      input_locks chain prev view inputs (record locks { time = raise locks.time time })) in
    let by_height = input_locks chain prev view inputs (record locks {
      height = raise locks.height (add32 height (sub32 (bit_and input.sequence sequence_mask) 1));
    }) in
    if not (nat_beq (bit_and input.sequence sequence_disable_flag) 0)
    then input_locks chain prev view inputs locks
    else if nat_beq (bit_and input.sequence sequence_type_flag) 0
    then by_height
    else timed

module _ ⦃lib : Library⦄ where
  unfoldable pub get_locks : Chain → ChainEntry → Transaction → CoinView → Flags → Option Locks
  get_locks chain prev tx view flags =
      let no_locks : Locks = record { height = none; time = none } in
      if not (has_flag flags verify_sequence)
      then some no_locks
      else if lib.is_coin_base tx
      then some no_locks
      else if ltb_ℤ tx.version (pos 2)
      then some no_locks
      else input_locks chain prev view tx.input no_locks

-- The checks of `verify_locks`.
unfoldable pub check_height_lock : ChainEntry → Option ℕ → Checked (Unit {0})
check_height_lock prev none = ok tt
check_height_lock prev (some height) = reject_if (ltb prev.height height) non_final

unfoldable pub check_time_lock : Chain → ChainEntry → Option ℕ → Checked (Unit {0})
check_time_lock chain prev none = ok tt
check_time_lock chain prev (some time) = do
  mtp ← expect (get_median_time chain.db prev)
  reject_if (leb mtp time) non_final

module _ ⦃lib : Library⦄ where
  unfoldable pub verify_locks :
      Chain → ChainEntry → Transaction → CoinView → Flags → Checked (Unit {0})
  verify_locks chain prev tx view flags = do
    locks ← expect (get_locks chain prev tx view flags)
    check_height_lock prev locks.height
    check_time_lock chain prev locks.time

-- `now` is the clock, in seconds.
unfoldable pub verify_final : ℕ → Chain → ChainEntry → Transaction → Flags → Option Bool
verify_final now chain prev tx flags =
    let height = add32 prev.height 1 in
    if ltb tx.lock_time locktime_threshold
    then some (is_final tx height (negsuc 0))
    else if has_flag flags median_time_past
    then Partial.◌>>=◌ (get_median_time chain.db prev)
        (λ time. some (is_final tx height (as_i32 time)))
    else some (is_final tx height (as_i32 (now % u32_mod)))

-- No lock by height of the state is above the bound.
abbrev IsAtMost : ℕ → Option ℕ → Type 0
IsAtMost bound none = Unit
IsAtMost bound (some height) = height ≤ bound

-- A relative lock by height is kept: the coin's height plus the blocks that the sequence asks for is
-- at most the height of the block to come.
abbrev pub IsHeightKept : Chain → ChainEntry → CoinView → TxIn → Type 0
IsHeightKept chain prev view input =
    bit_and input.sequence sequence_disable_flag ≡ 0
    → bit_and input.sequence sequence_type_flag ≡ 0
    → 0 < coin_height chain view input
    → coin_height chain view input < 2 ^ 31
    → coin_height chain view input + bit_and input.sequence sequence_mask ≤ suc prev.height

height-IsAtMost :
    (prev : ChainEntry) (lock : Option ℕ) {u : Unit {0}}
    → check_height_lock prev lock ≡ ok u
    → IsAtMost prev.height lock
unfolding check_height_lock
height-IsAtMost prev none e = tt
height-IsAtMost prev (some height) e = ground arith

expect-ok :
    {A : Type 0} (o : Option A) {a : A}
    → expect {E = TransactionVerificationError} o ≡ ok a
    → o ≡ some a
expect-ok none e = cc
expect-ok (some a) e = cc

raise-IsAtMost :
    (bound new : ℕ) (old : Option ℕ)
    → IsAtMost bound (raise old new)
    → IsAtMost bound old × (new ≤ bound)
raise-IsAtMost bound new none h = ground arith
raise-IsAtMost bound new (some old) h = ground arith

input_locks-kept :
    (chain : Chain) (prev : ChainEntry) (view : CoinView) (inputs : List TxIn) (locks : Locks)
    {after : Locks}
    → input_locks chain prev view inputs locks ≡ some after
    → IsAtMost prev.height after.height
    → All (IsHeightKept chain prev view) inputs × IsAtMost prev.height locks.height
unfolding input_locks add32 sub32
input_locks-kept chain prev view [] locks {after} e low =
    (tt, let same : locks ≡ after = cc in rw same low)
input_locks-kept chain prev view (input ∷ inputs) locks {after} e low =
    elim (Bool-cases (nat_beq (bit_and input.sequence sequence_disable_flag) 0)) [
      | inl enabled ↦ elim (Bool-cases (nat_beq (bit_and input.sequence sequence_type_flag) 0)) [
        | inl by_height ↦
            let height = coin_height chain view input in
            let lock = add32 height (sub32 (bit_and input.sequence sequence_mask) 1) in
            let locks' = record locks { height = raise locks.height lock } in
            let (rest, below) =
              input_locks-kept chain prev view inputs locks' (rw (enabled, by_height) at e) low in
            let (old, new) = raise-IsAtMost prev.height lock locks.height below in
            (
              (
                (λ _ _ positive small.
                    omega (arith, bit_and-le_right input.sequence sequence_mask)),
                rest,
              ),
              old,
            )
        | inr by_time ↦
            let (time, _, e') =
              Partial.>>=-eq-some
                (time_lock chain prev (coin_height chain view input) input.sequence) _
                (rw (enabled, by_time) at e) in
            let (rest, below) = input_locks-kept chain prev view inputs _ e' low in
            (((λ _ by_height _ _. ground arith), rest), below)
      ]
      | inr disabled ↦
          let (rest, below) =
            input_locks-kept chain prev view inputs locks (rw disabled at e) low in
          (((λ enabled _ _ _. ground arith), rest), below)
    ]

module _ ⦃lib : Library⦄ where
  -- A transaction that `verify_locks` accepts with the flag of BIP 68, which is not a coinbase and has
  -- version 2 or later, keeps every relative lock by height: no wrap-around lets one through, for coins
  -- of blocks between 1 and 2 ^ 31.
  pub verify_locks-kept :
      (chain : Chain) (prev : ChainEntry) (tx : Transaction) (view : CoinView) (flags : Flags)
      → has_flag flags verify_sequence ≡ true
      → lib.is_coin_base tx ≡ false
      → ltb_ℤ tx.version (pos 2) ≡ false
      → verify_locks chain prev tx view flags ≡ ok tt
      → All (IsHeightKept chain prev view) tx.input
  unfolding verify_locks get_locks
  verify_locks-kept chain prev tx view flags flagged normal version e =
      let start : Locks = record { height = none; time = none } in
      let e' : (expect (input_locks chain prev view tx.input start) >>= λ locks.
      (check_height_lock prev locks.height >>= λ _. check_time_lock chain prev locks.time))
          ≡ ok tt =
        rw (flagged, normal, version) at e in
      let (after, found, e₁) =
        >>=-eq-ok (expect (input_locks chain prev view tx.input start)) _ e' in
      let (_, low, _) = >>=-eq-ok (check_height_lock prev after.height) _ e₁ in
      (input_locks-kept chain prev view tx.input start (expect-ok _ found)
        (height-IsAtMost prev after.height low)).0
