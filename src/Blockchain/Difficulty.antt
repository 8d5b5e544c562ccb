-- ===== src/Blockchain/Difficulty.antt =====
-- The difficulty of src/blockchain/chain.rs: `get_target` and `retarget`. `none` is a panic, or no
-- more fuel.
use rust_bitcoin_node.Prelude.{
  ℕ, zero, suc, ◌-◌, ◌*◌, ◌/◌, ◌%◌, ◌≤◌, ◌<◌, ◌≡◌, Option, none, some, nat_beq, ltb, leb,
  if◌then◌else◌, ◌&&◌, not, arith, min, max,
}
use rust_bitcoin_node.Prelude.Partial.{◌>>=◌, ◌>>◌, assert}
use rust_bitcoin_node.Prelude.Words.{add32, sub32, mul32, u32_mod}
use rust_bitcoin_node.Bitcoin.{Library}
use rust_bitcoin_node.Protocol.Network.{NetworkParams}
use rust_bitcoin_node.Blockchain.Entry.{ChainEntry}
use rust_bitcoin_node.Blockchain.Db.{ChainDb, get_entry_by_hash}
use rust_bitcoin_node.Blockchain.Ancestor.{get_ancestor}

-- The span is a u32 and wraps where the first block of the period has the later time.
unfoldable pub clamp_timespan : ℕ → ℕ → ℕ
clamp_timespan timespan actual =
    let raised = if ltb actual (timespan / 4) then timespan / 4 else actual in
    if ltb (mul32 timespan 4) raised then mul32 timespan 4 else raised

module _ ⦃lib : Library⦄ where
  -- The `actual_timespan` that `retarget` scales the target with.
  unfoldable pub actual_timespan : ChainEntry → ChainEntry → ℕ
  unfolding clamp_timespan
  actual_timespan prev first = clamp_timespan lib.diffchange_timespan (sub32 prev.time first.time)

  unfoldable pub retarget : NetworkParams → ChainEntry → ChainEntry → ℕ
  retarget network prev first =
      if network.no_pow_retargeting
      then prev.bits
      else let target =
          lib.u256_div
            (lib.u256_mul (lib.u256_from_compact_target prev.bits) (actual_timespan prev first))
            lib.diffchange_timespan in
        if ltb network.pow_limit target
        then network.pow_limit_bits
        else lib.compact_target_from_u256 target

  -- The loop of the test networks: back to the last block that was not mined at the minimum
  -- difficulty. Each round follows `prev_block`.
  unfoldable pub skip_min_difficulty : ℕ → NetworkParams → ChainDb → ChainEntry → Option ChainEntry
  skip_min_difficulty zero network c prev = none
  skip_min_difficulty (suc fuel) network c prev =
      let rest =
        (get_entry_by_hash c prev.prev_block >>= λ before.
        skip_min_difficulty fuel network c before) in
      if not (nat_beq prev.height 0)
        && not (nat_beq (prev.height % lib.diffchange_interval) 0)
        && nat_beq prev.bits network.pow_limit_bits
      then rest
      else some prev

  -- `get_target` with a block before.
  unfoldable pub get_target_after : NetworkParams → ChainDb → ℕ → ChainEntry → Option ℕ
  get_target_after network c time prev =
      if not (nat_beq (add32 prev.height 1 % lib.diffchange_interval) 0)
      then (if network.allow_min_difficulty_blocks
          then (if ltb (add32 prev.time (mul32 network.pow_target_spacing 2)) time
              then some network.pow_limit_bits
              else (skip_min_difficulty (suc prev.height) network c prev >>= λ found.
                  some found.bits))
          else some prev.bits)
      else do
        assert (leb (lib.diffchange_interval - 1) prev.height)
        first ← get_ancestor c prev (prev.height - (lib.diffchange_interval - 1))
        some (retarget network prev first)

  unfoldable pub get_target : NetworkParams → ChainDb → ℕ → Option ChainEntry → Option ℕ
  unfolding get_target_after
  get_target network c time prev = elim prev [
    | none ↦ some network.pow_limit_bits
    | some entry ↦ get_target_after network c time entry
  ]

  -- With four wanted spans below 2 ^ 32: `retarget` scales by the time that the period took, at
  -- least a quarter and at most four times the wanted span, for times in order; where the last
  -- block of the period has an earlier time than the first, by less than 2 ^ 32 minus four spans,
  -- the u32 wraps and it scales by four spans.
  pub actual_timespan_lem :
      (prev first : ChainEntry)
      → lib.diffchange_timespan * 4 < u32_mod
      → prev.time < u32_mod
      → first.time < u32_mod
      → (first.time ≤ prev.time
          → actual_timespan prev first
            ≡ min
                (lib.diffchange_timespan * 4)
                (max (lib.diffchange_timespan / 4) (prev.time - first.time)))
        × (prev.time < first.time
            → first.time - prev.time < u32_mod - lib.diffchange_timespan * 4
            → actual_timespan prev first ≡ lib.diffchange_timespan * 4)
  unfolding actual_timespan clamp_timespan mul32 sub32
  actual_timespan_lem prev first small hp hf =
      ((λ order. ground arith), (λ order near. ground arith))
