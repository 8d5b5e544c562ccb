-- ===== src/Blockchain/Deployments.antt =====
-- The states of the deployments, in src/blockchain/chain.rs: `get_deployment_status`,
-- `get_deployments`, `is_deployment_active` and `compute_block_version`. `none` is a panic, or no
-- more fuel.
pub mod Laws
use Prim.Native.String.{String}
use Prim.Native.String
use Prim.Native.Nat.{Ordering}
use rust_bitcoin_node.Prelude.{
  ℕ, zero, suc, ◌+◌, ◌-◌, ◌%◌, ◌^◌, Bool, true, false, List, [], ◌∷◌, ◌++◌, Option, none, some,
  nat_beq, ltb, leb, if◌then◌else◌, ◌||◌, not, bit_or,
}
use rust_bitcoin_node.Prelude.Partial.{◌>>=◌, ◌>>◌, assert}
use rust_bitcoin_node.Prelude.Words.{add32}
use rust_bitcoin_node.Prelude.Words
use rust_bitcoin_node.Prelude.Int.{ℤ}
use rust_bitcoin_node.Protocol.VersionBits.{
  ThresholdState, Deployment, Timeout, defined, started, locked_in, active, failed, is_active,
  is_started, is_locked_in, versionbits_top_bits, always_active, start_time, no_timeout, timeout,
}
use rust_bitcoin_node.Protocol.Consensus.{
  Flags, add_flag, verify_p2sh, verify_dersig, verify_checklocktimeverify,
  verify_checksequenceverify, verify_sequence, median_time_past, verify_witness, verify_nulldummy,
  verify_taproot,
}
use rust_bitcoin_node.Protocol.Network.{NetworkParams}
use rust_bitcoin_node.Blockchain.Entry.{ChainEntry, has_bit}
use rust_bitcoin_node.Blockchain.VersionBitsCache
use rust_bitcoin_node.Blockchain.Db.{ChainDb, get_entry_by_hash}
use rust_bitcoin_node.Blockchain.Ancestor.{get_ancestor}
use rust_bitcoin_node.Blockchain.Time.{get_median_time}
use rust_bitcoin_node.Blockchain.Chain.{DeploymentState, default_deployment_state}

-- `version_bits_cache.set`, on the database.
unfoldable pub cache_status : ChainDb → ℕ → ChainEntry → ThresholdState → Option ChainDb
cache_status c bit entry state =
    VersionBitsCache.set c.version_bits_cache bit entry.hash state >>= λ cache.
    some (record c { version_bits_cache = cache })

-- The guard `Timeout::Timeout(timeout) if time >= timeout`.
unfoldable pub is_timed_out : Timeout → ℕ → Bool
is_timed_out no_timeout time = false
is_timed_out (timeout end) time = leb end time

-- The loop over the blocks of a window, with the count so far: whether enough of them set the bit.
-- A block that is not the last to count has to have a block before it.
unfoldable pub reaches_threshold : ℕ → ChainDb → ℕ → ℕ → ℕ → ChainEntry → Option Bool
reaches_threshold zero c bit threshold count block = some false
reaches_threshold (suc rounds) c bit threshold count block =
    let count' = if has_bit block bit then suc count else count in
    let rest =
      (get_entry_by_hash c block.prev_block >>= λ prev.
      reaches_threshold rounds c bit threshold count' prev) in
    if leb threshold count' then some true else rest

-- The body of the loop `for entry in compute`: the next state.
unfoldable pub next_status :
    NetworkParams → ChainDb → Deployment → ℕ → ThresholdState → ChainEntry → Option ThresholdState
next_status network c deployment start defined entry = do
  time ← get_median_time c entry
  some (
      if is_timed_out deployment.timeout time
      then failed
      else if leb start time
      then started
      else defined)
next_status network c deployment start started entry = do
  time ← get_median_time c entry
  (if is_timed_out deployment.timeout time then some failed else do
    reached ←
        reaches_threshold network.miner_confirmation_window c deployment.bit
          network.rule_change_activation_threshold 0 entry
    some (if reached then locked_in else started))
next_status network c deployment start locked_in entry =
    some (if leb deployment.min_activation_height entry.height then active else locked_in)
next_status network c deployment start failed entry = some failed
next_status network c deployment start active entry = some active

-- The loop `for entry in compute`.
unfoldable pub run_status :
    NetworkParams
    → Deployment
    → ℕ
    → List ChainEntry
    → ChainDb
    → ThresholdState
    → Option (ChainDb × ThresholdState)
run_status network deployment start [] c state = some (c, state)
run_status network deployment start (entry ∷ compute) c state = do
  state' ← next_status network c deployment start state entry
  c' ← cache_status c deployment.bit entry state'
  run_status network deployment start compute c' state'

-- The first loop: back by windows to a state that is known. It gives the entries in the order in
-- which they are pushed. Each round lowers the height, so one more than it is fuel enough.
unfoldable pub collect :
    ℕ
    → NetworkParams
    → Deployment
    → ℕ
    → ChainDb
    → ChainEntry
    → Option (ChainDb × ThresholdState × List ChainEntry)
collect zero network deployment start c entry = none
collect (suc fuel) network deployment start c entry =
    let window = network.miner_confirmation_window in
    let rest =
      (get_ancestor c entry (entry.height - window) >>= λ earlier.
      collect fuel network deployment start c earlier) in
    VersionBitsCache.get c.version_bits_cache deployment.bit entry.hash >>= λ found. elim found [
      | some state ↦ some (c, state, [])
      | none ↦ get_median_time c entry >>= λ time.
          if ltb time start
          then (cache_status c deployment.bit entry defined >>= λ c'. some (c', defined, []))
          else if ltb entry.height window
          then some (c, defined, entry ∷ [])
          else (rest >>= λ found. some (found.0, found.1, entry ∷ found.2))
    ]

-- The last block of the period before: the outer `none` is a panic (a window of no blocks is one
-- too), the inner one says that there is none.
unfoldable pub period_end : NetworkParams → ChainDb → ChainEntry → Option (Option ChainEntry)
period_end network c prev =
    let window = network.miner_confirmation_window in
    let past = add32 prev.height 1 % window in
    assert (not (nat_beq window 0))
    >> (if nat_beq past 0 then some (some prev) else if ltb prev.height past then some none else do
      found ← get_ancestor c prev (prev.height - past)
      assert (nat_beq found.height (prev.height - past))
      assert (nat_beq (add32 found.height 1 % window) 0)
      some (some found))

-- From the end of a period.
unfoldable pub status_at :
    NetworkParams → ChainDb → ChainEntry → Deployment → ℕ → Option (ChainDb × ThresholdState)
status_at network c entry deployment start = do
  collected ← collect (suc entry.height) network deployment start c entry
  run_status network deployment start collected.2 collected.0 collected.1

unfoldable pub status_after :
    NetworkParams → ChainDb → ChainEntry → Deployment → ℕ → Option (ChainDb × ThresholdState)
unfolding period_end
status_after network c prev deployment start = period_end network c prev >>= λ end. elim end [
  | none ↦ some (c, defined)
  | some entry ↦ status_at network c entry deployment start
]

unfoldable pub get_deployment_status :
    NetworkParams → ChainDb → Option ChainEntry → Deployment → Option (ChainDb × ThresholdState)
get_deployment_status network c prev deployment = elim prev [
  | none ↦ some (c, defined)
  | some entry ↦ elim deployment.start_time [
    | always_active ↦ some (c, active)
    | start_time start ↦ status_after network c entry deployment start
  ]
]

unfoldable pub is_deployment_active :
    NetworkParams → ChainDb → ChainEntry → Deployment → Option (ChainDb × Bool)
is_deployment_active network c prev deployment = do
  found ← get_deployment_status network c (some prev) deployment
  some (found.0, is_active found.1)

abbrev string_beq : String → String → Bool
string_beq a b = elim (String.compare a b) [ Ordering.eq ↦ true | _ ↦ false ]

-- `deployments[name]`; `none` is the panic of a missing key.
unfoldable pub find_deployment : String → List (String × Deployment) → Option Deployment
find_deployment name [] = none
find_deployment name ((key, deployment) ∷ ds) =
    if string_beq key name then some deployment else find_deployment name ds

-- `if test { flags |= more }`
abbrev flags_if : Bool → Flags → Flags → Flags
flags_if test more flags = if test then more ++ flags else flags

-- The flags that `get_deployments` sets by time and height, then by the deployment of Taproot.
unfoldable pub buried_state : NetworkParams → ℕ → ℕ → DeploymentState
buried_state network time height = record {
  script_flags =
      flags_if (leb network.segwit_height height) (verify_nulldummy ∷ verify_witness ∷ []) (
        flags_if (leb network.csv_height height) (verify_checksequenceverify ∷ []) (
          flags_if (leb network.bip65_height height) (verify_checklocktimeverify ∷ []) (
            flags_if (leb network.bip66_height height) (verify_dersig ∷ [])
              (flags_if (leb network.bip16_time time) (verify_p2sh ∷ []) []))));
  lock_flags =
      if leb network.csv_height height then median_time_past ∷ verify_sequence ∷ [] else [];
  bip34 = leb network.bip34_height height;
}

unfoldable pub get_deployments :
    NetworkParams → ChainDb → ℕ → ChainEntry → Option (ChainDb × DeploymentState)
unfolding buried_state
get_deployments network c time prev = do
  taproot ← find_deployment "taproot" network.deployments
  let state = buried_state network time (add32 prev.height 1)
  found ← is_deployment_active network c prev taproot
  some (
    found.0,
    (if found.1
        then record state { script_flags = add_flag state.script_flags verify_taproot }
        else state),
  )

-- The loop of `compute_block_version`; the version is an i32, here its bit pattern. `1 << bit` keeps
-- the low five bits of the shift.
unfoldable pub version_bits :
    NetworkParams → List (String × Deployment) → ChainDb → ChainEntry → ℕ → Option (ChainDb × ℕ)
version_bits network [] c prev version = some (c, version)
version_bits network ((name, deployment) ∷ ds) c prev version = do
  found ← get_deployment_status network c (some prev) deployment
  version_bits network ds found.0 prev (
      if is_locked_in found.1 || is_started found.1
      then bit_or version (2 ^ (deployment.bit % 32))
      else version)

unfoldable pub compute_block_version : NetworkParams → ChainDb → ChainEntry → Option (ChainDb × ℕ)
compute_block_version network c prev = do
  found ← version_bits network network.deployments c prev 0
  some (found.0, bit_or found.1 versionbits_top_bits)
