-- ===== src/Protocol/VersionBits.antt =====
-- src/protocol/version_bits.rs: the deployments of BIP 9 and the states that they pass through.
use rust_bitcoin_node.Prelude.{
  ℕ, ◌≡◌, refl, Bool, true, false, Option, none, some, nat_beq, if◌then◌else◌,
}

-- VERSIONBITS_TOP_BITS and VERSIONBITS_TOP_MASK, as bit patterns.
abbrev pub versionbits_top_bits : ℕ
versionbits_top_bits = 0x20000000

abbrev pub versionbits_top_mask : ℕ
versionbits_top_mask = 0xe0000000

pub data ThresholdState : Type 0 where
  defined started locked_in active failed : ThresholdState

pub data StartTime : Type 0 where
  always_active : StartTime
  start_time : ℕ → StartTime

pub data Timeout : Type 0 where
  no_timeout : Timeout
  timeout : ℕ → Timeout

-- The name, a key of the table of deployments, is left out.
pub record Deployment : Type 0 where
  pub bit : ℕ
  pub start_time : StartTime
  pub timeout : Timeout
  pub min_activation_height : ℕ

unfoldable pub is_active : ThresholdState → Bool
is_active active = true
is_active _ = false

unfoldable pub is_started : ThresholdState → Bool
is_started started = true
is_started _ = false

unfoldable pub is_locked_in : ThresholdState → Bool
is_locked_in locked_in = true
is_locked_in _ = false

unfoldable pub is_always_active : Deployment → Bool
is_always_active d = elim d.start_time [ always_active ↦ true | start_time _ ↦ false ]

unfoldable pub has_no_timeout : Deployment → Bool
has_no_timeout d = elim d.timeout [ no_timeout ↦ true | timeout _ ↦ false ]

unfoldable pub threshold_flag : ThresholdState → ℕ
threshold_flag defined = 0
threshold_flag started = 1
threshold_flag locked_in = 2
threshold_flag active = 3
threshold_flag failed = 4

-- `none` is the `unreachable!()` of a flag above 4.
unfoldable pub threshold_of_flag : ℕ → Option ThresholdState
threshold_of_flag flag =
    if nat_beq flag 0
    then some defined
    else if nat_beq flag 1
    then some started
    else if nat_beq flag 2
    then some locked_in
    else if nat_beq flag 3
    then some active
    else if nat_beq flag 4
    then some failed
    else none

-- The flag that a threshold state is stored as is read back as that state.
pub threshold_of_flag-threshold_flag :
    (s : ThresholdState) → threshold_of_flag (threshold_flag s) ≡ some s
unfolding threshold_of_flag threshold_flag
threshold_of_flag-threshold_flag defined = refl
threshold_of_flag-threshold_flag started = refl
threshold_of_flag-threshold_flag locked_in = refl
threshold_of_flag-threshold_flag active = refl
threshold_of_flag-threshold_flag failed = refl
