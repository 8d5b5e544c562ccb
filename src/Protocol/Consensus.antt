-- ===== src/Protocol/Consensus.antt =====
-- src/protocol/consensus.rs: the constants, the flags, and the subsidy of a block. A set of bit
-- flags (the crate `bitflags`) is the list of the positions of its bits.
use rust_bitcoin_node.Prelude.{
  ℕ, ◌*◌, ◌/◌, ◌^◌, List, [], ◌∷◌, Bool, contains, nat_eq, leb, if◌then◌else◌,
}

abbrev pub coin : ℕ
coin = 100_000_000

abbrev pub base_reward : ℕ
base_reward = 50 * coin

abbrev pub max_money : ℕ
max_money = 21_000_000 * coin

abbrev pub coinbase_maturity : ℕ
coinbase_maturity = 100

abbrev pub locktime_threshold : ℕ
locktime_threshold = 500_000_000

abbrev pub max_block_sigops_cost : ℕ
max_block_sigops_cost = 80000

abbrev pub max_pubkeys_per_multisig : ℕ
max_pubkeys_per_multisig = 20

abbrev pub witness_v0_keyhash_size : ℕ
witness_v0_keyhash_size = 20

abbrev pub witness_v0_scripthash_size : ℕ
witness_v0_scripthash_size = 32

abbrev pub median_timespan : ℕ
median_timespan = 11

abbrev pub max_future_block_time : ℕ
max_future_block_time = 7200

abbrev pub sequence_granularity : ℕ
sequence_granularity = 9

abbrev pub sequence_disable_flag : ℕ
sequence_disable_flag = 2147483648

abbrev pub sequence_type_flag : ℕ
sequence_type_flag = 4194304

abbrev pub sequence_mask : ℕ
sequence_mask = 0x0000ffff

abbrev pub bip34_implies_bip30_limit : ℕ
bip34_implies_bip30_limit = 1_983_702

abbrev pub Flags : Type 0
Flags = List ℕ

-- `flags.contains(flag)` and `flags |= flag`, for a flag of one bit.
unfoldable pub has_flag : Flags → ℕ → Bool
has_flag flags flag = contains flag flags

abbrev pub add_flag : Flags → ℕ → Flags
add_flag flags flag = flag ∷ flags

abbrev pub verify_p2sh : ℕ
verify_p2sh = 0

abbrev pub verify_dersig : ℕ
verify_dersig = 2

abbrev pub verify_nulldummy : ℕ
verify_nulldummy = 4

abbrev pub verify_checklocktimeverify : ℕ
verify_checklocktimeverify = 9

abbrev pub verify_checksequenceverify : ℕ
verify_checksequenceverify = 10

abbrev pub verify_witness : ℕ
verify_witness = 11

abbrev pub verify_taproot : ℕ
verify_taproot = 17

abbrev pub verify_sequence : ℕ
verify_sequence = 0

abbrev pub median_time_past : ℕ
median_time_past = 1

abbrev pub standard_locktime_flags : Flags
standard_locktime_flags = verify_sequence ∷ median_time_past ∷ []

-- The interval is a field of the network's parameters and never 0 (a division by 0 would panic).
unfoldable pub get_block_subsidy : ℕ → ℕ → ℕ
get_block_subsidy height halving_interval =
    let halvings = height / halving_interval in
    if leb 64 halvings then 0 else base_reward / 2 ^ halvings
