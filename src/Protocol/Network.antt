-- ===== src/Protocol/Network.antt =====
-- src/protocol/network.rs: the parameters of a network. `Params` are those of the crate `bitcoin`.
-- The DNS seeds and the shared clock (`TimeData`) are left out; a deployment's name is its key.
use Prim.Native.String.{String}
use rust_bitcoin_node.Prelude.{ℕ, ◌*◌, Bool, List, [], ◌∷◌}
use rust_bitcoin_node.Bitcoin.{Library, BlockHash}
use rust_bitcoin_node.Protocol.VersionBits.{
  Deployment, StartTime, Timeout, always_active, start_time, no_timeout, timeout,
}

pub data Network : Type 0 where
  bitcoin testnet regtest signet : Network

pub record Params : Type 0 where
  pub pow_limit : ℕ
  pub bip16_time : ℕ
  pub bip34_height : ℕ
  pub bip65_height : ℕ
  pub bip66_height : ℕ
  pub no_pow_retargeting : Bool
  pub pow_target_spacing : ℕ
  pub allow_min_difficulty_blocks : Bool
  pub rule_change_activation_threshold : ℕ
  pub miner_confirmation_window : ℕ

pub record NetworkParams : Type 0 where
  pub network : Network
  pub last_checkpoint : ℕ
  pub halving_interval : ℕ
  pub pow_limit : ℕ
  pub pow_limit_bits : ℕ
  pub bip16_time : ℕ
  pub bip34_height : ℕ
  pub bip65_height : ℕ
  pub bip66_height : ℕ
  pub segwit_height : ℕ
  pub csv_height : ℕ
  pub no_pow_retargeting : Bool
  pub p2p_port : ℕ
  pub allow_min_difficulty_blocks : Bool
  pub pow_target_spacing : ℕ
  pub max_tip_age : ℕ
  pub deployments : List (String × Deployment)
  pub rule_change_activation_threshold : ℕ
  pub miner_confirmation_window : ℕ
  pub bip30 : List (ℕ × BlockHash)
  pub expected_tx_count : ℕ
  pub expected_tx_height : ℕ

-- `Deployment::new`
abbrev pub deployment : ℕ → StartTime → Timeout → ℕ → Deployment
deployment bit start end height = record {
  bit = bit;
  start_time = start;
  timeout = end;
  min_activation_height = height;
}

-- The fields that every network takes from `Params`, and those that it sets alike.
abbrev base_params : ⦃lib : Library⦄ → Network → Params → NetworkParams
base_params ⦃lib⦄ network p = record {
  network = network;
  last_checkpoint = 0;
  halving_interval = 210_000;
  pow_limit = p.pow_limit;
  pow_limit_bits = lib.compact_target_from_u256 p.pow_limit;
  bip16_time = p.bip16_time;
  bip34_height = p.bip34_height;
  bip65_height = p.bip65_height;
  bip66_height = p.bip66_height;
  segwit_height = 0;
  csv_height = 432;
  no_pow_retargeting = p.no_pow_retargeting;
  p2p_port = 48444;
  allow_min_difficulty_blocks = p.allow_min_difficulty_blocks;
  pow_target_spacing = p.pow_target_spacing;
  max_tip_age = 0xffffffff;
  deployments =
      ("taproot", deployment 2 always_active no_timeout 0)
      ∷ ("ctv", deployment 5 always_active no_timeout 0)
      ∷ ("dummy", deployment 28 (start_time 0) no_timeout 0)
      ∷ [];
  rule_change_activation_threshold = p.rule_change_activation_threshold;
  miner_confirmation_window = p.miner_confirmation_window;
  bip30 = [];
  expected_tx_count = 0;
  expected_tx_height = 0;
}

module _ ⦃lib : Library⦄ where
  -- `params` is `Params::new(network)`.
  unfoldable pub from_network : Params → Network → NetworkParams
  from_network params bitcoin = record (base_params bitcoin params) {
    last_checkpoint = 525_000;
    segwit_height = 481824;
    csv_height = 419328;
    p2p_port = 8333;
    max_tip_age = 24 * 60 * 60;
    deployments =
        ("taproot", deployment 2 (start_time 1619222400) (timeout 1628640000) 709_632)
        ∷ ("dummy", deployment 28 (start_time 1199145601) (timeout 1230767999) 0)
        ∷ [];
    rule_change_activation_threshold = 1815;
    bip30 =
        (91842, 0x00000000000a4d0a398161ffc163c503763b1f4360639393e0e4c8e300e0caec)
        ∷ (91880, 0x00000000000743f190a18c5577a3c2d2a1f610ae9601ac046a38084ccb7cd721)
        ∷ [];
    expected_tx_count = 590_390_085;
    expected_tx_height = 658_680;
  }
  from_network params testnet = record (base_params testnet params) {
    segwit_height = 834624;
    csv_height = 770112;
    p2p_port = 18333;
    max_tip_age = 24 * 60 * 60;
    deployments =
        ("taproot", deployment 2 (start_time 1619222400) (timeout 1628640000) 0)
        ∷ ("dummy", deployment 28 (start_time 1199145601) (timeout 1230767999) 0)
        ∷ [];
    expected_tx_count = 58_401_978;
    expected_tx_height = 1_894_693;
  }
  from_network params regtest = base_params regtest params
  from_network params signet = record (base_params signet params) {
    rule_change_activation_threshold = 1815;
  }
