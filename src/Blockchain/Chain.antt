-- ===== src/Blockchain/Chain.antt =====
-- `Chain`, `ChainOptions` and `DeploymentState` of src/blockchain/chain.rs. The listeners and the
-- path of the files are left out.
use rust_bitcoin_node.Prelude.{ℕ, Bool, true, false, List, [], if◌then◌else◌, ◌∷◌}
use rust_bitcoin_node.Bitcoin.{Library, BlockHash}
use rust_bitcoin_node.Protocol.Consensus.{
  Flags, has_flag, verify_p2sh, verify_dersig, verify_checklocktimeverify,
  verify_checksequenceverify, verify_witness, verify_taproot, median_time_past,
}
use rust_bitcoin_node.Protocol.Network.{NetworkParams}
use rust_bitcoin_node.Blockchain.Entry.{ChainEntry}
use rust_bitcoin_node.Blockchain.Db.{ChainDb, is_main_hash, has_invalid, has_block, set_invalid}

pub record DeploymentState : Type 0 where
  pub script_flags : Flags
  pub lock_flags : Flags
  pub bip34 : Bool

-- `DeploymentState::default()`
abbrev pub default_deployment_state : DeploymentState
default_deployment_state = record { script_flags = []; lock_flags = []; bip34 = false }

pub record ChainOptions : Type 0 where
  pub network : NetworkParams
  pub verify_scripts : Bool

pub record Chain : Type 0 where
  pub db : ChainDb
  pub tip : ChainEntry
  pub height : ℕ
  pub options : ChainOptions
  pub state : DeploymentState

unfoldable pub has_p2sh : DeploymentState → Bool
has_p2sh state = has_flag state.script_flags verify_p2sh

unfoldable pub has_bip34 : DeploymentState → Bool
has_bip34 state = state.bip34

unfoldable pub has_bip66 : DeploymentState → Bool
has_bip66 state = has_flag state.script_flags verify_dersig

unfoldable pub has_cltv : DeploymentState → Bool
has_cltv state = has_flag state.script_flags verify_checklocktimeverify

unfoldable pub has_mtp : DeploymentState → Bool
has_mtp state = has_flag state.lock_flags median_time_past

unfoldable pub has_csv : DeploymentState → Bool
has_csv state = has_flag state.script_flags verify_checksequenceverify

unfoldable pub has_segwit : DeploymentState → Bool
has_segwit state = has_flag state.script_flags verify_witness

unfoldable pub has_taproot : DeploymentState → Bool
has_taproot state = has_flag state.script_flags verify_taproot

-- `is_block_ready`
unfoldable pub is_block_ready : Chain → BlockHash → Bool
is_block_ready chain hash = if has_invalid chain.db hash then false else has_block chain.db hash

-- `Chain::has_invalid`: a block on an invalid block becomes invalid.
unfoldable pub inherits_invalid : Chain → BlockHash → BlockHash → Chain × Bool
inherits_invalid chain hash prev =
    if has_invalid chain.db hash
    then (chain, true)
    else if has_invalid chain.db prev
    then (record chain { db = set_invalid chain.db hash }, true)
    else (chain, false)

-- `find_locator`: the first hash of the main chain, or the genesis block's.
unfoldable pub find_locator : ⦃lib : Library⦄ → Chain → List BlockHash → BlockHash
find_locator ⦃lib⦄ chain [] = lib.genesis_hash
find_locator ⦃lib⦄ chain (hash ∷ locator) =
    if is_main_hash chain.db hash then hash else find_locator chain locator
