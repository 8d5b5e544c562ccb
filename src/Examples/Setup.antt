-- ===== src/Examples/Setup.antt =====
-- A small concrete stand-in for the crates' functions, and a database of two blocks.
use rust_bitcoin_node.Prelude.{
  ℕ, ◌+◌, ◌*◌, ◌/◌, Bool, true, false, List, [], ◌∷◌, none, some, map, nat_beq, ◌&&◌,
}
use rust_bitcoin_node.Prelude.Int.{pos}
use rust_bitcoin_node.Bitcoin.{Library, OutPoint, TxIn, Transaction, Block, op}
use rust_bitcoin_node.Coins.{CoinEntry}
use rust_bitcoin_node.Protocol.Network.{NetworkParams, Params, regtest, from_network}
use rust_bitcoin_node.Blockchain.Entry.{ChainEntry}
use rust_bitcoin_node.Blockchain.Db.{ChainDb}
use rust_bitcoin_node.Blockchain.Chain.{Chain, default_deployment_state}

abbrev spends_nothing : List TxIn → Bool
spends_nothing [] = false
spends_nothing (input ∷ inputs) = nat_beq input.previous_output.txid 0

abbrev is_return : List ℕ → Bool
is_return [] = false
is_return (byte ∷ bytes) = nat_beq byte 106

-- A transaction's lock time stands in for its id, and a header's nonce for its hash.
instance abbrev pub small_library : Library
small_library = record {
  txid = λ tx. tx.lock_time;
  is_coin_base = λ tx. spends_nothing tx.input;
  is_null = λ o. nat_beq o.txid 0 && nat_beq o.vout 0xffffffff;
  block_hash = λ h. h.nonce;
  work = λ h. 1;
  is_provably_unspendable = is_return;
  is_p2sh = λ s. false;
  is_witness_program = λ s. false;
  instructions = map op;
  var_int_len = λ n. 1;
  check_merkle_root = λ b. true;
  check_witness_commitment = λ b. true;
  block_weight = λ b. 1000;
  bip34_block_height = λ b. none;
  u256_from_compact_target = λ n. n;
  compact_target_from_u256 = λ n. n;
  u256_add = λ a b. a + b;
  u256_mul = λ a b. a * b;
  u256_div = λ a b. a / b;
  witness_scale_factor = 4;
  max_block_weight = 4000000;
  diffchange_interval = 2016;
  diffchange_timespan = 1209600;
  validate_pow = λ h. true;
  genesis_hash = 10;
  verify_with_flags = λ s v t os i fs. true;
}

abbrev pub outpoint : ℕ → ℕ → OutPoint
outpoint txid vout = record { txid = txid; vout = vout }

-- A coinbase that claims the subsidy and a fee of 10, and a spend of a coin worth 100.
abbrev pub coinbase_tx : Transaction
coinbase_tx = record {
  version = pos 1;
  lock_time = 77;
  input =
      record {
        previous_output = outpoint 0 0xffffffff;
        script_sig = 1 ∷ 2 ∷ [];
        sequence = 0;
        witness = [];
      }
      ∷ [];
  output = record { value = 5_000_000_010; script_pubkey = 172 ∷ [] } ∷ [];
}

abbrev pub spend_tx : Transaction
spend_tx = record {
  version = pos 2;
  lock_time = 78;
  input =
      record { previous_output = outpoint 5 0; script_sig = []; sequence = 1; witness = [] } ∷ [];
  output = record { value = 90; script_pubkey = [] } ∷ [];
}

abbrev pub coin_100 : CoinEntry
coin_100 = record {
  version = pos 1;
  height = some 1;
  coinbase = false;
  output = record { value = 100; script_pubkey = [] };
  spent = false;
}

abbrev pub first_entry : ChainEntry
first_entry = record {
  hash = 10;
  version = pos 4;
  prev_block = 0;
  merkle_root = 0;
  time = 100;
  bits = 7;
  nonce = 10;
  height = 0;
  chainwork = 1;
  skip = 0;
}

abbrev pub second_entry : ChainEntry
second_entry = record {
  hash = 11;
  version = pos 4;
  prev_block = 10;
  merkle_root = 0;
  time = 700;
  bits = 7;
  nonce = 11;
  height = 1;
  chainwork = 2;
  skip = 10;
}

abbrev pub third_entry : ChainEntry
third_entry = record {
  hash = 12;
  version = pos 4;
  prev_block = 11;
  merkle_root = 0;
  time = 1300;
  bits = 7;
  nonce = 12;
  height = 2;
  chainwork = 3;
  skip = 10;
}

abbrev pub third_block : Block
third_block = record {
  header = record {
    version = pos 4;
    prev_blockhash = 11;
    merkle_root = 0;
    time = 1300;
    bits = 7;
    nonce = 12;
  };
  txdata = coinbase_tx ∷ spend_tx ∷ [];
}

abbrev pub small_db : ChainDb
small_db = record {
  entry_cache = record {
    height = (0, 10) ∷ (1, 11) ∷ [];
    hash = (10, first_entry) ∷ (11, second_entry) ∷ [];
    batch = [];
  };
  state = record { tip = 11; tx = 2; coin = 1; value = 100; commited = false };
  db = record {
    entry = (10, first_entry) ∷ (11, second_entry) ∷ [];
    height = (10, 0) ∷ (11, 1) ∷ [];
    hash = (0, 10) ∷ (1, 11) ∷ [];
    coin = (outpoint 5 0, coin_100) ∷ [];
    chain_work = [];
    next_hash = (10, 11) ∷ [];
    next_hashes = (10, 11 ∷ []) ∷ [];
    chain_state = none;
  };
  pending = none;
  invalid = [];
  most_work = some second_entry;
  blocks = record { block = []; undo = [] };
  version_bits_cache = record { bits = 2 ∷ []; states = []; updates = [] };
  downloaded = 10 ∷ 11 ∷ [];
}

abbrev pub small_params : Params
small_params = record {
  pow_limit = 1000;
  bip16_time = 0;
  bip34_height = 100;
  bip65_height = 100;
  bip66_height = 100;
  no_pow_retargeting = true;
  pow_target_spacing = 600;
  allow_min_difficulty_blocks = true;
  rule_change_activation_threshold = 1;
  miner_confirmation_window = 2;
}

abbrev pub small_network : NetworkParams
small_network = from_network small_params regtest

abbrev pub small_chain : Chain
small_chain = record {
  db = small_db;
  tip = second_entry;
  height = 1;
  options = record { network = small_network; verify_scripts = true };
  state = default_deployment_state;
}
