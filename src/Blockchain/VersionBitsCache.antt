-- ===== src/Blockchain/VersionBitsCache.antt =====
-- `VersionBitsCache` of src/blockchain/chain_db.rs: the states of the deployments at blocks, with
-- the list of what was set since the last commit. The table of the source, a map of maps by bit and
-- hash, is one map by the pair; `bits` are its outer keys.
use rust_bitcoin_node.Prelude.{
  ℕ, ◌≡◌, ◌↔◌, ◌&&◌, Bool, true, false, List, [], ◌∷◌, Option, none, some, Eq, insert, remove,
  lookup, nat_beq, nat_beq_iff, arith, nat_eq, contains, if◌then◌else◌,
}
use rust_bitcoin_node.Bitcoin.{BlockHash}
use rust_bitcoin_node.Protocol.VersionBits.{ThresholdState, threshold_flag}

pub record BitKey : Type 0 where
  pub bit : ℕ
  pub hash : BlockHash

abbrev pub bit_key_beq : BitKey → BitKey → Bool
bit_key_beq a b = nat_beq a.bit b.bit && nat_beq a.hash b.hash

pub bit_key_beq_iff : (a b : BitKey) → (bit_key_beq a b ≡ true) ↔ (a ≡ b)
bit_key_beq_iff a b = ground (arith, nat_beq_iff a.bit b.bit, nat_beq_iff a.hash b.hash)

instance abbrev pub bit_key_eq : Eq BitKey
bit_key_eq = record { decides = bit_key_beq_iff; equals = bit_key_beq }

-- The derived equality of `ThresholdState`.
abbrev pub state_beq : ThresholdState → ThresholdState → Bool
state_beq a b = nat_beq (threshold_flag a) (threshold_flag b)

pub record VersionBitsCache : Type 0 where
  pub bits : List ℕ
  pub states : List (BitKey × ThresholdState)
  pub updates : List BitKey

-- `VersionBitsCache::new`, on the deployments' bits; `none` is the failed assertion on a bit that
-- two deployments share.
unfoldable pub new_bits : List ℕ → List ℕ → Option (List ℕ)
new_bits [] seen = some seen
new_bits (bit ∷ bits) seen = if contains bit seen then none else new_bits bits (bit ∷ seen)

unfoldable pub new : List ℕ → Option VersionBitsCache
unfolding new_bits
new bits = elim (new_bits bits []) [
  | none ↦ none
  | some seen ↦ some (record { bits = seen; states = []; updates = [] })
]

-- `get`; the outer `none` is the panic "unknown deployment bit".
unfoldable pub get : VersionBitsCache → ℕ → BlockHash → Option (Option ThresholdState)
get cache bit hash =
    if contains bit cache.bits
    then some (lookup (record { bit = bit; hash = hash }) cache.states)
    else none

abbrev pub set_key : VersionBitsCache → BitKey → ThresholdState → VersionBitsCache
set_key cache key state = record cache {
  states = insert key state cache.states;
  updates = key ∷ cache.updates;
}

-- Whether `set` has to write.
abbrev pub is_stale : Option ThresholdState → ThresholdState → Bool
is_stale none state = true
is_stale (some cached) state = if state_beq cached state then false else true

unfoldable pub set : VersionBitsCache → ℕ → BlockHash → ThresholdState → Option VersionBitsCache
set cache bit hash state =
    let key : BitKey = record { bit = bit; hash = hash } in
    if contains bit cache.bits
    then some (if is_stale (lookup key cache.states) state then set_key cache key state else cache)
    else none

unfoldable pub commit : VersionBitsCache → VersionBitsCache
commit cache = record cache { updates = [] }

unfoldable pub remove_updates :
    List BitKey → List (BitKey × ThresholdState) → List (BitKey × ThresholdState)
remove_updates [] states = states
remove_updates (key ∷ keys) states = remove_updates keys (remove key states)

-- `drop`
unfoldable pub drop_updates : VersionBitsCache → VersionBitsCache
unfolding remove_updates
drop_updates cache = record cache {
  states = remove_updates cache.updates cache.states;
  updates = [];
}
