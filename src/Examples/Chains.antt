-- ===== src/Examples/Chains.antt =====
-- Ancestors, median times, and deployments, on the database of two blocks.
use rust_bitcoin_node.Prelude.{
  ℕ, zero, suc, ◌+◌, ◌-◌, ◌*◌, ◌≤◌, ◌<◌, ◌^◌, ◌≡◌, ◌≢◌, ◌↔◌, refl, Bool, true, false, List, [], ◌∷◌,
  Option, none, some, arith, length, lookup, contains, nat_eq,
}
use rust_bitcoin_node.Protocol.Consensus.{median_timespan}
use rust_bitcoin_node.Protocol.VersionBits.{Deployment, failed, start_time, timeout}
use rust_bitcoin_node.Protocol.Network.{deployment}
use rust_bitcoin_node.Blockchain.Entry.{ChainEntry}
use rust_bitcoin_node.Blockchain.Db.{ChainDb, get_entry_by_hash}
use rust_bitcoin_node.Blockchain.VersionBitsCache.{bit_key_eq}
use rust_bitcoin_node.Blockchain.Ancestor.{get_ancestor}
use rust_bitcoin_node.Blockchain.Ancestor.Laws.{IsLinked, IsKnown, back, get_ancestor-back}
use rust_bitcoin_node.Blockchain.Skip.{get_skip_height}
use rust_bitcoin_node.Blockchain.Time.{
  times, get_median_time, get_median_time_lem, count_le, count_ge,
}
use rust_bitcoin_node.Blockchain.Deployments.{
  is_timed_out, reaches_threshold, get_deployment_status,
}
use rust_bitcoin_node.Blockchain.Deployments.Laws.{
  signals, reaches_threshold_lem, get_deployment_status-failed,
}
use rust_bitcoin_node.Examples.Setup.{
  small_library, first_entry, second_entry, small_db, small_network,
}

is_second : (e : ChainEntry) → IsKnown small_db e → 0 < e.height → e ≡ second_entry
unfolding get_entry_by_hash lookup
is_second e known high = ground arith

small_db-IsLinked : IsLinked small_db
unfolding get_entry_by_hash lookup back get_skip_height
small_db-IsLinked = record {
  own_hash = λ h e found. ground arith;
  in_range = λ e known. ground arith;
  parent = λ e known high. rw (is_second e known high) (first_entry, refl, refl);
  skips = λ e known high skips. rw (is_second e known high) (first_entry, refl, refl);
  main_below = λ e known high main. rw (is_second e known high) refl;
}

small_db-IsKnown : IsKnown small_db second_entry
unfolding get_entry_by_hash lookup
small_db-IsKnown = refl

get_ancestor-back_example :
    (r : ChainEntry) × (get_ancestor small_db second_entry 0 ≡ some r)
    × (back small_db 1 second_entry ≡ some r)
    × (r.height ≡ 0)
get_ancestor-back_example =
    get_ancestor-back small_db small_db-IsLinked second_entry 0 small_db-IsKnown (omega arith)

get_median_time_lem_example :
    let ts = times median_timespan small_db (some second_entry) in
    (m : ℕ) × (get_median_time small_db second_entry ≡ some m)
    × (length ts < 2 * count_le m ts)
    × (length ts ≤ 2 * count_ge m ts)
get_median_time_lem_example = get_median_time_lem small_db second_entry

reaches_threshold_lem_example :
    (reaches_threshold 2 small_db 2 1 0 second_entry ≡ some true)
    ↔ (1 ≤ 0 + signals 2 small_db 2 second_entry)
reaches_threshold_lem_example = reaches_threshold_lem 2 small_db 2 1 0 second_entry (omega arith)

abbrev timed_deployment : Deployment
timed_deployment = deployment 2 (start_time 50) (timeout 600) 0

get_deployment_status-failed_example :
    (d : ChainDb) × (get_deployment_status small_network small_db
        (some second_entry)
        timed_deployment
      ≡ some (d, failed))
unfolding rust_bitcoin_node.Protocol.Network.from_network lookup contains
    rust_bitcoin_node.Prelude.Words.add32 get_median_time get_entry_by_hash is_timed_out
get_deployment_status-failed_example =
    get_deployment_status-failed small_network timed_deployment 50 small_db second_entry 700
      small_db-IsLinked small_db-IsKnown (omega arith) (λ h. refl) refl refl refl refl (omega arith)
      refl
