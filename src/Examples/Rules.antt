-- ===== src/Examples/Rules.antt =====
-- The rules of the protocol: money, time, difficulty, and the states of a deployment.
use rust_bitcoin_node.Prelude.{
  ◌*◌, ◌/◌, ◌-◌, ◌≤◌, ◌<◌, ◌≡◌, refl, ◌^◌, some, none, false, arith, min, max, [], ◌∷◌, contains,
  nat_eq,
}
use rust_bitcoin_node.Prelude.Words.{u32_mod}
use rust_bitcoin_node.Prelude.Int.{pos, negsuc}
use rust_bitcoin_node.Protocol.Consensus.{max_money}
use rust_bitcoin_node.Protocol.Subsidy.{issued, issued-le-max_money}
use rust_bitcoin_node.Protocol.TimeData.{
  TimeData, default_time_data, add_time_data, get_adjusted_time, median, input, sort, insert_sorted,
}
use rust_bitcoin_node.Protocol.TimeData.Laws.{
  IsValid, add_time_data-IsValid, add_time_data-least, default-IsValid,
}
use rust_bitcoin_node.Protocol.VersionBits.{
  locked_in, threshold_flag, threshold_of_flag, threshold_of_flag-threshold_flag,
}
use rust_bitcoin_node.Blockchain.Difficulty.{actual_timespan, actual_timespan_lem}
use rust_bitcoin_node.Examples.Setup.{small_library, first_entry, second_entry}

issued-le-max_money_example : issued 210_000 3 ≤ max_money
issued-le-max_money_example = issued-le-max_money 210_000 3 (omega arith) (omega arith)

add_time_data-IsValid_example :
    (t' : TimeData) × (add_time_data default_time_data 7 (negsuc 30) ≡ some t') × IsValid t'
add_time_data-IsValid_example =
    add_time_data-IsValid default_time_data 7 (negsuc 30) default-IsValid (omega arith)

-- Three peers have reported the least i64.
abbrev least_time_data : TimeData
least_time_data = record {
  offset = pos 0;
  samples = negsuc (2 ^ 63 - 1) ∷ negsuc (2 ^ 63 - 1) ∷ negsuc (2 ^ 63 - 1) ∷ pos 0 ∷ [];
  known = 1 ∷ 2 ∷ 3 ∷ [];
}

least_time_data-new : contains 7 least_time_data.known ≡ false
unfolding contains
least_time_data-new = refl

least_time_data-middle : median (input least_time_data (pos 5)) ≡ some (negsuc (2 ^ 63 - 1))
unfolding median input sort insert_sorted
least_time_data-middle = refl

add_time_data-least_example :
    (t' : TimeData) × (add_time_data least_time_data 7 (pos 5) ≡ some t')
    × (t'.offset ≡ negsuc (2 ^ 63 - 1))
    × (get_adjusted_time t' 1_700_000_000 ≡ none)
add_time_data-least_example =
    add_time_data-least least_time_data 7 (pos 5) 1_700_000_000 (omega arith) least_time_data-new
      (omega arith) refl least_time_data-middle (omega arith)

threshold_of_flag-threshold_flag_example :
    threshold_of_flag (threshold_flag locked_in) ≡ some locked_in
threshold_of_flag-threshold_flag_example = threshold_of_flag-threshold_flag locked_in

actual_timespan_lem_example :
    (second_entry.time ≤ first_entry.time
      → actual_timespan first_entry second_entry
        ≡ min (1209600 * 4) (max (1209600 / 4) (first_entry.time - second_entry.time)))
    × (first_entry.time < second_entry.time
        → second_entry.time - first_entry.time < u32_mod - 1209600 * 4
        → actual_timespan first_entry second_entry ≡ 1209600 * 4)
actual_timespan_lem_example =
    actual_timespan_lem first_entry second_entry (omega arith) (omega arith) (omega arith)
