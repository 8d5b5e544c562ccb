-- ===== src/Protocol/TimeData.antt =====
-- src/protocol/timedata.rs: the offset of the network's time, the median of what peers report. An
-- address is a number; an i64 is an integer, and what is computed of it wraps.
pub mod Laws
use rust_bitcoin_node.Prelude.{
  ℕ, suc, ◌+◌, ◌-◌, ◌*◌, ◌/◌, ◌%◌, ◌≤◌, List, [], ◌∷◌, ◌++◌, Option, none, some, Bool, true, false,
  ◌&&◌, length, get_elem?, nat_beq, leb, contains, nat_eq, if◌then◌else◌,
}
use rust_bitcoin_node.Prelude.Partial.{◌>>=◌, ◌>>◌, assert}
use rust_bitcoin_node.Prelude.Int.{ℤ, pos, negsuc, ◌+ℤ◌, leb_ℤ, abs}
use rust_bitcoin_node.Prelude.Words.{wrap_i64}

pub record TimeData : Type 0 where
  pub offset : ℤ
  pub samples : List ℤ
  pub known : List ℕ

abbrev pub max_samples : ℕ
max_samples = 200

abbrev pub max_time_adjustment : ℕ
max_time_adjustment = 70 * 60

-- `TimeData::default()`
abbrev pub default_time_data : TimeData
default_time_data = record { offset = pos 0; samples = pos 0 ∷ []; known = [] }

-- `push` and then `sort`: a stable insertion into a sorted list, from the back.
unfoldable pub insert_sorted : ℤ → List ℤ → List ℤ
insert_sorted x [] = x ∷ []
insert_sorted x (y ∷ ys) = if leb_ℤ y x then y ∷ insert_sorted x ys else x ∷ y ∷ ys

-- `sort`, by insertion.
unfoldable pub sort : List ℤ → List ℤ
unfolding insert_sorted
sort [] = []
sort (x ∷ xs) = insert_sorted x (sort xs)

-- `input`
unfoldable pub input : TimeData → ℤ → TimeData
unfolding sort
input t sample = record t { samples = sort (t.samples ++ sample ∷ []) }

-- i64 division by 2, towards 0.
abbrev pub half : ℤ → ℤ
half (pos n) = pos (n / 2)
half (negsuc n) = if leb 1 n then negsuc (suc n / 2 - 1) else pos 0

-- `median`; `none` is an index out of bounds.
unfoldable pub median : TimeData → Option ℤ
median t =
    let len = length t.samples in
    if nat_beq (len % 2) 1
    then get_elem? t.samples (len / 2)
    else (get_elem? t.samples (len / 2 - 1) >>= λ a.
        get_elem? t.samples (len / 2) >>= λ b. some (half (wrap_i64 (a +ℤ b))))

-- The offset that a median sets. `abs` wraps: it gives the least i64 for the least i64.
unfoldable pub offset_of : ℤ → ℤ
offset_of m = if leb_ℤ (wrap_i64 (pos (abs m))) (pos max_time_adjustment) then m else pos 0

-- The last part of `add_time_data`, after the sample was put in.
unfoldable pub update_offset : TimeData → Option TimeData
unfolding median offset_of
update_offset t =
    if leb 5 (length t.samples) && nat_beq (length t.samples % 2) 1
    then (median t >>= λ m. some (record t { offset = offset_of m }))
    else some t

unfoldable pub add_time_data : TimeData → ℕ → ℤ → Option TimeData
unfolding input update_offset
add_time_data t addr offset =
    if nat_beq (length t.samples) max_samples
    then some t
    else if contains addr t.known
    then some t
    else update_offset (input (record t { known = addr ∷ t.known }) offset)

-- `get_adjusted_time`, at the clock's time; `none` is the failed assertion.
unfoldable pub get_adjusted_time : TimeData → ℕ → Option ℕ
get_adjusted_time t now = elim (wrap_i64 (pos now +ℤ t.offset)) [ pos n ↦ some n | negsuc _ ↦ none ]
