-- ===== src/Protocol/TimeData/Laws.antt =====
-- The samples of `TimeData` stay few and sorted, and the offset stays within 70 minutes.
use mathlib.Core.Path.{subst}
use rust_bitcoin_node.Prelude.{
  ℕ, zero, suc, ◌/◌, ◌≤◌, ◌<◌, ◌≡◌, refl, ap, List, [], ◌∷◌, ◌++◌, some, length, length-append,
  get_elem?, arith, Bool-cases, inl, inr, nat_beq, nat_beq_iff, contains, nat_eq, All, All-append,
  ◌^◌, ◌%◌, ◌-◌, false, true, ◌∙◌, ◌&&◌, leb, none,
}
use rust_bitcoin_node.Prelude.Int.{ℤ, pos, negsuc, ◌≤ℤ◌, ◌+ℤ◌, abs}
use rust_bitcoin_node.Prelude.Words.{wrap_i64}
use rust_bitcoin_node.Protocol.TimeData.{
  TimeData, max_samples, max_time_adjustment, default_time_data, insert_sorted, sort, input,
  update_offset, add_time_data, offset_of, median, get_adjusted_time,
}

-- Each sample is at most the next.
abbrev pub IsSorted : List ℤ → Type 0
IsSorted [] = Unit
IsSorted (x ∷ []) = Unit
IsSorted (x ∷ y ∷ ys) = (x ≤ℤ y) × IsSorted (y ∷ ys)

insert_sorted-IsSorted : (x : ℤ) (xs : List ℤ) → IsSorted xs → IsSorted (insert_sorted x xs)
unfolding insert_sorted
insert_sorted-IsSorted x [] h = tt
insert_sorted-IsSorted x (y ∷ []) h = ground arith
insert_sorted-IsSorted x (y ∷ z ∷ zs) h = ground (arith, insert_sorted-IsSorted x (z ∷ zs) h.1)

sort-IsSorted : (xs : List ℤ) → IsSorted (sort xs)
unfolding sort
sort-IsSorted [] = tt
sort-IsSorted (x ∷ xs) = insert_sorted-IsSorted x (sort xs) (sort-IsSorted xs)

length-insert_sorted : (x : ℤ) (xs : List ℤ) → length (insert_sorted x xs) ≡ suc (length xs)
unfolding insert_sorted
length-insert_sorted x [] = refl
length-insert_sorted x (y ∷ ys) = ground (arith, length-insert_sorted x ys)

length-sort : (xs : List ℤ) → length (sort xs) ≡ length xs
unfolding sort
length-sort [] = refl
length-sort (x ∷ xs) = omega (arith, length-insert_sorted x (sort xs), length-sort xs)

get_elem?-lt {ℓ} :
    {A : Type ℓ} (xs : List A) (i : ℕ) → i < length xs → (a : A) × (get_elem? xs i ≡ some a)
get_elem?-lt [] i h = elim h [ ]
get_elem?-lt (x ∷ xs) zero h = (x, refl)
get_elem?-lt (x ∷ xs) (suc i) h = get_elem?-lt xs i (omega arith)

get_elem?-All :
    (P : ℤ → Type 0) (xs : List ℤ) (i : ℕ) (a : ℤ) → All P xs → get_elem? xs i ≡ some a → P a
get_elem?-All P [] i a h e = absurd (cc)
get_elem?-All P (x ∷ xs) zero a h e = subst P (ground arith) h.0
get_elem?-All P (x ∷ xs) (suc i) a h e = get_elem?-All P xs i a h.1 e

insert_sorted-All :
    (P : ℤ → Type 0) (x : ℤ) (xs : List ℤ) → P x → All P xs → All P (insert_sorted x xs)
unfolding insert_sorted
insert_sorted-All P x [] here there = (here, tt)
insert_sorted-All P x (y ∷ ys) here there = ground (arith, insert_sorted-All P x ys here there.1)

sort-All : (P : ℤ → Type 0) (xs : List ℤ) → All P xs → All P (sort xs)
unfolding sort
sort-All P [] h = tt
sort-All P (x ∷ xs) h = insert_sorted-All P x (sort xs) h.0 (sort-All P xs h.1)

-- Above the least i64, whose absolute value is no i64.
abbrev pub HasAbs : ℤ → Type 0
HasAbs sample = abs sample < 2 ^ 63

offset_of-near : (m : ℤ) → HasAbs m → abs (offset_of m) ≤ max_time_adjustment
unfolding offset_of wrap_i64
offset_of-near (pos n) h = ground arith
offset_of-near (negsuc n) h = ground arith

pub record IsValid (t : TimeData) : Type 0 where
  pub sorted : IsSorted t.samples
  pub few : length t.samples ≤ max_samples
  pub proper : All HasAbs t.samples
  pub near : abs t.offset ≤ max_time_adjustment

pub default-IsValid : IsValid default_time_data
default-IsValid = omega arith

input_lem :
    (t : TimeData) (sample : ℤ)
    → (length (input t sample).samples ≡ suc (length t.samples))
      × IsSorted (input t sample).samples
      × (All HasAbs t.samples → HasAbs sample → All HasAbs (input t sample).samples)
      × ((input t sample).offset ≡ t.offset)
unfolding input
input_lem t sample = (
  omega (arith, length-sort (t.samples ++ sample ∷ []), length-append t.samples (sample ∷ [])),
  sort-IsSorted (t.samples ++ sample ∷ []),
  λ old new.
      sort-All HasAbs (t.samples ++ sample ∷ [])
        (All-append HasAbs t.samples (sample ∷ []) old (new, tt)),
  refl,
)

median-odd :
    (t : TimeData)
    → nat_beq (length t.samples % 2) 1 ≡ true
    → median t ≡ get_elem? t.samples (length t.samples / 2)
unfolding median
median-odd t odd = rw odd refl

update_offset-IsValid :
    (t : TimeData) → IsValid t → (t' : TimeData) × (update_offset t ≡ some t') × IsValid t'
unfolding update_offset
update_offset-IsValid t v =
    elim (Bool-cases (leb 5 (length t.samples) && nat_beq (length t.samples % 2) 1)) [
      | inr early ↦ (t, rw early refl, v)
      | inl odd ↦
          let (m, found) = get_elem?-lt t.samples (length t.samples / 2) (ground (arith, odd)) in
          let has_abs = get_elem?-All HasAbs t.samples (length t.samples / 2) m v.proper found in
          let middle : median t ≡ some m = median-odd t (ground arith) ∙ found in
          (
            record t { offset = offset_of m },
            rw (odd, middle) refl,
            record {
              sorted = v.sorted;
              few = v.few;
              proper = v.proper;
              near = offset_of-near m has_abs;
            },
          )
    ]

-- From sorted samples, at most 200 and none of them the least i64, and an offset within 70 minutes:
-- whatever a peer reports but the least i64, `add_time_data` does not panic, and it keeps the samples
-- so and the offset within 70 minutes either way.
pub add_time_data-IsValid :
    (t : TimeData) (addr : ℕ) (offset : ℤ)
    → IsValid t
    → HasAbs offset
    → (t' : TimeData) × (add_time_data t addr offset ≡ some t') × IsValid t'
unfolding add_time_data
add_time_data-IsValid t addr offset v has_abs =
    elim (Bool-cases (nat_beq (length t.samples) max_samples)) [
      | inl full ↦ (t, rw full refl, v)
      | inr room ↦ rw room (elim (Bool-cases (contains addr t.known)) [
        | inl old ↦ (t, rw old refl, v)
        | inr new ↦
            let with_addr : TimeData = record t { known = addr ∷ t.known } in
            let (longer, sorted, proper, same) = input_lem with_addr offset in
            rw new (
              update_offset-IsValid (input with_addr offset) (record {
                sorted = sorted;
                few = ground arith;
                proper = proper v.proper has_abs;
                near = rw same v.near;
              }))
      ])
    ]

with_known :
    (t : TimeData) (known : List ℕ) (sample : ℤ)
    → median (input (record t { known = known }) sample) ≡ median (input t sample)
unfolding median input
with_known t known sample = refl

offset_of-least : offset_of (negsuc (2 ^ 63 - 1)) ≡ negsuc (2 ^ 63 - 1)
unfolding offset_of wrap_i64
offset_of-least = refl

sum_least :
    (now : ℕ) → now < 2 ^ 63 → wrap_i64 (pos now +ℤ negsuc (2 ^ 63 - 1)) ≡ negsuc (2 ^ 63 - 1 - now)
unfolding wrap_i64 ◌+ℤ◌
sum_least now clock = ground arith

adjusted_least :
    (t : TimeData) (now : ℕ)
    → t.offset ≡ negsuc (2 ^ 63 - 1)
    → now < 2 ^ 63
    → get_adjusted_time t now ≡ none
unfolding get_adjusted_time
adjusted_least t now least clock =
    let sum : wrap_i64 (pos now +ℤ t.offset) ≡ negsuc (2 ^ 63 - 1 - now) =
      ap (λ o. wrap_i64 (pos now +ℤ o)) least ∙ sum_least now clock in
    rw (get_adjusted_time, sum) refl

-- Where a peer that has not reported before brings the samples, at most 200, to an odd number of five or
-- more, with the least i64 in the middle:
-- `add_time_data` makes that the offset, though it is not within 70 minutes, and `get_adjusted_time`
-- panics after it, at any clock below 2 ^ 63.
pub add_time_data-least :
    (t : TimeData) (addr : ℕ) (sample : ℤ) (now : ℕ)
    → length t.samples < max_samples
    → contains addr t.known ≡ false
    → 4 ≤ length t.samples
    → length t.samples % 2 ≡ 0
    → median (input t sample) ≡ some (negsuc (2 ^ 63 - 1))
    → now < 2 ^ 63
    → (t' : TimeData) × (add_time_data t addr sample ≡ some t')
      × (t'.offset ≡ negsuc (2 ^ 63 - 1))
      × (get_adjusted_time t' now ≡ none)
unfolding add_time_data update_offset
add_time_data-least t addr sample now room new many even middle clock =
    let with_addr : TimeData = record t { known = addr ∷ t.known } in
    let (longer, _, _, _) = input_lem with_addr sample in
    let middle' : median (input with_addr sample) ≡ some (negsuc (2 ^ 63 - 1)) =
      with_known t (addr ∷ t.known) sample ∙ middle in
    let odd : nat_beq (length (input with_addr sample).samples % 2) 1 ≡ true = ground arith in
    let long : leb 5 (length (input with_addr sample).samples) ≡ true = ground arith in
    (
      record (input with_addr sample) { offset = negsuc (2 ^ 63 - 1) },
      ground (arith, nat_beq_iff (length t.samples) max_samples, offset_of-least),
      refl,
      adjusted_least (record (input with_addr sample) { offset = negsuc (2 ^ 63 - 1) }) now refl
          clock,
    )
