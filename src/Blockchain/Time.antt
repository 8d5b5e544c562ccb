-- ===== src/Blockchain/Time.antt =====
-- `get_median_time` of src/blockchain/chain.rs: the median of the times of an entry and up to ten
-- entries before it.
use rust_bitcoin_node.Prelude.{
  ℕ, zero, suc, ◌+◌, ◌*◌, ◌/◌, ◌≤◌, ◌<◌, ◌≡◌, refl, List, [], ◌∷◌, Option, none, some, length,
  get_elem?, leb, if◌then◌else◌, arith,
}
use rust_bitcoin_node.Blockchain.Entry.{ChainEntry}
use rust_bitcoin_node.Blockchain.Db.{ChainDb, get_entry_by_hash}
use rust_bitcoin_node.Protocol.Consensus.{median_timespan}

-- The loop: the times of `entry` and of its ancestors, as long as there are some.
unfoldable pub times : ℕ → ChainDb → Option ChainEntry → List ℕ
times zero c entry = []
times (suc rounds) c none = []
times (suc rounds) c (some entry) =
    entry.time ∷ times rounds c (get_entry_by_hash c entry.prev_block)

-- `sort_unstable` on numbers, by insertion.
unfoldable pub insert_sorted : ℕ → List ℕ → List ℕ
insert_sorted x [] = x ∷ []
insert_sorted x (y ∷ ys) = if leb x y then x ∷ y ∷ ys else y ∷ insert_sorted x ys

unfoldable pub sort : List ℕ → List ℕ
unfolding insert_sorted
sort [] = []
sort (x ∷ xs) = insert_sorted x (sort xs)

-- `none` is the index out of bounds of an empty slice.
unfoldable pub median_of : List ℕ → Option ℕ
unfolding sort
median_of xs = get_elem? (sort xs) (length xs / 2)

unfoldable pub get_median_time : ChainDb → ChainEntry → Option ℕ
unfolding times median_of
get_median_time c prev = median_of (times median_timespan c (some prev))

-- How many numbers are at most `m`, and how many at least.
abbrev pub count_le : ℕ → List ℕ → ℕ
count_le m [] = 0
count_le m (x ∷ xs) = (if leb x m then 1 else 0) + count_le m xs

abbrev pub count_ge : ℕ → List ℕ → ℕ
count_ge m [] = 0
count_ge m (x ∷ xs) = (if leb m x then 1 else 0) + count_ge m xs

count_le-insert :
    (m x : ℕ) (xs : List ℕ)
    → count_le m (insert_sorted x xs) ≡ (if leb x m then 1 else 0) + count_le m xs
unfolding insert_sorted
count_le-insert m x [] = refl
count_le-insert m x (y ∷ ys) = ground (arith, count_le-insert m x ys)

count_ge-insert :
    (m x : ℕ) (xs : List ℕ)
    → count_ge m (insert_sorted x xs) ≡ (if leb m x then 1 else 0) + count_ge m xs
unfolding insert_sorted
count_ge-insert m x [] = refl
count_ge-insert m x (y ∷ ys) = ground (arith, count_ge-insert m x ys)

count_le-sort : (m : ℕ) (xs : List ℕ) → count_le m (sort xs) ≡ count_le m xs
unfolding sort
count_le-sort m [] = refl
count_le-sort m (x ∷ xs) = omega (arith, count_le-insert m x (sort xs), count_le-sort m xs)

count_ge-sort : (m : ℕ) (xs : List ℕ) → count_ge m (sort xs) ≡ count_ge m xs
unfolding sort
count_ge-sort m [] = refl
count_ge-sort m (x ∷ xs) = omega (arith, count_ge-insert m x (sort xs), count_ge-sort m xs)

length-insert_sorted : (x : ℕ) (xs : List ℕ) → length (insert_sorted x xs) ≡ suc (length xs)
unfolding insert_sorted
length-insert_sorted x [] = refl
length-insert_sorted x (y ∷ ys) = ground (arith, length-insert_sorted x ys)

length-sort : (xs : List ℕ) → length (sort xs) ≡ length xs
unfolding sort
length-sort [] = refl
length-sort (x ∷ xs) = omega (arith, length-insert_sorted x (sort xs), length-sort xs)

-- Every number is at least the bound, and those after it at least itself.
abbrev IsSortedFrom : ℕ → List ℕ → Type 0
IsSortedFrom low [] = Unit {0}
IsSortedFrom low (x ∷ xs) = (low ≤ x) × IsSortedFrom x xs

insert_sorted-IsSortedFrom :
    (low x : ℕ) (xs : List ℕ)
    → low ≤ x
    → IsSortedFrom low xs
    → IsSortedFrom low (insert_sorted x xs)
unfolding insert_sorted
insert_sorted-IsSortedFrom low x [] h s = (h, tt)
insert_sorted-IsSortedFrom low x (y ∷ ys) h s = ground (arith, insert_sorted-IsSortedFrom y x ys)

sort-IsSortedFrom : (xs : List ℕ) → IsSortedFrom 0 (sort xs)
unfolding sort
sort-IsSortedFrom [] = tt
sort-IsSortedFrom (x ∷ xs) =
    insert_sorted-IsSortedFrom 0 x (sort xs) (omega arith) (sort-IsSortedFrom xs)

count_ge_all : (m low : ℕ) (xs : List ℕ) → m ≤ low → IsSortedFrom low xs → count_ge m xs ≡ length xs
count_ge_all m low [] h s = refl
count_ge_all m low (x ∷ xs) h s = ground (arith, count_ge_all m x xs)

-- In a sorted list the number at index `i` has at least i + 1 numbers up to it, and those from it on.
count_at :
    (low i m : ℕ) (xs : List ℕ)
    → IsSortedFrom low xs
    → get_elem? xs i ≡ some m
    → (low ≤ m) × (suc i ≤ count_le m xs) × (length xs ≤ count_ge m xs + i)
count_at low i m [] s e = cc
count_at low zero m (x ∷ xs) s e = ground (arith, count_ge_all m x xs)
count_at low (suc i) m (x ∷ xs) s e = ground (arith, count_at x i m xs)

get_elem?-lt : (xs : List ℕ) (i : ℕ) → i < length xs → (a : ℕ) × (get_elem? xs i ≡ some a)
get_elem?-lt [] i h = elim h [ ]
get_elem?-lt (x ∷ xs) zero h = (x, refl)
get_elem?-lt (x ∷ xs) (suc i) h = get_elem?-lt xs i (omega arith)

-- `get_median_time` gives a median: of the times that it looks at, which are not none, more than
-- half are at most the result and at least half are not below it.
pub get_median_time_lem :
    (c : ChainDb) (prev : ChainEntry)
    → let ts = times median_timespan c (some prev) in
      (m : ℕ) × (get_median_time c prev ≡ some m)
      × (length ts < 2 * count_le m ts)
      × (length ts ≤ 2 * count_ge m ts)
unfolding get_median_time median_of
get_median_time_lem c prev =
    let ts = times median_timespan c (some prev) in
    let (m, at) = get_elem?-lt (sort ts) (length ts / 2) (omega (arith, length-sort ts)) in
    let (_, low, high) = count_at 0 (length ts / 2) m (sort ts) (sort-IsSortedFrom ts) at in
    (m, at, omega (arith, count_le-sort m ts), omega (arith, count_ge-sort m ts, length-sort ts))
