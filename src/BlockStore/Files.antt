-- ===== src/BlockStore/Files.antt =====
-- The files that src/blockstore/mod.rs reads and writes, as lists of bytes: `seek` with `write_all`
-- and `seek` with `read_exact` of the standard library, by its documentation.
use mathlib.Core.List.{append-nil}
use rust_bitcoin_node.Prelude.{
  drop-drop, ℕ, zero, suc, ◌+◌, ◌-◌, ◌≤◌, ◌≡◌, refl, ap, List, [], ◌∷◌, ◌++◌, Option, none, some,
  arith, length, take, drop, leb, if◌then◌else◌, length-append,
}

abbrev pub zeros : ℕ → List ℕ
zeros zero = []
zeros (suc n) = 0 ∷ zeros n

-- Writing past the end fills the gap with zeros.
unfoldable pub write_at : ℕ → List ℕ → List ℕ → List ℕ
write_at position bytes file =
    take position (file ++ zeros (position - length file))
    ++ (bytes ++ drop (position + length bytes) file)

-- `none` is the end of the file.
unfoldable pub read_at : ℕ → ℕ → List ℕ → Option (List ℕ)
read_at position count file =
    if leb (position + count) (length file) then some (take count (drop position file)) else none

module _ {ℓ} {A : Type ℓ} where
  take-append : (xs ys : List A) → take (length xs) (xs ++ ys) ≡ xs
  take-append [] ys = refl
  take-append (x ∷ xs) ys = simp (take-append xs ys)

  pub drop-past : (n : ℕ) (xs : List A) → length xs ≤ n → drop n xs ≡ []
  drop-past zero [] h = refl
  drop-past (suc n) [] h = refl
  drop-past zero (x ∷ xs) h = absurd (omega arith)
  drop-past (suc n) (x ∷ xs) h = drop-past n xs (omega arith)

  pub take-length : (xs : List A) → take (length xs) xs ≡ xs
  take-length [] = refl
  take-length (x ∷ xs) = simp (take-length xs)

  drop-append : (xs ys : List A) → drop (length xs) (xs ++ ys) ≡ ys
  drop-append [] ys = refl
  drop-append (x ∷ xs) ys = drop-append xs ys

  take-prefix : (n : ℕ) (xs ys : List A) → n ≤ length xs → take n (xs ++ ys) ≡ take n xs
  take-prefix zero xs ys h = refl
  take-prefix (suc n) [] ys h = absurd (omega arith)
  take-prefix (suc n) (x ∷ xs) ys h = simp (take-prefix n xs ys (omega arith))

  pub slice-prefix :
      (position count : ℕ) (xs ys : List A)
      → position + count ≤ length xs
      → take count (drop position (xs ++ ys)) ≡ take count (drop position xs)
  slice-prefix zero count xs ys h = take-prefix count xs ys (omega arith)
  slice-prefix (suc p) zero [] ys h = absurd (omega arith)
  slice-prefix (suc p) (suc count) [] ys h = absurd (omega arith)
  slice-prefix (suc p) count (x ∷ xs) ys h = slice-prefix p count xs ys (omega arith)

  pub length-take : (n : ℕ) (xs : List A) → n ≤ length xs → length (take n xs) ≡ n
  length-take zero xs h = refl
  length-take (suc n) [] h = absurd (omega arith)
  length-take (suc n) (x ∷ xs) h = omega (arith, length-take n xs (omega arith))

  length-drop : (n : ℕ) (xs : List A) → n ≤ length xs → length (drop n xs) + n ≡ length xs
  length-drop zero xs h = omega arith
  length-drop (suc n) [] h = absurd (omega arith)
  length-drop (suc n) (x ∷ xs) h = omega (arith, length-drop n xs (omega arith))

  take-drop-take :
      (count offset n : ℕ) (xs : List A)
      → offset + count ≤ n
      → take count (drop offset (take n xs)) ≡ take count (drop offset xs)
  take-drop-take zero offset n xs h = refl
  take-drop-take (suc count) offset zero xs h = absurd (omega arith)
  take-drop-take (suc count) zero (suc n) [] h = refl
  take-drop-take (suc count) (suc offset) (suc n) [] h = refl
  take-drop-take (suc count) zero (suc n) (x ∷ xs) h =
      simp (take-drop-take count zero n xs (omega arith))
  take-drop-take (suc count) (suc offset) (suc n) (x ∷ xs) h =
      take-drop-take (suc count) offset n xs (omega arith)

-- A write at the end of the file appends.
pub write_at-end : (bytes file : List ℕ) → write_at (length file) bytes file ≡ file ++ bytes
unfolding write_at
write_at-end bytes file = simp (
  take-append file (zeros (length file - length file)),
  drop-past (length file + length bytes) file (omega arith),
  append-nil,
)

-- What lies before the end is read as before, whatever was appended.
pub read_at-append :
    (position count : ℕ) (file bytes : List ℕ)
    → position + count ≤ length file
    → read_at position count (file ++ bytes) ≡ read_at position count file
unfolding read_at
read_at-append position count file bytes h =
    ground (arith, length-append file bytes, slice-prefix position count file bytes h)

-- What was appended last is read back.
pub read_at-last :
    (file bytes : List ℕ) → read_at (length file) (length bytes) (file ++ bytes) ≡ some bytes
unfolding read_at
read_at-last file bytes =
    ground (arith, length-append file bytes, drop-append file bytes, take-length bytes)

-- What is read within a range is a slice of the range, and the range has its length.
pub read_at-slice :
    (position size offset count : ℕ) (file bytes : List ℕ)
    → read_at position size file ≡ some bytes
    → offset + count ≤ size
    → read_at (position + offset) count file ≡ some (take count (drop offset bytes))
unfolding read_at
read_at-slice position size offset count file bytes whole h =
    let inside : position + size ≤ length file = ground arith in
    let e : bytes ≡ take size (drop position file) = ground arith in
    ground (
      arith,
      take-drop-take count offset size (drop position file) h,
      drop-drop offset position file,
    )

pub read_at-length :
    (position size : ℕ) (file bytes : List ℕ)
    → read_at position size file ≡ some bytes
    → length bytes ≡ size
unfolding read_at
read_at-length position size file bytes whole =
    let inside : position + size ≤ length file = ground arith in
    let e : bytes ≡ take size (drop position file) = ground arith in
    omega (
      arith,
      ap length e,
      length-drop position file,
      length-take size (drop position file) (omega (arith, length-drop position file)),
    )
