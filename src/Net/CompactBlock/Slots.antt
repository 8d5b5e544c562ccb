-- ===== src/Net/CompactBlock/Slots.antt =====
-- The slots of a compact block (src/net/compact_block.rs), counted.
use rust_bitcoin_node.Prelude.{
  ℕ, zero, suc, ◌+◌, ◌<◌, ◌≡◌, refl, sym, ap, ◌∙◌, List, [], ◌∷◌, Option, none, some, length, arith,
  drop, get_elem?, nat_beq, if◌then◌else◌,
}
use rust_bitcoin_node.Prelude.Partial.{>>=-eq-some}
use rust_bitcoin_node.Bitcoin.{Transaction}
use rust_bitcoin_node.Net.CompactBlock.{blank, first_free, missing_indexes, set_at, unwrap_all}

-- How many slots have a transaction, and how many are empty.
abbrev pub slot_count : Option Transaction → ℕ
slot_count none = 0
slot_count (some tx) = 1

unfoldable pub filled : List (Option Transaction) → ℕ
filled [] = 0
filled (slot ∷ slots) = slot_count slot + filled slots

unfoldable pub free : List (Option Transaction) → ℕ
free [] = 0
free (none ∷ slots) = suc (free slots)
free (some tx ∷ slots) = free slots

pub filled-free : (slots : List (Option Transaction)) → filled slots + free slots ≡ length slots
unfolding filled free
filled-free [] = refl
filled-free (none ∷ slots) = omega (arith, filled-free slots)
filled-free (some tx ∷ slots) = omega (arith, filled-free slots)

pub filled-blank : (n : ℕ) → filled (blank n) ≡ 0
unfolding filled
filled-blank zero = refl
filled-blank (suc n) = omega (arith, filled-blank n)

pub length-blank : (n : ℕ) → length (blank n) ≡ n
length-blank zero = refl
length-blank (suc n) = omega (arith, length-blank n)

-- All slots full: the block is there.
pub unwrap_all-full :
    (slots : List (Option Transaction))
    → filled slots ≡ length slots
    → (txs : List Transaction) × (unwrap_all slots ≡ some txs)
unfolding filled unwrap_all
unwrap_all-full [] full = ([], refl)
unwrap_all-full (none ∷ slots) full = absurd (omega (arith, filled-free slots))
unwrap_all-full (some tx ∷ slots) full =
    let (txs, done) = unwrap_all-full slots (omega arith) in (tx ∷ txs, rw done refl)

-- Setting a slot keeps the number of slots and what comes after it, and counts by what was there.
pub set_at_lem :
    (index : ℕ) (value : Option Transaction) (slots slots' : List (Option Transaction))
    → set_at index value slots ≡ some slots'
    → (old : Option Transaction) × (length slots' ≡ length slots)
      × (filled slots' + slot_count old ≡ filled slots + slot_count value)
      × (drop (suc index) slots' ≡ drop (suc index) slots)
      × (drop index slots ≡ old ∷ drop (suc index) slots)
      × (drop index slots' ≡ value ∷ drop (suc index) slots)
      × (get_elem? slots index ≡ some old)
unfolding set_at filled
set_at_lem index value [] slots' e = absurd (cc)
set_at_lem zero value (slot ∷ slots) [] e = absurd (cc)
set_at_lem zero value (slot ∷ slots) (x ∷ slots') e =
    let first : value ∷ slots ≡ x ∷ slots' = cc in
    let same : slots' ≡ slots = ground arith in
    let here : x ≡ value = ground arith in
    (
      slot,
      omega (arith, ap length same),
      omega (arith, ap filled same, ap slot_count here),
      same,
      refl,
      sym first,
      refl,
    )
set_at_lem (suc index) value (slot ∷ slots) [] e =
    let (rest, _, e') = >>=-eq-some (set_at index value slots) _ e in absurd (cc)
set_at_lem (suc index) value (slot ∷ slots) (x ∷ slots') e =
    let (rest, run, e') = >>=-eq-some (set_at index value slots) _ e in
    let both : slot ∷ rest ≡ x ∷ slots' = cc in
    let same : rest ≡ slots' = ground arith in
    let here : x ≡ slot = ground arith in
    let (old, size, count, after, at, at', was) =
      set_at_lem index value slots slots' (run ∙ ap some same) in
    (old, omega arith, omega (arith, ap slot_count here), after, at, at', was)

-- A slot that is there can be set, and only that slot changes.
pub set_at-some :
    (index : ℕ) (value : Option Transaction) (slots : List (Option Transaction))
    → index < length slots
    → (slots' : List (Option Transaction)) × (set_at index value slots ≡ some slots')
unfolding set_at
set_at-some index value [] low = absurd (omega arith)
set_at-some zero value (slot ∷ slots) low = (value ∷ slots, refl)
set_at-some (suc index) value (slot ∷ slots) low =
    let (slots', done) = set_at-some index value slots (omega arith) in
    (slot ∷ slots', rw done refl)

pub set_at-get :
    (index i : ℕ) (value : Option Transaction) (slots slots' : List (Option Transaction))
    → set_at index value slots ≡ some slots'
    → get_elem? slots' i ≡ (if nat_beq index i then some value else get_elem? slots i)
unfolding set_at
set_at-get index i value [] slots' e = absurd (cc)
set_at-get zero zero value (slot ∷ slots) slots' e =
    let same : slots' ≡ value ∷ slots = ground arith in rw same refl
set_at-get zero (suc i) value (slot ∷ slots) slots' e =
    let same : slots' ≡ value ∷ slots = ground arith in rw same (ground arith)
set_at-get (suc index) zero value (slot ∷ slots) slots' e =
    let (rest, run, e') = >>=-eq-some (set_at index value slots) _ e in
    let same : slots' ≡ slot ∷ rest = ground arith in rw same (ground arith)
set_at-get (suc index) (suc i) value (slot ∷ slots) slots' e =
    let (rest, run, e') = >>=-eq-some (set_at index value slots) _ e in
    let same : slots' ≡ slot ∷ rest = ground arith in
    let there = set_at-get index i value slots rest run in rw same (ground arith)

-- Where there is a free slot, the search finds one, the slots before it are full, and it is the first of
-- those that are missing.
pub first_free_lem :
    (slots : List (Option Transaction)) (position : ℕ)
    → 0 < free slots
    → (steps : ℕ) × (rest : List (Option Transaction)) × (first_free slots position
        ≡ some (position + steps))
      × (drop steps slots ≡ none ∷ rest)
      × (suc (free rest) ≡ free slots)
      × (missing_indexes slots position
          ≡ (position + steps) ∷ missing_indexes rest (suc (position + steps)))
unfolding first_free free missing_indexes
first_free_lem [] position some_free = absurd (omega arith)
first_free_lem (none ∷ slots) position some_free =
    let here : position ≡ position + 0 = omega arith in
    (
      0,
      slots,
      ap some here,
      refl,
      refl,
      ap {B = List ℕ} (λ (p : ℕ). p ∷ missing_indexes slots (suc p)) here,
    )
first_free_lem (some tx ∷ slots) position some_free =
    let (steps, rest, done, at, less, missing) = first_free_lem slots (suc position) some_free in
    let here : suc position + steps ≡ position + suc steps = omega arith in
    (
      suc steps,
      rest,
      done ∙ ap some here,
      at,
      less,
      missing ∙ ap {B = List ℕ} (λ (p : ℕ). p ∷ missing_indexes rest (suc p)) here,
    )

pub missing_indexes-full :
    (slots : List (Option Transaction)) (position : ℕ)
    → free slots ≡ 0
    → missing_indexes slots position ≡ []
unfolding missing_indexes free
missing_indexes-full [] position full = refl
missing_indexes-full (none ∷ slots) position full = absurd (omega arith)
missing_indexes-full (some tx ∷ slots) position full =
    missing_indexes-full slots (suc position) full
