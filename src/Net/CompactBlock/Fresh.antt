-- ===== src/Net/CompactBlock/Fresh.antt =====
-- What `new` of src/net/compact_block.rs builds, and where it panics.
use mathlib.Core.Path.{subst}
use rust_bitcoin_node.Prelude.{
  ℕ, zero, suc, ◌+◌, ◌≤◌, ◌≡◌, refl, sym, ap, ◌∙◌, List, [], ◌∷◌, Option, none, some, length, arith,
  drop, drop-drop, lookup, nat_eq, nat_beq, nat_beq_iff, Bool-cases, inl, inr, All, ltb, leb,
  contains_key, Option-cases, ◌⊎◌, map,
}
use rust_bitcoin_node.Prelude.Partial.{>>=-eq-some, assert}
use rust_bitcoin_node.Bitcoin.{Transaction}
use rust_bitcoin_node.Net.CompactBlock.{
  CompactBlock, HeaderAndShortIds, ShortIds, blank, missing_indexes, new, place_prefilled, set_at,
}
use rust_bitcoin_node.Net.CompactBlock.Assign.{AreAbsent, AreVacant, IsDistinct, assign_ids_lem}
use rust_bitcoin_node.Net.CompactBlock.Slots.{
  filled, filled-blank, filled-free, length-blank, set_at_lem, slot_count,
}
use rust_bitcoin_node.Net.CompactBlock.Complete.{IsFresh}

abbrev AreEmpty : List (Option Transaction) → Type 0
AreEmpty slots = All (λ (slot : Option Transaction). slot ≡ none) slots

AreEmpty-drop :
    (n : ℕ) (slots : List (Option Transaction)) → AreEmpty slots → AreEmpty (drop n slots)
AreEmpty-drop zero slots empty = empty
AreEmpty-drop (suc n) [] empty = tt
AreEmpty-drop (suc n) (slot ∷ slots) (_, empty) = AreEmpty-drop n slots empty

blank-AreEmpty : (n : ℕ) → AreEmpty (blank n)
blank-AreEmpty zero = tt
blank-AreEmpty (suc n) = (refl, blank-AreEmpty n)

-- Each prefilled transaction goes to an empty slot, so the count is right.
place_prefilled_lem :
    (ids next : ℕ) (prefilled : List (ℕ × Transaction)) (slots slots' : List (Option Transaction))
    (count count' : ℕ)
    → AreEmpty (drop next slots)
    → place_prefilled ids next prefilled slots count ≡ some (slots', count')
    → (length slots' ≡ length slots)
      × (filled slots' + count ≡ filled slots + count')
      × (count' ≡ count + length prefilled)
unfolding place_prefilled
place_prefilled_lem ids next [] slots slots' count count' empty e =
    let same : slots ≡ slots' = ground arith in
    let number : count ≡ count' = ground arith in
    (ap length (sym same), omega (arith, ap filled same), omega arith)
place_prefilled_lem ids next ((index, tx) ∷ prefilled) slots slots' count count' empty e =
    let last = next + index in
    let (_, _, e₁) = >>=-eq-some (assert (ltb last 0xffff)) _ e in
    let (_, _, e₂) = >>=-eq-some (assert (leb last (ids + 1))) _ e₁ in
    let (slots₁, set, e₃) = >>=-eq-some (set_at last (some tx) slots) _ e₂ in
    let (old, size, number, after, at, _, _) = set_at_lem last (some tx) slots slots₁ set in
    let later : AreEmpty (drop last slots) =
      subst AreEmpty (drop-drop index next slots) (AreEmpty-drop index (drop next slots) empty) in
    let both : AreEmpty (old ∷ drop (suc last) slots) = subst AreEmpty at later in
    let empty' : AreEmpty (drop (suc last) slots₁) = subst AreEmpty (sym after) both.1 in
    let (size', number', total) =
      place_prefilled_lem ids (suc last) prefilled slots₁ slots' (suc count) count' empty' e₃ in
    (omega arith, omega (arith, ap slot_count both.0), omega arith)

all_absent : (ids : List ℕ) → AreAbsent [] ids
unfolding contains_key lookup
all_absent [] = tt
all_absent (id ∷ ids) = (refl, all_absent ids)

none_yet : (slots : List (Option Transaction)) → AreVacant slots []
unfolding lookup
none_yet slots id index e = absurd (cc)

module _ (short : ShortIds) where
  -- Once the prefilled transactions are in place, `new` does not panic. It gives no block exactly where a
  -- short id comes twice; else a block with a slot for each transaction, in which `count` counts the full
  -- slots, as many as are prefilled, and the map leads the short ids, in their order, to the empty slots,
  -- in theirs: each id to one slot, and no slot left out.
  pub new-IsFresh :
      (h : HeaderAndShortIds) (slots : List (Option Transaction)) (count : ℕ)
      → place_prefilled
          (length h.short_ids)
          0
          h.prefilled_txs
          (blank (length h.prefilled_txs + length h.short_ids))
          0
        ≡ some (slots, count)
      → ((new short h ≡ some none) × ¬ IsDistinct h.short_ids)
        ⊎ (IsDistinct h.short_ids
            × (cb : CompactBlock) × (new short h ≡ some (some cb))
            × IsFresh cb
            × (cb.available ≡ slots)
            × (cb.count ≡ length h.prefilled_txs)
            × (cb.total_tx ≡ length h.prefilled_txs + length h.short_ids)
            × (map (λ (id : ℕ). lookup id cb.id_map) h.short_ids
                ≡ map (λ (i : ℕ). some i) (missing_indexes cb.available 0)))
  unfolding new
  new-IsFresh h slots count placed =
      let total = length h.prefilled_txs + length h.short_ids in
      let (size, number, prefilled) =
        place_prefilled_lem (length h.short_ids) 0 h.prefilled_txs (blank total) slots 0 count
          (blank-AreEmpty total) placed in
      let size' : length slots ≡ total = size ∙ length-blank total in
      let counted : count ≡ filled slots = omega (arith, filled-blank total) in
      elim (assign_ids_lem slots h.short_ids 0 [] (omega (arith, filled-free slots))
        (λ id index e. none_yet slots id index e)) [
          | inl (done, old) ↦
              inl (rw (placed, done) refl, λ distinct. old (distinct, all_absent h.short_ids))
          | inr (id_map, done, (distinct, _), vacant, (leads, _)) ↦
              let cb : CompactBlock = record {
                available = slots;
                header = h.header;
                sip_key = short.calculate_siphash_keys h.header h.nonce;
                total_tx = total;
                count = count;
                id_map = id_map;
              } in
              inr (
                distinct,
                cb,
                rw (placed, done) refl,
                record { size = size'; counted = counted; vacant = vacant },
                refl,
                omega (arith, prefilled),
                refl,
                leads,
              )
        ]

  place_rest-panics :
      (n next count : ℕ) (txs : List (ℕ × Transaction)) (slots : List (Option Transaction))
      → All (λ (entry : ℕ × Transaction). entry.0 ≡ 0) txs
      → next + length txs ≡ n
      → 3 ≤ n
      → next ≤ 2
      → place_prefilled 0 next txs slots count ≡ none
  unfolding place_prefilled
  place_rest-panics n next count [] slots zeros whole many low = absurd (omega arith)
  place_rest-panics n next count ((index, tx) ∷ txs) slots (here, zeros) whole many low =
      let at : next + index ≡ next = omega arith in
      elim (Bool-cases (nat_beq next 2)) [
        | inl two ↦ ground (arith, (nat_beq_iff next 2).0 two)
        | inr less ↦ elim (Option-cases (set_at next (some tx) slots)) [
          | inl out ↦ ground arith
          | inr (slots', set) ↦
              let rest =
                place_rest-panics n (suc next) (suc count) txs slots' zeros (omega arith) many
                  (ground arith) in
              ground arith
        ]
      ]

  -- `new` panics at a block of three transactions or more that are all prefilled, one after the other: the
  -- third has an index above the number of the short ids and one.
  pub new-panics :
      (h : HeaderAndShortIds)
      → h.short_ids ≡ []
      → All (λ (entry : ℕ × Transaction). entry.0 ≡ 0) h.prefilled_txs
      → 3 ≤ length h.prefilled_txs
      → new short h ≡ none
  unfolding new
  new-panics h no_ids zeros many =
      let panics =
        place_rest-panics (length h.prefilled_txs) 0 0 h.prefilled_txs
          (blank (length h.prefilled_txs + length h.short_ids)) zeros (omega arith) many
          (omega arith) in
      let none_left : length h.short_ids ≡ 0 = ap length no_ids in
      let total = length h.prefilled_txs + length h.short_ids in
      let run : place_prefilled (length h.short_ids) 0 h.prefilled_txs (blank total) 0 ≡ none =
        subst (λ k. place_prefilled k 0 h.prefilled_txs (blank total) 0 ≡ none) (sym none_left)
          panics in
      rw run refl
