-- ===== src/Net/CompactBlock/Assign.antt =====
-- The slots that `new` of src/net/compact_block.rs gives to the short ids.
use rust_bitcoin_node.Prelude.{
  ℕ, suc, ◌+◌, ◌≡◌, ◌⊎◌, refl, sym, ap, ◌∙◌, false, List, [], ◌∷◌, Option, none, some, length,
  arith, drop, drop-drop, drop-at, lookup, lookup-insert, nat_eq, nat_beq, nat_beq_iff, get_elem?,
  Bool-cases, inl, inr, All, insert, contains, contains_key, map,
}
use rust_bitcoin_node.Bitcoin.{Transaction}
use rust_bitcoin_node.Net.CompactBlock.{assign_ids, missing_indexes}
use rust_bitcoin_node.Net.CompactBlock.Slots.{first_free_lem, free, missing_indexes-full}

-- The ids lead to empty slots.
abbrev pub AreVacant : List (Option Transaction) → List (ℕ × ℕ) → Type 0
AreVacant slots id_map =
    (id index : ℕ) → lookup id id_map ≡ some index → get_elem? slots index ≡ some none

-- No id comes twice.
abbrev pub IsDistinct : List ℕ → Type 0
IsDistinct [] = Unit
IsDistinct (id ∷ ids) = (contains id ids ≡ false) × IsDistinct ids

abbrev pub AreAbsent : List (ℕ × ℕ) → List ℕ → Type 0
AreAbsent id_map ids = All (λ (id : ℕ). contains_key id id_map ≡ false) ids

-- No id comes twice, and none is there yet.
abbrev AreNew : List (ℕ × ℕ) → List ℕ → Type 0
AreNew id_map ids = IsDistinct ids × AreAbsent id_map ids

insert-AreAbsent :
    (id place : ℕ) (id_map : List (ℕ × ℕ)) (ids : List ℕ)
    → AreAbsent (insert id place id_map) ids
    → (contains id ids ≡ false) × AreAbsent id_map ids
unfolding contains contains_key
insert-AreAbsent id place id_map [] absent = (refl, tt)
insert-AreAbsent id place id_map (x ∷ ids) (here, there) =
    let (apart, absent) = insert-AreAbsent id place id_map ids there in
    ground (arith, lookup-insert id x place id_map, nat_beq_iff id x, nat_beq_iff x id)

AreAbsent-insert :
    (id place : ℕ) (id_map : List (ℕ × ℕ)) (ids : List ℕ)
    → contains id ids ≡ false
    → AreAbsent id_map ids
    → AreAbsent (insert id place id_map) ids
unfolding contains contains_key
AreAbsent-insert id place id_map [] apart absent = tt
AreAbsent-insert id place id_map (x ∷ ids) apart (here, there) = ground (
  arith,
  lookup-insert id x place id_map,
  nat_beq_iff id x,
  nat_beq_iff x id,
  AreAbsent-insert id place id_map ids,
)

-- The map leads the ids in order to the slots that are missing in order, and keeps the other ids.
abbrev Leads : List (Option Transaction) → List ℕ → ℕ → List (ℕ × ℕ) → List (ℕ × ℕ) → Type 0
Leads slots ids position id_map m =
    (map (λ (id : ℕ). lookup id m) ids
      ≡ map (λ (i : ℕ). some i) (missing_indexes (drop position slots) position))
    × ((other : ℕ) → contains other ids ≡ false → lookup other m ≡ lookup other id_map)

at_insert : (id place : ℕ) (id_map : List (ℕ × ℕ)) → lookup id (insert id place id_map) ≡ some place
at_insert id place id_map = ground (arith, lookup-insert id id place id_map, nat_beq_iff id id)

past_insert :
    (id other place : ℕ) (id_map : List (ℕ × ℕ))
    → nat_beq id other ≡ false
    → lookup other (insert id place id_map) ≡ lookup other id_map
past_insert id other place id_map apart = ground (arith, lookup-insert id other place id_map)

not_in_rest :
    (id other : ℕ) (ids : List ℕ)
    → contains other (id ∷ ids) ≡ false
    → (nat_beq id other ≡ false) × (contains other ids ≡ false)
unfolding contains
not_in_rest id other ids gone = ground arith

-- While there are as many empty slots as ids, each id gets one, or an id comes twice.
pub assign_ids_lem :
    (slots : List (Option Transaction)) (ids : List ℕ) (position : ℕ) (id_map : List (ℕ × ℕ))
    → length ids ≡ free (drop position slots)
    → AreVacant slots id_map
    → ((assign_ids slots ids position id_map ≡ some none) × ¬ AreNew id_map ids)
      ⊎ ((m : List (ℕ × ℕ)) × (assign_ids slots ids position id_map ≡ some (some m))
          × AreNew id_map ids
          × AreVacant slots m
          × Leads slots ids position id_map m)
unfolding assign_ids
assign_ids_lem slots [] position id_map enough vacant = inr (
  id_map,
  refl,
  (tt, tt),
  vacant,
  (
    ap (map (λ (i : ℕ). some i))
        (sym (missing_indexes-full (drop position slots) position (sym enough))),
    λ other apart. refl,
  ),
)
assign_ids_lem slots (id ∷ ids) position id_map enough vacant =
    let (steps, rest, found, at, less, missing) =
      first_free_lem (drop position slots) position (omega arith) in
    let place = position + steps in
    let here : drop place slots ≡ none ∷ rest = sym (drop-drop steps position slots) ∙ at in
    let (empty, after) = drop-at place none slots rest here in
    elim (Bool-cases (contains_key id id_map)) [
      | inl twice ↦ inl (ground arith, λ new. absurd (cc))
      | inr once ↦
          elim (assign_ids_lem slots ids (suc place) (insert id place id_map)
            (omega (arith, ap free after))
            (λ other index e.
              ground (arith, lookup-insert id other place id_map, vacant other index))) [
                | inl (done, old) ↦ inl (
                  ground arith,
                  λ new. old (new.0.1, AreAbsent-insert id place id_map ids new.0.0 new.1.1),
                )
                | inr (m, done, (distinct, absent), vacant', (leads, keeps)) ↦
                    let (apart, absent') = insert-AreAbsent id place id_map ids absent in
                    let some_at : ℕ → Option ℕ = λ i. some i in
                    let own : lookup id m ≡ some place =
                      keeps id apart ∙ at_insert id place id_map in
                    let others : map (λ (x : ℕ). lookup x m) ids
                        ≡ map some_at (missing_indexes rest (suc place)) =
                      leads ∙ ap (λ rest'. map some_at (missing_indexes rest' (suc place))) after in
                    inr (
                      m,
                      ground arith,
                      ((apart, distinct), (once, absent')),
                      vacant',
                      (
                        simp (own, others, missing),
                        λ other gone.
                            keeps other (not_in_rest id other ids gone).1
                            ∙ past_insert id other place id_map (not_in_rest id other ids gone).0,
                      ),
                    )
              ]
    ]
