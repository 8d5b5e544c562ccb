-- ===== src/Blockchain/Best/Most.antt =====
-- `get_next_best` of src/blockchain/chain.rs finds the most work among the blocks that can be connected.
use mathlib.Core.Path.{subst}
use rust_bitcoin_node.Prelude.{
  ℕ, zero, suc, ◌+◌, ◌≤◌, ◌<◌, ◌^◌, ◌≡◌, refl, sym, ap, ◌∙◌, ◌⊎◌, inl, inr, true, false, List, [],
  ◌∷◌, Option, none, some, ltb, arith, Bool-cases, Option-cases, if◌then◌else◌, is_empty, All,
  get_elem?,
}
use rust_bitcoin_node.Blockchain.Entry.{ChainEntry}
use rust_bitcoin_node.Blockchain.Db.{ChainDb}
use rust_bitcoin_node.Blockchain.Ancestor.Laws.{IsKnown}
use rust_bitcoin_node.Blockchain.Chain.{Chain, is_block_ready}
use rust_bitcoin_node.Blockchain.Best.{
  best_child, get_next_best, get_next_entries, last_entry, next_best,
}

-- The work at the end of a path.
abbrev pub final_work : List ChainEntry → ℕ
final_work path = elim (last_entry path) [ none ↦ 0 | some last ↦ last.chainwork ]

-- An entry that some steps lead up to, all over blocks that are ready.
abbrev pub ReadyAbove : Chain → ℕ → ChainEntry → ChainEntry → Type 0
ReadyAbove chain zero e l = (is_block_ready chain e.hash ≡ true) × (e ≡ l)
ReadyAbove chain (suc k) e l =
    (is_block_ready chain e.hash ≡ true)
    × (nexts : List ChainEntry) × (get_next_entries chain.db e.hash ≡ some nexts)
    × (i : ℕ) × (next : ChainEntry) × (get_elem? nexts i ≡ some next)
    × ReadyAbove chain k next l

-- The blocks that the database has after an entry are known, one higher, and have more work.
abbrev pub IsNext : ChainDb → ChainEntry → ChainEntry → Type 0
IsNext c e next = IsKnown c next × (next.height ≡ suc e.height) × (e.chainwork < next.chainwork)

abbrev pub Grows : ChainDb → Type 0
Grows c =
    (e : ChainEntry)
    → IsKnown c e
    → (e.height < 2 ^ 31)
      × (nexts : List ChainEntry) × (get_next_entries c e.hash ≡ some nexts)
      × All (IsNext c e) nexts

-- A path from an entry: empty, or with the work of an entry that can be reached, no less than the
-- first one has.
abbrev Attains : Chain → ChainEntry → List ChainEntry → Type 0
Attains chain e path =
    (is_empty path ≡ true)
    ⊎ ((k : ℕ) × (l : ChainEntry) × ReadyAbove chain k e l
        × (l.chainwork ≡ final_work path)
        × (e.chainwork ≤ final_work path))

abbrev IsMost : Chain → ChainEntry → List ChainEntry → Type 0
IsMost chain e path =
    Attains chain e path
    × ((k : ℕ) (l : ChainEntry) → ReadyAbove chain k e l → l.chainwork ≤ final_work path)

-- What the search gives for an entry.
abbrev Finds : Chain → (ChainEntry → Option (List ChainEntry)) → ChainEntry → Type 0
Finds chain search e = (path : List ChainEntry) × (search e ≡ some path) × IsMost chain e path

final_work-cons :
    (e : ChainEntry) (path : List ChainEntry)
    → final_work (e ∷ path) ≡ (if is_empty path then e.chainwork else final_work path)
final_work-cons e [] = refl
final_work-cons e (x ∷ path) = refl

-- The best path so far of the loop over the children.
abbrev BestSoFar : Chain → ChainEntry → List ChainEntry → Type 0
BestSoFar chain e path =
    (is_empty path ≡ true)
    ⊎ ((k : ℕ) × (l : ChainEntry) × ReadyAbove chain (suc k) e l
        × (l.chainwork ≡ final_work path)
        × (e.chainwork ≤ final_work path))

module _ (chain : Chain) (search : ChainEntry → Option (List ChainEntry)) (e : ChainEntry)
    (nexts : List ChainEntry) (ready : is_block_ready chain e.hash ≡ true)
    (found : get_next_entries chain.db e.hash ≡ some nexts) where
  -- A child's path is a candidate for its parent.
  lift :
      (i : ℕ) (next : ChainEntry) (path : List ChainEntry)
      → get_elem? nexts i ≡ some next
      → IsNext chain.db e next
      → Attains chain next path
      → BestSoFar chain e path
  lift i next path at (_, _, more) (inl empty) = inl empty
  lift i next path at (_, _, more) (inr (k, l, above, work, low)) =
      inr (k, l, (ready, nexts, found, i, next, at, above), work, omega arith)

  empty-work : (path : List ChainEntry) → is_empty path ≡ true → final_work path ≡ 0
  empty-work [] h = refl
  empty-work (x ∷ path) h = absurd (cc)

  taken :
      (next : ChainEntry) (rest path max_path : List ChainEntry)
      → search next ≡ some path
      → ltb (final_work max_path) (final_work path) ≡ true
      → best_child search (next ∷ rest) (final_work max_path) max_path
        ≡ best_child search rest (final_work path) path
  unfolding best_child
  taken next rest path max_path run more = elim (Option-cases (last_entry path)) [
    | inl missing ↦ absurd (ground arith)
    | inr (last, at) ↦ ground arith
  ]

  passed :
      (next : ChainEntry) (rest path max_path : List ChainEntry)
      → search next ≡ some path
      → ltb (final_work max_path) (final_work path) ≡ false
      → best_child search (next ∷ rest) (final_work max_path) max_path
        ≡ best_child search rest (final_work max_path) max_path
  unfolding best_child
  passed next rest path max_path run less = elim (Option-cases (last_entry path)) [
    | inl missing ↦ ground arith
    | inr (last, at) ↦ ground arith
  ]

  covers :
      (next : ChainEntry) (rest path : List ChainEntry) (bound : ℕ)
      → ((k : ℕ) (l : ChainEntry) → ReadyAbove chain k next l → l.chainwork ≤ final_work path)
      → final_work path ≤ bound
      → ((i k : ℕ) (other l : ChainEntry)
          → get_elem? rest i ≡ some other
          → ReadyAbove chain k other l
          → l.chainwork ≤ bound)
      → (i k : ℕ) (other l : ChainEntry) → get_elem? (next ∷ rest) i ≡ some other
      → ReadyAbove chain k other l
      → l.chainwork ≤ bound
  covers next rest path bound most low rest_most zero k other l at above =
      let same : next ≡ other = cc in
      let found_here = most k l (subst (λ n. ReadyAbove chain k n l) (sym same) above) in
      omega arith
  covers next rest path bound most low rest_most (suc i) k other l at above =
      rest_most i k other l at above

  best_child_lem :
      (rest : List ChainEntry) (offset : ℕ) (max_path : List ChainEntry)
      → All (λ (next : ChainEntry). IsNext chain.db e next × Finds chain search next) rest
      → ((i : ℕ) (next : ChainEntry)
          → get_elem? rest i ≡ some next
          → get_elem? nexts (offset + i) ≡ some next)
      → BestSoFar chain e max_path
      → (path : List ChainEntry) × (best_child search rest (final_work max_path) max_path
          ≡ some path)
        × BestSoFar chain e path
        × (final_work max_path ≤ final_work path)
        × ((i k : ℕ) (next l : ChainEntry)
            → get_elem? rest i ≡ some next
            → ReadyAbove chain k next l
            → l.chainwork ≤ final_work path)
  unfolding best_child
  best_child_lem [] offset max_path all within best =
      (max_path, refl, best, omega arith, λ i k next l at. absurd (cc))
  best_child_lem (next ∷ rest) offset max_path ((is_next, (path, run, (attains, most))), all) within
        best =
      let at : get_elem? nexts offset ≡ some next =
        ap (get_elem? nexts) (omega arith) ∙ within 0 next refl in
      let within' : (i : ℕ) (other : ChainEntry)
          → get_elem? rest i ≡ some other
          → get_elem? nexts (suc offset + i) ≡ some other =
        λ i other here. ap (get_elem? nexts) (omega arith) ∙ within (suc i) other here in
      elim (Bool-cases (ltb (final_work max_path) (final_work path))) [
        | inl more ↦
            let (result, done, best', up, rest_most) =
              best_child_lem rest (suc offset) path all within'
                (lift offset next path at is_next attains) in
            (
              result,
              taken next rest path max_path run more ∙ done,
              best',
              ground arith,
              covers next rest path (final_work result) most up rest_most,
            )
        | inr less ↦
            let (result, done, best', up, rest_most) =
              best_child_lem rest (suc offset) max_path all within' best in
            (
              result,
              passed next rest path max_path run less ∙ done,
              best',
              up,
              covers next rest path (final_work result) most (ground arith) rest_most,
            )
      ]

  all_below :
      (bound : ℕ)
      → e.chainwork ≤ bound
      → ((i k : ℕ) (next l : ChainEntry)
          → get_elem? nexts i ≡ some next
          → ReadyAbove chain k next l
          → l.chainwork ≤ bound)
      → (k : ℕ) (l : ChainEntry) → ReadyAbove chain k e l
      → l.chainwork ≤ bound
  all_below bound low most zero l (_, same) =
      omega (arith, ap (λ (x : ChainEntry). x.chainwork) same)
  all_below bound low most (suc k) l (_, nexts', found', i, next, at, above) =
      let same : nexts' ≡ nexts = cc in
      most i k next l (subst (λ ns. get_elem? ns i ≡ some next) same at) above

  -- The path through the best child has the most work of all above the entry.
  through :
      (path : List ChainEntry)
      → BestSoFar chain e path
      → ((i k : ℕ) (next l : ChainEntry)
          → get_elem? nexts i ≡ some next
          → ReadyAbove chain k next l
          → l.chainwork ≤ final_work path)
      → IsMost chain e (e ∷ path)
  through [] best most = (
    inr (0, e, (ready, refl), refl, omega arith),
    all_below e.chainwork (omega arith)
        (λ i k next l at above. omega (arith, most i k next l at above)),
  )
  through (x ∷ path) (inl empty) most = absurd (cc)
  through (x ∷ path) (inr (k, l, above, work, low)) most =
      (inr (suc k, l, above, work, low), all_below (final_work (x ∷ path)) low most)

-- The search from an entry that is ready, given what it finds for the children.
next_best-ready :
    (chain : Chain) (fuel : ℕ) (e : ChainEntry) (nexts : List ChainEntry)
    → is_block_ready chain e.hash ≡ true
    → get_next_entries chain.db e.hash ≡ some nexts
    → All
        (λ (next : ChainEntry). IsNext chain.db e next × Finds chain (next_best fuel chain) next)
        nexts
    → (path : List ChainEntry) × (next_best (suc fuel) chain e ≡ some (e ∷ path))
      × IsMost chain e (e ∷ path)
unfolding next_best
next_best-ready chain fuel e nexts ready found all =
    let search = next_best fuel chain in
    let (path, done, best, _, most) =
      best_child_lem chain search e nexts ready found nexts 0 [] all
        (λ i next at. ap (get_elem? nexts) (omega arith) ∙ at) (inl refl) in
    (path, ground arith, through chain search e nexts ready found path best most)

module _ (chain : Chain) (grows : Grows chain.db) where
  not_ready :
      (e : ChainEntry) (k : ℕ) (l : ChainEntry)
      → is_block_ready chain e.hash ≡ false
      → ReadyAbove chain k e l
      → l.chainwork ≤ 0
  not_ready e zero l unready (ready, _) = absurd (cc)
  not_ready e (suc k) l unready (ready, _, _, _, _, _, _) = absurd (cc)

  children :
      (fuel : ℕ) (e : ChainEntry) (rest : List ChainEntry)
      → ((next : ChainEntry)
          → IsKnown chain.db next
          → 2 ^ 31 ≤ next.height + fuel
          → Finds chain (next_best fuel chain) next)
      → 2 ^ 31 ≤ e.height + suc fuel
      → All (IsNext chain.db e) rest
      → All
          (λ (next : ChainEntry). IsNext chain.db e next × Finds chain (next_best fuel chain) next)
          rest
  children fuel e [] finds enough all = tt
  children fuel e (next ∷ rest) finds enough ((k, level, more), all) =
      (((k, level, more), finds next k (omega arith)), children fuel e rest finds enough all)

  next_best_lem :
      (fuel : ℕ) (e : ChainEntry)
      → IsKnown chain.db e
      → 2 ^ 31 ≤ e.height + fuel
      → Finds chain (next_best fuel chain) e
  unfolding next_best
  next_best_lem zero e known enough = absurd (omega (arith, (grows e known).0))
  next_best_lem (suc fuel) e known enough = elim (Bool-cases (is_block_ready chain e.hash)) [
    | inr unready ↦ ([], rw unready refl, (inl refl, λ k l above. not_ready e k l unready above))
    | inl ready ↦
        let (_, nexts, found, all) = grows e known in
        let (path, done, most) =
          next_best-ready chain fuel e nexts ready found
            (children fuel e nexts (next_best_lem fuel) enough all) in
        (e ∷ path, done, most)
  ]

  -- Where the blocks that the database has after a known entry are known, one higher, with more work,
  -- and no height reaches 2 ^ 31: from a known entry, and with fuel for the heights above it,
  -- `get_next_best` ends without a panic. If the block is ready, the end of the path that it gives, or
  -- the block itself where the path is empty, has the work of a block that ready blocks lead up to, and
  -- no block that ready blocks lead up to has more.
  pub get_next_best-IsMost :
      (fuel : ℕ) (e : ChainEntry)
      → IsKnown chain.db e
      → 2 ^ 31 ≤ e.height + fuel
      → is_block_ready chain e.hash ≡ true
      → (path : List ChainEntry) × (get_next_best fuel chain e ≡ some path)
        × ((k : ℕ) × (l : ChainEntry) × ReadyAbove chain k e l
            × (l.chainwork ≡ final_work (e ∷ path)))
        × ((k : ℕ) (l : ChainEntry) → ReadyAbove chain k e l → l.chainwork ≤ final_work (e ∷ path))
  unfolding get_next_best
  get_next_best-IsMost zero e known enough ready = absurd (omega (arith, (grows e known).0))
  get_next_best-IsMost (suc fuel) e known enough ready =
      let (_, nexts, found, all) = grows e known in
      let (path, done, (attains, most)) =
        next_best-ready chain fuel e nexts ready found
          (children fuel e nexts (next_best_lem fuel) enough all) in
      (
        path,
        rw done refl,
        elim attains [ inl empty ↦ absurd (cc) | inr (k, l, above, work, _) ↦ (k, l, above, work) ],
        most,
      )
