-- ===== src/Blockchain/Ancestor/Laws.antt =====
-- `get_ancestor` finds what following `prev_block` step by step finds, and it always ends.
use rust_bitcoin_node.Prelude.{
  ℕ, zero, suc, ◌+◌, ◌-◌, ◌≤◌, ◌<◌, ◌^◌, ◌≡◌, refl, sym, ◌∙◌, ap, ◌≢◌, ◌⊎◌, inl, inr, true, Option,
  some, leb, nat_beq, lookup, arith, Bool-cases, nat_beq_iff, nat_eq,
}
use rust_bitcoin_node.Prelude.Partial.{◌>>=◌, >>=-eq-some}
use native.Mathlib.Nat.{zero-add, suc-add}
use rust_bitcoin_node.Bitcoin.{BlockHash}
use rust_bitcoin_node.Blockchain.Entry.{ChainEntry}
use rust_bitcoin_node.Blockchain.Db.{ChainDb, get_entry_by_hash, get_entry_by_height, is_main_chain}
use rust_bitcoin_node.Blockchain.Skip.{get_skip_height, get_skip_height-lt}
use rust_bitcoin_node.Blockchain.Ancestor.{next_step, walk, get_ancestor}

-- The reference: n steps along `prev_block`.
unfoldable pub back : ChainDb → ℕ → ChainEntry → Option ChainEntry
back c zero entry = some entry
back c (suc n) entry = get_entry_by_hash c entry.prev_block >>= λ prev. back c n prev

-- The entry is the database's own.
abbrev pub IsKnown : ChainDb → ChainEntry → Type 0
IsKnown c entry = get_entry_by_hash c entry.hash ≡ some entry

-- The database links its entries: each stands under its hash, below an entry stands its parent, a
-- skip pointer leads to the ancestor at the skip height, and the index of the main chain names known
-- entries, of which each is the parent of the next.
pub record IsLinked (c : ChainDb) : Type 0 where
  pub own_hash : (h : BlockHash) (e : ChainEntry) → get_entry_by_hash c h ≡ some e → e.hash ≡ h
  pub in_range : (e : ChainEntry) → IsKnown c e → e.height < 2 ^ 31
  pub parent :
      (e : ChainEntry)
      → IsKnown c e
      → 0 < e.height
      → (p : ChainEntry) × (get_entry_by_hash c e.prev_block ≡ some p) × (suc p.height ≡ e.height)
  pub skips :
      (e : ChainEntry)
      → IsKnown c e
      → 0 < e.height
      → e.skip ≢ 0
      → (s : ChainEntry) × (get_entry_by_hash c e.skip ≡ some s)
        × (back c (e.height - get_skip_height e.height) e ≡ some s)
  pub main_below :
      (e : ChainEntry)
      → IsKnown c e
      → 0 < e.height
      → lookup e.height c.entry_cache.height ≡ some e.hash
      → lookup (e.height - 1) c.entry_cache.height ≡ some e.prev_block

module _ (c : ChainDb) (linked : IsLinked c) where
  pub known : (h : BlockHash) (e : ChainEntry) → get_entry_by_hash c h ≡ some e → IsKnown c e
  known h e found = ap (get_entry_by_hash c) (linked.own_hash h e found) ∙ found

  -- Following `prev_block` succeeds down to height 0, and lowers the height by one at a step.
  pub back-height :
      (n : ℕ) (e : ChainEntry)
      → IsKnown c e
      → n ≤ e.height
      → (r : ChainEntry) × (back c n e ≡ some r) × (r.height + n ≡ e.height) × IsKnown c r
  unfolding back
  back-height zero e k h = (e, refl, omega arith, k)
  back-height (suc n) e k h =
      let (p, found, below) = linked.parent e k (omega arith) in
      let (r, run, low, kr) = back-height n p (known e.prev_block p found) (omega arith) in
      (r, rw found run, omega arith, kr)

  pub back-add :
      (m n : ℕ) (e : ChainEntry) {s : ChainEntry}
      → back c m e ≡ some s
      → back c (m + n) e ≡ back c n s
  unfolding back
  back-add zero n e run = rw zero-add (cc)
  back-add (suc m) n e run =
      let (p, found, rest) = >>=-eq-some (get_entry_by_hash c e.prev_block) _ run in
      rw (suc-add, found) (back-add m n p rest)

  next_step-cases :
      (e : ChainEntry) (height : ℕ)
      → e.height < 2 ^ 31
      → height < e.height
      → (next_step e height ≡ e.prev_block)
        ⊎ ((next_step e height ≡ e.skip) × (e.skip ≢ 0) × (height ≤ get_skip_height e.height))
  unfolding next_step
  next_step-cases e height small low = ground (arith, get_skip_height-lt e.height)

  -- The entry that a round of the loop goes to is the ancestor some steps back, not below `height`.
  next_entry :
      (e : ChainEntry) (height : ℕ)
      → IsKnown c e
      → height < e.height
      → (s : ChainEntry) × (j : ℕ) × (get_entry_by_hash c (next_step e height) ≡ some s)
        × (back c (suc j) e ≡ some s)
        × (s.height + suc j ≡ e.height)
        × (height ≤ s.height)
        × IsKnown c s
  unfolding back
  next_entry e height k low = elim (next_step-cases e height (linked.in_range e k) low) [
    | inl along ↦
        let (p, found, below) = linked.parent e k (omega arith) in
        (
          p,
          0,
          ap (get_entry_by_hash c) along ∙ found,
          rw found refl,
          omega arith,
          omega arith,
          known e.prev_block p found,
        )
    | inr (jumps, has_skip, above) ↦
        let (s, found, run) = linked.skips e k (omega arith) has_skip in
        let j = e.height - get_skip_height e.height - 1 in
        let less = get_skip_height-lt e.height (omega arith) in
        let count : e.height - get_skip_height e.height ≡ suc j = omega (arith, less) in
        let (r, run', high, _) = back-height (suc j) e k (omega (arith, less)) in
        let run'' : back c (suc j) e ≡ some s = ap (λ n. back c n e) (sym count) ∙ run in
        let same : r ≡ s = cc in
        let at : s.height + suc j ≡ e.height =
          ap (λ (x : ChainEntry). x.height + suc j) (sym same) ∙ high in
        (
          s,
          j,
          ap (get_entry_by_hash c) jumps ∙ found,
          run'',
          at,
          omega (arith, less, at),
          known e.skip s found,
        )
  ]

  arrived :
      (e : ChainEntry) (height : ℕ) → e.height ≡ height → some e ≡ back c (e.height - height) e
  unfolding back
  arrived e height h = let none_left : e.height - height ≡ 0 = omega arith in rw none_left refl

  -- The loop agrees with the reference, given as much fuel as there are heights to descend.
  walk-back :
      (fuel : ℕ) (e : ChainEntry) (height : ℕ)
      → IsKnown c e
      → height ≤ e.height
      → e.height ≤ height + fuel
      → walk fuel c e height ≡ back c (e.height - height) e
  unfolding walk
  walk-back zero e height k low enough =
      rw ((nat_beq_iff e.height height).1 (omega arith)) (arrived e height (omega arith))
  walk-back (suc fuel) e height k low enough = elim (Bool-cases (nat_beq e.height height)) [
    | inl here ↦ rw here (arrived e height ((nat_beq_iff e.height height).0 here))
    | inr away ↦
        let (s, j, found, run, high, above, ks) = next_entry e height k (ground arith) in
        let steps : suc j + (s.height - height) ≡ e.height - height = omega arith in
        rw (away, found)
          (walk-back fuel s height ks above (omega arith)
            ∙ sym (back-add (suc j) (s.height - height) e run)
            ∙ ap (λ n. back c n e) steps)
  ]

  -- On the main chain the index names every ancestor.
  back-main :
      (n : ℕ) (e r : ChainEntry)
      → IsKnown c e
      → n ≤ e.height
      → lookup e.height c.entry_cache.height ≡ some e.hash
      → back c n e ≡ some r
      → lookup r.height c.entry_cache.height ≡ some r.hash
  unfolding back
  back-main zero e r k h main run = ground arith
  back-main (suc n) e r k h main run =
      let (p, found, below) = linked.parent e k (omega arith) in
      let main' = linked.main_below e k (omega arith) main in
      let at : e.height - 1 ≡ p.height = omega arith in
      let main'' : lookup p.height c.entry_cache.height ≡ some p.hash =
        ap (λ n. lookup n c.entry_cache.height) (sym at)
        ∙ main'
        ∙ ap some (sym (linked.own_hash e.prev_block p found)) in
      back-main n p r (known e.prev_block p found) (omega arith) main'' (rw found at run)

  main_hash :
      (e : ChainEntry)
      → is_main_chain c e ≡ true
      → lookup e.height c.entry_cache.height ≡ some e.hash
  unfolding is_main_chain
  main_hash e m = ground arith

  by_height :
      (r : ChainEntry) (height : ℕ)
      → IsKnown c r
      → r.height ≡ height
      → lookup r.height c.entry_cache.height ≡ some r.hash
      → get_entry_by_height c height ≡ some (some r)
  unfolding get_entry_by_height get_entry_by_hash
  by_height r height k at main = ground arith

  -- For an entry of a linked database and a height not above its own, `get_ancestor` does not panic:
  -- it gives the entry at that height that following `prev_block` leads to, whether it reads the
  -- index of the main chain or walks by skip pointers.
  pub get_ancestor-back :
      (e : ChainEntry) (height : ℕ)
      → IsKnown c e
      → height ≤ e.height
      → (r : ChainEntry) × (get_ancestor c e height ≡ some r)
        × (back c (e.height - height) e ≡ some r)
        × (r.height ≡ height)
  unfolding get_ancestor
  get_ancestor-back e height k low =
      let (r, run, high, kr) = back-height (e.height - height) e k (omega arith) in
      let at : r.height ≡ height = omega arith in
      let ok_height : leb height e.height ≡ true = ground arith in
      (
        r,
        elim (Bool-cases (is_main_chain c e)) [
          | inl m ↦
              let main = back-main (e.height - height) e r k (omega arith) (main_hash e m) run in
              rw (ok_height, m, by_height r height kr at main) refl
          | inr off ↦
              rw (ok_height, off) (walk-back (e.height - height) e height k low (omega arith) ∙ run)
        ],
        run,
        at,
      )
