-- ===== src/Blockchain/Branches/Common.antt =====
-- `common_ancestor` of src/blockchain/chain.rs in a linked database.
use mathlib.Core.Path.{subst}
use rust_bitcoin_node.Prelude.{
  ℕ, zero, suc, ◌+◌, ◌-◌, ◌≤◌, ◌<◌, ◌≡◌, refl, sym, ◌∙◌, ap, inl, inr, false, some, ltb, nat_beq,
  arith, Bool-cases, nat_beq_iff, nat_eq, if◌then◌else◌,
}
use rust_bitcoin_node.Blockchain.Entry.{ChainEntry}
use rust_bitcoin_node.Blockchain.Db.{ChainDb, get_entry_by_hash}
use rust_bitcoin_node.Blockchain.Ancestor.{get_ancestor}
use rust_bitcoin_node.Blockchain.Ancestor.Laws.{
  IsKnown, IsLinked, back, back-add, back-height, get_ancestor-back, known,
}
use rust_bitcoin_node.Blockchain.Branches.{common_ancestor, meet}

-- All the entries without a block below them are one.
abbrev pub HasOneGenesis : ChainDb → Type 0
HasOneGenesis c =
    (a b : ChainEntry) → IsKnown c a → IsKnown c b → a.height ≡ 0 → b.height ≡ 0 → a.hash ≡ b.hash

module _ (c : ChainDb) (linked : IsLinked c) where
  same_entry : (a b : ChainEntry) → IsKnown c a → IsKnown c b → a.hash ≡ b.hash → a ≡ b
  same_entry a b ka kb same =
      let e = ap (get_entry_by_hash c) same in let both : some a ≡ some b = sym ka ∙ e ∙ kb in cc

  -- The entry that is the same number of blocks below both, and no sooner.
  abbrev Met : ChainEntry → ChainEntry → ChainEntry → Type 0
  Met a b r =
      (n : ℕ) × (n ≤ a.height)
      × (back c n a ≡ some r)
      × (back c n b ≡ some r)
      × ((k : ℕ) (s : ChainEntry) → back c k a ≡ some s → back c k b ≡ some s → n ≤ k)

  not_sooner :
      (a b p q : ChainEntry) (n k : ℕ) (s : ChainEntry)
      → nat_beq a.hash b.hash ≡ false
      → get_entry_by_hash c a.prev_block ≡ some p
      → get_entry_by_hash c b.prev_block ≡ some q
      → ((k : ℕ) (s : ChainEntry) → back c k p ≡ some s → back c k q ≡ some s → n ≤ k)
      → back c k a ≡ some s
      → back c k b ≡ some s
      → suc n ≤ k
  unfolding back
  not_sooner a b p q n zero s apart found_p found_q least run_a run_b =
      let same : a ≡ b = cc in absurd (ground (arith, ap (λ (e : ChainEntry). e.hash) same))
  not_sooner a b p q n (suc k) s apart found_p found_q least run_a run_b =
      let run_p : back c k p ≡ some s = rw found_p at run_a in
      let run_q : back c k q ≡ some s = rw found_q at run_b in omega (arith, least k s run_p run_q)

  meet_lem :
      (fuel : ℕ) (a b : ChainEntry)
      → HasOneGenesis c
      → IsKnown c a
      → IsKnown c b
      → a.height ≡ b.height
      → a.height ≤ fuel
      → (r : ChainEntry) × (meet fuel c a b ≡ some (some r)) × Met a b r
  unfolding meet back
  meet_lem zero a b one ka kb level low =
      let same = one a b ka kb (omega arith) (omega arith) in
      let e = same_entry a b ka kb same in
      (
        a,
        ground (arith, nat_beq_iff a.hash b.hash),
        (0, omega arith, refl, ap some (sym e), λ k s p q. omega arith),
      )
  meet_lem (suc fuel) a b one ka kb level low = elim (Bool-cases (nat_beq a.hash b.hash)) [
    | inl same ↦
        let e = same_entry a b ka kb ((nat_beq_iff a.hash b.hash).0 same) in
        (a, rw same refl, (0, omega arith, refl, ap some (sym e), λ k s p q. omega arith))
    | inr apart ↦
        let high : 0 < a.height = elim (Bool-cases (nat_beq a.height 0)) [
          | inl zero_a ↦
              let at = (nat_beq_iff a.height 0).0 zero_a in
              absurd (ground (arith, one a b ka kb at (omega arith), nat_beq_iff a.hash b.hash))
          | inr above ↦ ground arith
        ] in
        let (p, found_p, below_p) = linked.parent a ka high in
        let (q, found_q, below_q) = linked.parent b kb (omega arith) in
        let (r, run, (n, low_n, to_a, to_b, least)) =
          meet_lem fuel p q one (known c linked a.prev_block p found_p)
            (known c linked b.prev_block q found_q) (omega arith) (omega arith) in
        (
          r,
          ground arith,
          (
            suc n,
            omega arith,
            rw found_p to_a,
            rw found_q to_b,
            λ k s run_a run_b. not_sooner a b p q n k s apart found_p found_q least run_a run_b,
          ),
        )
  ]

  -- The highest entry that is at or below both.
  abbrev pub IsHighest : ChainEntry → ChainEntry → ChainEntry → Type 0
  IsHighest a b r =
      (s : ChainEntry) (m n : ℕ)
      → m ≤ a.height
      → n ≤ b.height
      → back c m a ≡ some s
      → back c n b ≡ some s
      → s.height ≤ r.height

  -- The entry that is compared: no higher than the other one.
  level_lem :
      (e : ChainEntry) (height : ℕ)
      → IsKnown c e
      → (r : ChainEntry) × (n : ℕ) × ((if ltb height e.height
            then get_ancestor c e height
            else some e)
          ≡ some r)
        × (back c n e ≡ some r)
        × (r.height + n ≡ e.height)
        × (r.height ≤ height)
        × (height < e.height → r.height ≡ height)
        × (e.height ≤ height → r.height ≡ e.height)
        × IsKnown c r
  unfolding back
  level_lem e height ke = elim (Bool-cases (ltb height e.height)) [
    | inr low ↦ (
      e,
      0,
      rw low refl,
      refl,
      omega arith,
      ground arith,
      λ h. absurd (ground arith),
      λ h. refl,
      ke,
    )
    | inl high ↦
        let (r, found, run, at) = get_ancestor-back c linked e height ke (ground arith) in
        let (r', run', down, kr) = back-height c linked (e.height - height) e ke (omega arith) in
        let same : r' ≡ r = cc in
        (
          r,
          e.height - height,
          rw high found,
          run,
          ground arith,
          omega arith,
          λ h. at,
          λ h. absurd (ground arith),
          subst (IsKnown c) same kr,
        )
  ]

  -- Where an entry stands on the way down from another.
  height_of :
      (e s : ChainEntry) (m : ℕ)
      → IsKnown c e
      → m ≤ e.height
      → back c m e ≡ some s
      → s.height + m ≡ e.height
  height_of e s m ke low run =
      let (r, run', down, _) = back-height c linked m e ke low in
      let same : r ≡ s = cc in omega (arith, ap (λ (x : ChainEntry). x.height) same)

  from_level :
      (e r s : ChainEntry) (n m : ℕ)
      → back c n e ≡ some r
      → back c m e ≡ some s
      → n ≤ m
      → back c (m - n) r ≡ some s
  from_level e r s n m run_r run_s low =
      let count : n + (m - n) ≡ m = omega arith in
      sym (back-add c linked n (m - n) e run_r) ∙ ap (λ k. back c k e) count ∙ run_s

  -- For two entries of a linked database with one genesis block, `common_ancestor` ends without a panic
  -- and finds an entry that following `prev_block` leads to from both, the highest that there is.
  pub common_ancestor-IsHighest :
      (a b : ChainEntry)
      → HasOneGenesis c
      → IsKnown c a
      → IsKnown c b
      → (r : ChainEntry) × (common_ancestor c a b ≡ some (some r))
        × (back c (a.height - r.height) a ≡ some r)
        × (back c (b.height - r.height) b ≡ some r)
        × IsHighest a b r
  unfolding common_ancestor
  common_ancestor-IsHighest a b one ka kb =
      let (a', i, found_a, run_a, down_a, under_a, to_b, own_a, ka') = level_lem a b.height ka in
      let (b', j, found_b, run_b, down_b, under_b, to_a, own_b, kb') = level_lem b a.height kb in
      let level : a'.height ≡ b'.height = ground (arith, to_b, own_a, to_a, own_b) in
      let (r, done, (n, low_n, up_a, up_b, least)) =
        meet_lem a'.height a' b' one ka' kb' level (omega arith) in
      let at = height_of a' r n ka' low_n up_a in
      let count_a : i + n ≡ a.height - r.height = omega arith in
      let count_b : j + n ≡ b.height - r.height = omega arith in
      (
        r,
        rw (found_a, found_b) done,
        ap (λ k. back c k a) (sym count_a) ∙ back-add c linked i n a run_a ∙ up_a,
        ap (λ k. back c k b) (sym count_b) ∙ back-add c linked j n b run_b ∙ up_b,
        λ s k l low_k low_l run_k run_l.
            let at_k = height_of a s k ka low_k run_k in
            let at_l = height_of b s l kb low_l run_l in
            let under : s.height ≤ a'.height = ground (arith, to_b, own_a) in
            let up_s = from_level a a' s i k run_a run_k (omega arith) in
            let up_t = from_level b b' s j l run_b run_l (omega arith) in
            let same : l - j ≡ k - i = omega arith in
            let sooner = least (k - i) s up_s (ap (λ m. back c m b') (sym same) ∙ up_t) in
            omega arith,
      )
