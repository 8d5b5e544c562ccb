-- ===== src/Blockchain/Deployments/Laws.antt =====
-- What the states of the deployments in src/blockchain/chain.rs come from: the count of the blocks
-- that signal, and the order in which the periods are evaluated.
use rust_bitcoin_node.Prelude.{
  ℕ, zero, suc, ◌+◌, ◌-◌, ◌%◌, ◌≤◌, ◌<◌, ◌≡◌, refl, sym, ◌∙◌, ap, ◌↔◌, inl, inr, true, false, List,
  [], ◌∷◌, Option, none, some, lookup, contains, nat_beq, ltb, if◌then◌else◌, arith, Bool-cases,
  Option-cases, nat_eq,
}
use rust_bitcoin_node.Prelude.Words.{add32}
use rust_bitcoin_node.Bitcoin.{BlockHash}
use rust_bitcoin_node.Protocol.VersionBits.{
  ThresholdState, StartTime, Deployment, defined, active, failed, always_active, start_time,
}
use rust_bitcoin_node.Protocol.Consensus.{median_timespan}
use rust_bitcoin_node.Protocol.Network.{NetworkParams}
use rust_bitcoin_node.Blockchain.Entry.{ChainEntry, has_bit}
use rust_bitcoin_node.Blockchain.VersionBitsCache
use rust_bitcoin_node.Blockchain.VersionBitsCache.{BitKey, bit_key_eq}
use rust_bitcoin_node.Blockchain.Db.{ChainDb, get_entry_by_hash}
use rust_bitcoin_node.Blockchain.Ancestor.{get_ancestor}
use rust_bitcoin_node.Blockchain.Ancestor.Laws.{IsLinked, IsKnown, get_ancestor-back, back-height}
use rust_bitcoin_node.Blockchain.Time.{times, median_of, get_median_time, get_median_time_lem}
use rust_bitcoin_node.Blockchain.Deployments.{
  cache_status, is_timed_out, reaches_threshold, next_status, run_status, collect, period_end,
  status_at, status_after, get_deployment_status,
}

-- How many of a block and the blocks before it, `rounds` in all or as many as there are, set a bit.
pub signals : ℕ → ChainDb → ℕ → ChainEntry → ℕ
signals zero c bit block = 0
signals (suc rounds) c bit block =
    (if has_bit block bit then 1 else 0) + elim (get_entry_by_hash c block.prev_block) [
      | none ↦ 0
      | some prev ↦ signals rounds c bit prev
    ]

-- With a count so far that is below the threshold, the loop that counts the signalling blocks of a
-- window, and stops early, finds that the threshold is reached exactly if the count and the number
-- of the blocks that signal come to at least the threshold.
pub reaches_threshold_lem :
    (rounds : ℕ) (c : ChainDb) (bit threshold count : ℕ) (block : ChainEntry)
    → count < threshold
    → (reaches_threshold rounds c bit threshold count block ≡ some true)
      ↔ (threshold ≤ count + signals rounds c bit block)
unfolding reaches_threshold signals
reaches_threshold_lem zero c bit threshold count block low = ground arith
reaches_threshold_lem (suc rounds) c bit threshold count block low =
    elim (Option-cases (get_entry_by_hash c block.prev_block)) [
      | inl missing ↦ ground (arith, missing)
      | inr (prev, found) ↦ ground (
        arith,
        found,
        reaches_threshold_lem rounds c bit threshold count prev,
        reaches_threshold_lem rounds c bit threshold (suc count) prev,
      )
    ]

-- The databases differ at most in the states that are cached, of the same bits.
abbrev IsSameBut : ChainDb → ChainDb → Type 0
IsSameBut c d =
    (d.entry_cache ≡ c.entry_cache) × (d.version_bits_cache.bits ≡ c.version_bits_cache.bits)

times-IsSameBut :
    (c d : ChainDb)
    → d.entry_cache ≡ c.entry_cache
    → (n : ℕ) (e : Option ChainEntry) → times n d e ≡ times n c e
unfolding times get_entry_by_hash
times-IsSameBut c d same zero e = refl
times-IsSameBut c d same (suc n) none = refl
times-IsSameBut c d same (suc n) (some e) =
    ap (λ es. e.time ∷ times n d (lookup e.prev_block es.hash)) same
    ∙ ap (λ ts. e.time ∷ ts) (times-IsSameBut c d same n (lookup e.prev_block c.entry_cache.hash))

median-IsSameBut :
    (c d : ChainDb)
    → d.entry_cache ≡ c.entry_cache
    → (e : ChainEntry) → get_median_time d e ≡ get_median_time c e
unfolding get_median_time
median-IsSameBut c d same e = ap median_of (times-IsSameBut c d same median_timespan (some e))

-- No state of the bit is cached.
abbrev IsCold : ChainDb → ℕ → Type 0
IsCold c bit =
    (h : BlockHash)
    → let key : BitKey = record { bit = bit; hash = h } in
      lookup key c.version_bits_cache.states ≡ none

-- The cache takes a state of a known bit.
cache_status-ok :
    (c : ChainDb) (bit : ℕ) (e : ChainEntry) (state : ThresholdState)
    → contains bit c.version_bits_cache.bits ≡ true
    → (d : ChainDb) × (cache_status c bit e state ≡ some d) × IsSameBut c d
unfolding cache_status VersionBitsCache.set
cache_status-ok c bit e state known =
    let cache = c.version_bits_cache in
    let key : BitKey = record { bit = bit; hash = e.hash } in
    let stale = VersionBitsCache.is_stale (lookup key cache.states) state in
    (
      record c {
        version_bits_cache = if stale then VersionBitsCache.set_key cache key state else cache;
      },
      rw known refl,
      (refl, elim (Bool-cases stale) [ inl stays ↦ rw stays refl | inr kept ↦ rw kept refl ]),
    )

-- From `failed` the evaluation stays there.
run_status-failed :
    (network : NetworkParams) (deployment : Deployment) (start : ℕ) (compute : List ChainEntry)
    (c : ChainDb)
    → contains deployment.bit c.version_bits_cache.bits ≡ true
    → (d : ChainDb) × (run_status network deployment start compute c failed ≡ some (d, failed))
unfolding run_status next_status
run_status-failed network deployment start [] c known = (c, refl)
run_status-failed network deployment start (e ∷ es) c known =
    let (d, ok, same) = cache_status-ok c deployment.bit e failed known in
    let (d', rest) = run_status-failed network deployment start es d (rw same.1 known) in
    (d', rw ok rest)

-- An ancestor of a known entry is known.
ancestor-IsKnown :
    (c : ChainDb) (e : ChainEntry) (height : ℕ)
    → IsLinked c
    → IsKnown c e
    → height ≤ e.height
    → (r : ChainEntry) × (get_ancestor c e height ≡ some r) × (r.height ≡ height) × IsKnown c r
ancestor-IsKnown c e height linked k low =
    let (r, run, steps, at) = get_ancestor-back c linked e height k low in
    let (r', steps', _, known) = back-height c linked (e.height - height) e k (omega arith) in
    let same : some r' ≡ some r = sym steps' ∙ steps in (r, run, at, cc)

module _ (network : NetworkParams) (deployment : Deployment) (start : ℕ) where
  -- With nothing cached the first loop ends, and has `defined` to begin with.
  collect-ok :
      (fuel : ℕ) (c : ChainDb) (e : ChainEntry)
      → IsLinked c
      → IsKnown c e
      → 0 < network.miner_confirmation_window
      → IsCold c deployment.bit
      → contains deployment.bit c.version_bits_cache.bits ≡ true
      → e.height < fuel
      → (d : ChainDb) × (es : List ChainEntry) × (collect fuel network deployment start c e
          ≡ some (d, defined, es))
        × IsSameBut c d
  unfolding collect VersionBitsCache.get
  collect-ok zero c e linked k wide cold known low = absurd (omega arith)
  collect-ok (suc fuel) c e linked k wide cold known low =
      let (m, median, _, _) = get_median_time_lem c e in
      let (d, cached, same) = cache_status-ok c deployment.bit e defined known in
      elim (Bool-cases (ltb m start)) [
        | inl early ↦ (d, [], rw (known, cold e.hash, median, early, cached) refl, same)
        | inr late ↦ elim (Bool-cases (ltb e.height network.miner_confirmation_window)) [
          | inl first ↦ (c, e ∷ [], rw (known, cold e.hash, median, late, first) refl, (refl, refl))
          | inr further ↦
              let (r, run, at, kr) =
                ancestor-IsKnown c e (e.height - network.miner_confirmation_window) linked k
                  (omega arith) in
              let (d', es, rest, same') =
                collect-ok fuel c r linked kr wide cold known (ground arith) in
              (d', e ∷ es, rw (known, cold e.hash, median, late, further, run, rest) refl, same')
        ]
      ]

  -- Where the time of the entry is not before the start, the entry is the first of the list.
  collect-first :
      (c : ChainDb) (e : ChainEntry) (m : ℕ)
      → IsLinked c
      → IsKnown c e
      → 0 < network.miner_confirmation_window
      → IsCold c deployment.bit
      → contains deployment.bit c.version_bits_cache.bits ≡ true
      → get_median_time c e ≡ some m
      → start ≤ m
      → (d : ChainDb) × (es : List ChainEntry) × (collect
            (suc e.height)
            network
            deployment
            start
            c
            e
          ≡ some (d, defined, e ∷ es))
        × IsSameBut c d
  unfolding collect VersionBitsCache.get
  collect-first c e m linked k wide cold known median reached =
      let late : ltb m start ≡ false = ground arith in
      elim (Bool-cases (ltb e.height network.miner_confirmation_window)) [
        | inl first ↦ (c, [], rw (known, cold e.hash, median, late, first) refl, (refl, refl))
        | inr further ↦
            let (r, run, at, kr) =
              ancestor-IsKnown c e (e.height - network.miner_confirmation_window) linked k
                (omega arith) in
            let (d, es, rest, same) =
              collect-ok e.height c r linked kr wide cold known (ground arith) in
            (d, es, rw (known, cold e.hash, median, late, further, run, rest) refl, same)
      ]

  status_after-failed :
      (c : ChainDb) (e : ChainEntry) (m : ℕ)
      → IsLinked c
      → IsKnown c e
      → 0 < network.miner_confirmation_window
      → IsCold c deployment.bit
      → contains deployment.bit c.version_bits_cache.bits ≡ true
      → add32 e.height 1 % network.miner_confirmation_window ≡ 0
      → get_median_time c e ≡ some m
      → start ≤ m
      → is_timed_out deployment.timeout m ≡ true
      → (d : ChainDb) × (status_after network c e deployment start ≡ some (d, failed))
  unfolding status_after status_at period_end run_status next_status
  status_after-failed c e m linked k wide cold known ends median reached over =
      let (d, es, ran, same) = collect-first c e m linked k wide cold known median reached in
      let known' : contains deployment.bit d.version_bits_cache.bits ≡ true = rw same.1 known in
      let (d', cached, same') = cache_status-ok d deployment.bit e failed known' in
      let (d'', rest) = run_status-failed network deployment start es d' (rw same'.1 known') in
      let some_window : nat_beq network.miner_confirmation_window 0 ≡ false = ground arith in
      (
        d'',
        rw (some_window, ends, ran, median-IsSameBut c d same.0 e, median, over, cached, rest) refl,
      )

  -- In a linked database, for a known entry that ends a period, with a median time that is not
  -- before the start of a deployment and at or after its timeout: where no status of the
  -- deployment is cached, its status is `failed`, whatever it was after the periods before. The
  -- periods are evaluated from the last one to the first.
  pub get_deployment_status-failed :
      (c : ChainDb) (e : ChainEntry) (m : ℕ)
      → IsLinked c
      → IsKnown c e
      → 0 < network.miner_confirmation_window
      → IsCold c deployment.bit
      → contains deployment.bit c.version_bits_cache.bits ≡ true
      → deployment.start_time ≡ start_time start
      → add32 e.height 1 % network.miner_confirmation_window ≡ 0
      → get_median_time c e ≡ some m
      → start ≤ m
      → is_timed_out deployment.timeout m ≡ true
      → (d : ChainDb) × (get_deployment_status network c (some e) deployment ≡ some (d, failed))
  unfolding get_deployment_status
  get_deployment_status-failed c e m linked k wide cold known starts ends median reached over =
      let (d, done) = status_after-failed c e m linked k wide cold known ends median reached over in
      (
        d,
        ap
              (λ (s : StartTime). elim s [
                | always_active ↦ some (c, active)
                | start_time begin ↦ status_after network c e deployment begin
              ])
              starts
            ∙ done,
      )
