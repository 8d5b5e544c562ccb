-- ===== src/Net/BloomFilter/Laws.antt =====
-- The filter of src/net/bloom_filter.rs never misses what was inserted.
use native.Mathlib.Nat.{mod-lt}
use rust_bitcoin_node.Prelude.{
  ℕ, zero, suc, ◌+◌, ◌*◌, ◌%◌, ◌≤◌, ◌<◌, ◌≡◌, refl, sym, ap, ◌∙◌, true, false, List, [], none, some,
  length, nat_beq, nat_beq_iff, arith, Bool-cases, inl, inr, if◌then◌else◌,
}
use rust_bitcoin_node.Prelude.Words.{add32, mul32}
use rust_bitcoin_node.Net.BloomFilter.{
  BloomFilter, FilterLoad, clear, contains, from_filter_load, hash, insert, is_clear, set_bits,
  test_bits,
}
use rust_bitcoin_node.Net.BloomFilter.Bytes.{AreBytes, is_clear-some, set_bit_lem}

module _ (murmur3_32 : List ℕ → ℕ → ℕ) where
  pub hash-some :
      (len tweak i : ℕ) (key : List ℕ)
      → 0 < len
      → (index : ℕ) × (hash murmur3_32 len tweak i key ≡ some index) × (index < len * 8)
  unfolding hash
  hash-some len tweak i key some_len = (
    murmur3_32 key (add32 (mul32 i 0xFBA4C795) tweak) % (len * 8),
    ground arith,
    mod-lt _ (omega arith),
  )

  no_test :
      (n tweak : ℕ) (key : List ℕ)
      → test_bits murmur3_32 n 0 tweak [] key ≡ (if nat_beq n 0 then some true else none)
  unfolding test_bits hash
  no_test zero tweak key = refl
  no_test (suc n) tweak key = ground arith

  no_set :
      (n tweak : ℕ) (key : List ℕ)
      → set_bits murmur3_32 n 0 tweak [] key ≡ (if nat_beq n 0 then some [] else none)
  unfolding set_bits hash
  no_set zero tweak key = refl
  no_set (suc n) tweak key = ground arith

  -- The bits of the hashes from one on are set.
  AllSet : ℕ → ℕ → ℕ → List ℕ → List ℕ → Type 0
  AllSet n i tweak bytes key =
      (k index : ℕ)
      → i ≤ k
      → k < i + n
      → hash murmur3_32 (length bytes) tweak k key ≡ some index
      → is_clear bytes index ≡ some false

  -- The bits that are set stay set.
  abbrev Keeps : List ℕ → List ℕ → Type 0
  Keeps bytes bytes' =
      (j : ℕ)
      → j < length bytes * 8
      → is_clear bytes j ≡ some false
      → is_clear bytes' j ≡ some false

  test_bits-AllSet :
      (n i tweak : ℕ) (bytes key : List ℕ)
      → 0 < length bytes
      → AllSet n i tweak bytes key
      → test_bits murmur3_32 n i tweak bytes key ≡ some true
  unfolding test_bits AllSet
  test_bits-AllSet zero i tweak bytes key some_len set = refl
  test_bits-AllSet (suc n) i tweak bytes key some_len set =
      let (index, found, low) = hash-some (length bytes) tweak i key some_len in
      let here = set i index (omega arith) (omega arith) found in
      let rest =
        test_bits-AllSet n (suc i) tweak bytes key some_len
          (λ k index low high at. set k index (omega arith) (omega arith) at) in
      ground arith

  AllSet-test_bits :
      (n i tweak : ℕ) (bytes key : List ℕ)
      → 0 < length bytes
      → test_bits murmur3_32 n i tweak bytes key ≡ some true
      → AllSet n i tweak bytes key
  unfolding test_bits AllSet
  AllSet-test_bits zero i tweak bytes key some_len e k index low high at = absurd (omega arith)
  AllSet-test_bits (suc n) i tweak bytes key some_len e k index low high at =
      let (index₀, found, low₀) = hash-some (length bytes) tweak i key some_len in
      let (b, bit) = is_clear-some bytes index₀ low₀ in
      let zero_bit : b ≡ false = ground arith in
      let rest : test_bits murmur3_32 n (suc i) tweak bytes key ≡ some true = ground arith in
      elim (Bool-cases (nat_beq i k)) [
        | inl here ↦ ground (arith, (nat_beq_iff i k).0 here)
        | inr later ↦
            AllSet-test_bits n (suc i) tweak bytes key some_len rest k index (ground arith)
              (omega arith) at
      ]

  set_bits_lem :
      (n i tweak : ℕ) (bytes key : List ℕ)
      → 0 < length bytes
      → AreBytes bytes
      → (bytes' : List ℕ) × (set_bits murmur3_32 n i tweak bytes key ≡ some bytes')
        × AreBytes bytes'
        × (length bytes' ≡ length bytes)
        × Keeps bytes bytes'
        × AllSet n i tweak bytes' key
  unfolding set_bits AllSet
  set_bits_lem zero i tweak bytes key some_len small =
      (bytes, refl, small, refl, λ j low set. set, λ k index low high at. absurd (omega arith))
  set_bits_lem (suc n) i tweak bytes key some_len small =
      let (index, found, low) = hash-some (length bytes) tweak i key some_len in
      let (bytes₁, step, small₁, size₁, bits) = set_bit_lem index bytes low small in
      let (bytes', done, small', size, keeps, set) =
        set_bits_lem n (suc i) tweak bytes₁ key (omega arith) small₁ in
      (
        bytes',
        rw (found, step) done,
        small',
        size ∙ size₁,
        λ j low_j was. keeps j (omega (arith, size₁)) (ground (arith, bits j low_j)),
        λ k other from to at. elim (Bool-cases (nat_beq i k)) [
          | inl here ↦
              let at' : hash murmur3_32 (length bytes) tweak i key ≡ some other =
                ap (λ l. hash murmur3_32 l tweak i key) (sym (size ∙ size₁))
                ∙ ap (λ m. hash murmur3_32 (length bytes') tweak m key) ((nat_beq_iff i k).0 here)
                ∙ at in
              let same : index ≡ other = ground arith in
              let first : is_clear bytes₁ index ≡ some false =
                ground (arith, bits index low, nat_beq_iff index index) in
              ap (is_clear bytes') (sym same) ∙ keeps index (omega (arith, size₁)) first
          | inr later ↦ set k other (ground arith) (omega arith) at
        ],
      )

  -- A key that a filter has, it has after bits were set.
  still-AllSet :
      (n i tweak : ℕ) (bytes bytes' key : List ℕ)
      → 0 < length bytes
      → length bytes' ≡ length bytes
      → Keeps bytes bytes'
      → AllSet n i tweak bytes key
      → AllSet n i tweak bytes' key
  unfolding AllSet
  still-AllSet n i tweak bytes bytes' key some_len size keeps set k index low high at =
      let at' : hash murmur3_32 (length bytes) tweak k key ≡ some index =
        ap (λ l. hash murmur3_32 l tweak k key) (sym size) ∙ at in
      let (other, found, small) = hash-some (length bytes) tweak k key some_len in
      let same : other ≡ index = ground arith in
      keeps index (omega arith) (set k index low high at')

  -- For a filter of at least one byte, `insert` does not panic. The filter has the key after it, and every
  -- key that it had before; its bytes are bytes, as many as before.
  pub contains-insert :
      (bf : BloomFilter) (key : List ℕ)
      → 0 < length bf.filter
      → AreBytes bf.filter
      → (bf' : BloomFilter) × (insert murmur3_32 bf key ≡ some bf')
        × (contains murmur3_32 bf' key ≡ some true)
        × ((other : List ℕ)
            → contains murmur3_32 bf other ≡ some true
            → contains murmur3_32 bf' other ≡ some true)
        × AreBytes bf'.filter
        × (length bf'.filter ≡ length bf.filter)
  unfolding insert contains
  contains-insert bf key some_len small = elim (Bool-cases bf.is_full) [
    | inl full ↦ (bf, ground arith, ground arith, λ other had. had, small, refl)
    | inr room ↦
        let (bytes, done, small', size, keeps, set) =
          set_bits_lem bf.hash_funcs 0 bf.tweak bf.filter key some_len small in
        let found = test_bits-AllSet bf.hash_funcs 0 bf.tweak bytes key (omega arith) set in
        (
          record bf { filter = bytes; is_empty = false },
          ground arith,
          ground arith,
          λ other had.
              let had' : test_bits murmur3_32 bf.hash_funcs 0 bf.tweak bf.filter other ≡ some true =
                ground arith in
              let set_before =
                AllSet-test_bits bf.hash_funcs 0 bf.tweak bf.filter other some_len had' in
              let set_after =
                still-AllSet bf.hash_funcs 0 bf.tweak bf.filter bytes other some_len size keeps
                  set_before in
              let found_after =
                test_bits-AllSet bf.hash_funcs 0 bf.tweak bytes other (omega arith) set_after in
              ground arith,
          small',
          size,
        )
  ]

  -- A filter message without bytes makes a filter whose `contains` and `insert` panic where it has a hash
  -- or more, for the remainder is taken by the number of bits, which is zero; without hashes it has every
  -- key. After `clear`, whatever the filter had, `contains` finds nothing, but `insert` panics where there
  -- is a hash or more.
  pub insert-clear :
      (fl : FilterLoad) (bf : BloomFilter) (key : List ℕ)
      → fl.filter ≡ []
      → (contains murmur3_32 (from_filter_load fl) key
          ≡ (if nat_beq fl.hash_funcs 0 then some true else none))
        × (insert murmur3_32 (from_filter_load fl) key ≡ (
            if nat_beq fl.hash_funcs 0
            then some (record (from_filter_load fl) { is_empty = false })
            else none))
        × (contains murmur3_32 (clear bf) key ≡ some false)
        × (insert murmur3_32 (clear bf) key ≡ (
            if nat_beq bf.hash_funcs 0
            then some (record (clear bf) { is_empty = false })
            else none))
  unfolding insert contains clear from_filter_load
  insert-clear fl bf key none_there = (
    rw none_there (no_test fl.hash_funcs fl.tweak key),
    rw none_there (rw (no_set fl.hash_funcs fl.tweak key) (ground arith)),
    refl,
    rw (no_set bf.hash_funcs bf.tweak key) (ground arith),
  )
