-- ===== src/Net/BloomFilter/Found.antt =====
-- The filter of src/net/bloom_filter.rs reports the transactions that it has to report.
use rust_bitcoin_node.Prelude.{
  ℕ, zero, suc, ◌%◌, ◌^◌, ◌<◌, ◌≡◌, refl, ap, Bool, true, false, List, [], ◌∷◌, some, length, arith,
  get_elem?, is_empty, Bool-cases, inl, inr, ◌||◌,
}
use rust_bitcoin_node.Bitcoin.{
  Instruction, Library, OutPoint, Transaction, TxIn, TxOut, Txid, malformed, op, push_bytes,
}
use rust_bitcoin_node.Primitives.Script.{is_multisig}
use rust_bitcoin_node.Net.BloomFilter.{
  BloomFilter, all_outputs, contains, no_update, pubkey_only, test_bits, BloomFlags,
}
use rust_bitcoin_node.Net.BloomFilter.Bytes.{AreBytes, is_clear-some}
use rust_bitcoin_node.Net.BloomFilter.Laws.{contains-insert, hash-some}
use rust_bitcoin_node.Net.BloomFilter.Relevant.{
  FilterLibrary, any_push, contains_hash, contains_outpoint, has_push, insert_outpoint,
  is_relevant_and_update, match_inputs, match_outputs, match_pushes, update_matched,
}

-- A filter that can be used, and one that has all that another has.
abbrev pub IsUsable : BloomFilter → Type 0
IsUsable bf = (0 < length bf.filter) × AreBytes bf.filter

abbrev pub Extends : (List ℕ → ℕ → ℕ) → BloomFilter → BloomFilter → Type 0
Extends murmur3_32 bf bf' =
    IsUsable bf'
    × ((key : List ℕ)
        → contains murmur3_32 bf key ≡ some true
        → contains murmur3_32 bf' key ≡ some true)

module _ (f : FilterLibrary) where
  test_bits-some :
      (n i tweak : ℕ) (bytes key : List ℕ)
      → 0 < length bytes
      → (b : Bool) × (test_bits f.murmur3_32 n i tweak bytes key ≡ some b)
  unfolding test_bits
  test_bits-some zero i tweak bytes key some_len = (true, refl)
  test_bits-some (suc n) i tweak bytes key some_len =
      let (index, found, low) = hash-some f.murmur3_32 (length bytes) tweak i key some_len in
      let (clear, bit) = is_clear-some bytes index low in
      let (b, rest) = test_bits-some n (suc i) tweak bytes key some_len in
      elim (Bool-cases clear) [
        | inl missing ↦ (false, ground arith)
        | inr there ↦ (b, ground arith)
      ]

  contains-some :
      (bf : BloomFilter) (key : List ℕ)
      → IsUsable bf
      → (b : Bool) × (contains f.murmur3_32 bf key ≡ some b)
  unfolding contains
  contains-some bf key usable =
      let (b, tested) = test_bits-some bf.hash_funcs 0 bf.tweak bf.filter key usable.0 in
      elim (Bool-cases bf.is_full) [
        | inl full ↦ (true, ground arith)
        | inr room ↦ elim (Bool-cases bf.is_empty) [
          | inl empty ↦ (false, ground arith)
          | inr filled ↦ (b, ground arith)
        ]
      ]

  has_push-some :
      (bf : BloomFilter) (instruction : Instruction)
      → IsUsable bf
      → (b : Bool) × (has_push f bf instruction ≡ some b)
  unfolding has_push
  has_push-some bf (push_bytes bytes) usable =
      let (b, tested) = contains-some bf bytes usable in
      elim (Bool-cases (is_empty bytes)) [
        | inl nothing ↦ (false, ground arith)
        | inr some_bytes ↦ (b, ground arith)
      ]
  has_push-some bf (op code) usable = (false, refl)
  has_push-some bf malformed usable = (false, refl)

  any_push-some :
      (bf : BloomFilter) (instructions : List Instruction)
      → IsUsable bf
      → (b : Bool) × (any_push f bf instructions ≡ some b)
  unfolding any_push
  any_push-some bf [] usable = (false, refl)
  any_push-some bf (instruction ∷ instructions) usable =
      let (had, first) = has_push-some bf instruction usable in
      let (b, rest) = any_push-some bf instructions usable in
      elim (Bool-cases had) [ inl h ↦ (true, ground arith) | inr h ↦ (b, ground arith) ]

  insert_outpoint-Extends :
      (bf : BloomFilter) (outpoint : OutPoint)
      → IsUsable bf
      → (bf' : BloomFilter) × (insert_outpoint f bf outpoint ≡ some bf')
        × Extends f.murmur3_32 bf bf'
  unfolding insert_outpoint
  insert_outpoint-Extends bf outpoint usable =
      let (bf', done, _, keeps, small, size) =
        contains-insert f.murmur3_32 bf (f.encode_outpoint outpoint) usable.0 usable.1 in
      (bf', done, ((omega (arith, usable.0), small), keeps))

module _ (f : FilterLibrary) ⦃lib : Library⦄ where
  same-Extends : (bf : BloomFilter) → IsUsable bf → Extends f.murmur3_32 bf bf
  same-Extends bf usable = (usable, λ key had. had)

  matched_by :
      (flags : BloomFlags) (bf : BloomFilter) (txid : Txid) (index : ℕ) (output : TxOut)
      → bf.flags ≡ flags
      → IsUsable bf
      → (bf' : BloomFilter) × (update_matched f bf txid index output ≡ some bf')
        × Extends f.murmur3_32 bf bf'
  unfolding update_matched
  matched_by no_update bf txid index output e usable = (bf, ground arith, same-Extends bf usable)
  matched_by all_outputs bf txid index output e usable =
      let (bf', done, extends) =
        insert_outpoint-Extends f bf (record { txid = txid; vout = index % 2 ^ 32 }) usable in
      (bf', ground arith, extends)
  matched_by pubkey_only bf txid index output e usable =
      let (bf', done, extends) =
        insert_outpoint-Extends f bf (record { txid = txid; vout = index % 2 ^ 32 }) usable in
      elim (Bool-cases (f.is_p2pk output.script_pubkey || is_multisig output.script_pubkey)) [
        | inl matches ↦ (bf', ground arith, extends)
        | inr misses ↦ (bf, ground arith, same-Extends bf usable)
      ]

  update_matched-Extends :
      (bf : BloomFilter) (txid : Txid) (index : ℕ) (output : TxOut)
      → IsUsable bf
      → (bf' : BloomFilter) × (update_matched f bf txid index output ≡ some bf')
        × Extends f.murmur3_32 bf bf'
  update_matched-Extends bf txid index output usable =
      matched_by bf.flags bf txid index output refl usable

  match_pushes-Extends :
      (txid : Txid) (index : ℕ) (output : TxOut) (instructions : List Instruction)
      (bf : BloomFilter) (found : Bool)
      → IsUsable bf
      → (bf' : BloomFilter) × (b : Bool) × (match_pushes f txid index output instructions bf found
          ≡ some (bf', b))
        × Extends f.murmur3_32 bf bf'
        × (found ≡ true → b ≡ true)
  unfolding match_pushes
  match_pushes-Extends txid index output [] bf found usable =
      (bf, found, refl, same-Extends bf usable, λ h. h)
  match_pushes-Extends txid index output (instruction ∷ instructions) bf found usable =
      let (had, pushed) = has_push-some f bf instruction usable in
      let (bf₁, updated, (usable₁, keeps₁)) = update_matched-Extends bf txid index output usable in
      elim (Bool-cases had) [
        | inl h ↦
            let (bf', b, done, (usable', keeps'), stays) =
              match_pushes-Extends txid index output instructions bf₁ (had || found) usable₁ in
            (
              bf',
              b,
              ground arith,
              (usable', λ key k. keeps' key (keeps₁ key k)),
              λ e. stays (ground arith),
            )
        | inr h ↦
            let (bf', b, done, extends, stays) =
              match_pushes-Extends txid index output instructions bf (had || found) usable in
            (bf', b, ground arith, extends, λ e. stays (ground arith))
      ]

  match_outputs-Extends :
      (txid : Txid) (index : ℕ) (outputs : List TxOut) (bf : BloomFilter) (found : Bool)
      → IsUsable bf
      → (bf' : BloomFilter) × (b : Bool) × (match_outputs f txid index outputs bf found
          ≡ some (bf', b))
        × Extends f.murmur3_32 bf bf'
        × (found ≡ true → b ≡ true)
  unfolding match_outputs
  match_outputs-Extends txid index [] bf found usable =
      (bf, found, refl, same-Extends bf usable, λ h. h)
  match_outputs-Extends txid index (output ∷ outputs) bf found usable =
      let (bf₁, b₁, matched, (usable₁, keeps₁), stays₁) =
        match_pushes-Extends txid index output (lib.instructions output.script_pubkey) bf found
          usable in
      let (bf', b, done, (usable', keeps'), stays) =
        match_outputs-Extends txid (suc index) outputs bf₁ b₁ usable₁ in
      (bf', b, ground arith, (usable', λ key k. keeps' key (keeps₁ key k)), λ e. stays (stays₁ e))

  outpoint-some :
      (bf : BloomFilter) (outpoint : OutPoint)
      → IsUsable bf
      → (b : Bool) × (contains_outpoint f bf outpoint ≡ some b)
  unfolding contains_outpoint
  outpoint-some bf outpoint usable = contains-some f bf (f.encode_outpoint outpoint) usable

  later_input :
      (bf : BloomFilter) (input : TxIn) (inputs : List TxIn) (b spent : Bool)
      → contains_outpoint f bf input.previous_output ≡ some spent
      → spent ≡ false
      → ((i : ℕ) (other : TxIn)
          → get_elem? inputs i ≡ some other
          → contains_outpoint f bf other.previous_output ≡ some true
          → b ≡ true)
      → (i : ℕ) (other : TxIn) → get_elem? (input ∷ inputs) i ≡ some other
      → contains_outpoint f bf other.previous_output ≡ some true
      → b ≡ true
  later_input bf input inputs b spent first apart finds zero other at held =
      let same : input ≡ other = cc in
      let e = ap (λ (t : TxIn). contains_outpoint f bf t.previous_output) same in
      absurd (ground arith)
  later_input bf input inputs b spent first apart finds (suc i) other at held =
      finds i other at held

  -- An empty filter has nothing.
  empty_has :
      (bf : BloomFilter) (key : List ℕ) {b : Bool}
      → bf.is_full ≡ false
      → bf.is_empty ≡ true
      → contains f.murmur3_32 bf key ≡ some true
      → b ≡ true
  unfolding contains
  empty_has bf key room empty had = absurd (ground arith)

  -- The loop over the inputs ends, and does not miss an outpoint that the filter has.
  match_inputs_lem :
      (bf : BloomFilter) (inputs : List TxIn)
      → IsUsable bf
      → (b : Bool) × (match_inputs f bf inputs ≡ some b)
        × ((i : ℕ) (input : TxIn)
            → get_elem? inputs i ≡ some input
            → contains_outpoint f bf input.previous_output ≡ some true
            → b ≡ true)
  unfolding match_inputs
  match_inputs_lem bf [] usable = (false, refl, λ i input at had. absurd (cc))
  match_inputs_lem bf (input ∷ inputs) usable =
      let (spent, first) = outpoint-some bf input.previous_output usable in
      let (had, pushed) = any_push-some f bf (lib.instructions input.script_sig) usable in
      let (b, rest, finds) = match_inputs_lem bf inputs usable in
      elim (Bool-cases spent) [
        | inl yes_spent ↦ (true, ground arith, λ i other at h. refl)
        | inr not_spent ↦ elim (Bool-cases had) [
          | inl h ↦ (true, ground arith, λ i other at h. refl)
          | inr h ↦ (
            b,
            ground arith,
            λ i other at held.
                later_input bf input inputs b spent first not_spent finds i other at held,
          )
        ]
      ]

  -- A filter of at least one byte: `is_relevant_and_update` does not panic; the filter after it has every
  -- key that it had. It reports a transaction whose id the filter had, and one that spends an outpoint
  -- that the filter had.
  pub is_relevant_and_update_lem :
      (bf : BloomFilter) (tx : Transaction)
      → IsUsable bf
      → (bf' : BloomFilter) × (b : Bool) × (is_relevant_and_update f bf tx ≡ some (bf', b))
        × Extends f.murmur3_32 bf bf'
        × (contains_hash f bf (lib.txid tx) ≡ some true → b ≡ true)
        × ((i : ℕ) (input : TxIn)
            → get_elem? tx.input i ≡ some input
            → contains_outpoint f bf input.previous_output ≡ some true
            → b ≡ true)
  unfolding is_relevant_and_update contains_hash contains_outpoint
  is_relevant_and_update_lem bf tx usable = elim (Bool-cases bf.is_full) [
    | inl full ↦ (bf, true, ground arith, same-Extends bf usable, λ h. refl, λ i input at h. refl)
    | inr room ↦ elim (Bool-cases bf.is_empty) [
      | inl empty ↦ (
        bf,
        false,
        ground arith,
        same-Extends bf usable,
        λ h. empty_has bf (f.hash_bytes (lib.txid tx)) room empty h,
        λ i input at h. empty_has bf (f.encode_outpoint input.previous_output) room empty h,
      )
      | inr filled ↦
          let (found, first) = contains-some f bf (f.hash_bytes (lib.txid tx)) usable in
          let (bf₁, b₁, matched, (usable₁, keeps₁), stays) =
            match_outputs-Extends (lib.txid tx) 0 tx.output bf found usable in
          let (spent, inputs, finds) = match_inputs_lem bf₁ tx.input usable₁ in
          elim (Bool-cases b₁) [
            | inl reported ↦
                (bf₁, true, ground arith, (usable₁, keeps₁), λ h. refl, λ i input at h. refl)
            | inr not_yet ↦ (
              bf₁,
              spent,
              ground arith,
              (usable₁, keeps₁),
              λ h. absurd (ground (arith, stays)),
              λ i input at h. finds i input at (keeps₁ (f.encode_outpoint input.previous_output) h),
            )
          ]
    ]
  ]
