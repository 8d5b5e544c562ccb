-- ===== src/Net/BloomFilter/Bytes.antt =====
-- Setting one bit of a list of bytes (src/net/bloom_filter.rs) leaves the others.
use rust_bitcoin_node.Prelude.{
  ℕ, zero, suc, ◌*◌, ◌/◌, ◌%◌, ◌^◌, ◌<◌, ◌≡◌, refl, ap, Bool, true, false, List, [], ◌∷◌, some,
  length, get_elem?, nat_beq, ltb, if◌then◌else◌, bit_and, bit_or, ◌&&◌, not, arith, All,
}
use rust_bitcoin_node.Net.BloomFilter.{is_clear, set_byte}

all_below : ℕ → (ℕ → Bool) → Bool
all_below zero p = true
all_below (suc n) p = p n && all_below n p

all_below_lem : (n : ℕ) (p : ℕ → Bool) (x : ℕ) → all_below n p ≡ true → x < n → p x ≡ true
unfolding all_below
all_below_lem zero p x h low = absurd (omega arith)
all_below_lem (suc n) p x h low = ground (arith, all_below_lem n p x)

-- One bit of a byte after another was set.
abbrev bit_holds : ℕ → ℕ → ℕ → Bool
bit_holds x b d =
    nat_beq (bit_and (bit_or x (2 ^ d)) (2 ^ b)) (if nat_beq d b then 2 ^ b else bit_and x (2 ^ b))
    && ltb (bit_or x (2 ^ d)) 256

bit_table : all_below 256 (λ x. all_below 8 (λ b. all_below 8 (λ d. bit_holds x b d))) ≡ true
unfolding all_below
bit_table = refl

bit_lem : (x b d : ℕ) → x < 256 → b < 8 → d < 8 → bit_holds x b d ≡ true
bit_lem x b d small low_b low_d =
    all_below_lem 8 (λ d. bit_holds x b d) d
      (all_below_lem 8 (λ b. all_below 8 (λ d. bit_holds x b d)) b
        (all_below_lem 256 (λ x. all_below 8 (λ b. all_below 8 (λ d. bit_holds x b d))) x bit_table
          small)
        low_b)
      low_d

pow_table : all_below 8 (λ b. not (nat_beq (2 ^ b) 0)) ≡ true
unfolding all_below
pow_table = refl

abbrev pub AreBytes : List ℕ → Type 0
AreBytes bytes = All (λ (b : ℕ). b < 256) bytes

-- One bit of a byte, after a bit was set in it.
same_byte :
    (x b d : ℕ)
    → x < 256
    → b < 8
    → d < 8
    → (nat_beq (bit_and (bit_or x (2 ^ d)) (2 ^ b)) 0
        ≡ (if nat_beq d b then false else nat_beq (bit_and x (2 ^ b)) 0))
      × (bit_or x (2 ^ d) < 256)
same_byte x b d small low_b low_d =
    let table = bit_lem x b d small low_b low_d in
    let power = all_below_lem 8 (λ b. not (nat_beq (2 ^ b) 0)) b pow_table low_b in
    (ground arith, ground arith)

abbrev SetsBit : ℕ → ℕ → List ℕ → List ℕ → Type 0
SetsBit place d bytes bytes' =
    (p b x : ℕ)
    → b < 8
    → get_elem? bytes p ≡ some x
    → (x' : ℕ) × (get_elem? bytes' p ≡ some x')
      × (nat_beq (bit_and x' (2 ^ b)) 0
          ≡ (if nat_beq place p && nat_beq d b then false else nat_beq (bit_and x (2 ^ b)) 0))

first_byte :
    (d byte : ℕ) (bytes : List ℕ)
    → byte < 256
    → d < 8
    → SetsBit 0 d (byte ∷ bytes) (bit_or byte (2 ^ d) ∷ bytes)
first_byte d byte bytes small low_d zero b x low_b at =
    let e : byte ≡ x = ground arith in
    let bit = (same_byte byte b d small low_b low_d).0 in
    (bit_or byte (2 ^ d), refl, ground (arith, ap (λ (n : ℕ). nat_beq (bit_and n (2 ^ b)) 0) e))
first_byte d byte bytes small low_d (suc p) b x low_b at = (x, at, ground arith)

later_byte :
    (place d byte : ℕ) (bytes bytes' : List ℕ)
    → SetsBit place d bytes bytes'
    → SetsBit (suc place) d (byte ∷ bytes) (byte ∷ bytes')
later_byte place d byte bytes bytes' bits zero b x low_b at = (x, at, ground arith)
later_byte place d byte bytes bytes' bits (suc p) b x low_b at =
    let (x', at', bit) = bits p b x low_b at in (x', at', ground arith)

-- What `set_byte` does to one bit.
set_byte_lem :
    (place d : ℕ) (bytes : List ℕ)
    → place < length bytes
    → AreBytes bytes
    → d < 8
    → (bytes' : List ℕ) × (set_byte place (2 ^ d) bytes ≡ some bytes')
      × AreBytes bytes'
      × (length bytes' ≡ length bytes)
      × SetsBit place d bytes bytes'
unfolding set_byte
set_byte_lem place d [] low small low_d = absurd (omega arith)
set_byte_lem zero d (byte ∷ bytes) low (here, small) low_d = (
  bit_or byte (2 ^ d) ∷ bytes,
  refl,
  ((same_byte byte 0 d here (omega arith) low_d).1, small),
  refl,
  first_byte d byte bytes here low_d,
)
set_byte_lem (suc place) d (byte ∷ bytes) low (here, small) low_d =
    let (bytes', done, small', size, bits) = set_byte_lem place d bytes (omega arith) small low_d in
    (
      byte ∷ bytes',
      rw done refl,
      (here, small'),
      omega arith,
      later_byte place d byte bytes bytes' bits,
    )

found_byte : (bytes : List ℕ) (p : ℕ) → p < length bytes → (x : ℕ) × (get_elem? bytes p ≡ some x)
found_byte [] p low = absurd (omega arith)
found_byte (x ∷ bytes) zero low = (x, refl)
found_byte (x ∷ bytes) (suc p) low = found_byte bytes p (omega arith)

-- Setting the bit of an index: that bit is set after it, and the others are as they were.
pub set_bit_lem :
    (index : ℕ) (bytes : List ℕ)
    → index < length bytes * 8
    → AreBytes bytes
    → (bytes' : List ℕ) × (set_byte (index / 8) (2 ^ (index % 8)) bytes ≡ some bytes')
      × AreBytes bytes'
      × (length bytes' ≡ length bytes)
      × ((j : ℕ)
          → j < length bytes * 8
          → is_clear bytes' j ≡ (if nat_beq index j then some false else is_clear bytes j))
unfolding is_clear
set_bit_lem index bytes low small =
    let (bytes', done, small', size, bits) =
      set_byte_lem (index / 8) (index % 8) bytes (omega arith) small (omega arith) in
    (
      bytes',
      done,
      small',
      size,
      λ j low_j.
          let (x, at) = found_byte bytes (j / 8) (omega arith) in
          let (x', at', bit) = bits (j / 8) (j % 8) x (omega arith) at in ground arith,
    )

pub is_clear-some :
    (bytes : List ℕ) (index : ℕ)
    → index < length bytes * 8
    → (b : Bool) × (is_clear bytes index ≡ some b)
unfolding is_clear
is_clear-some bytes index low =
    let (x, at) = found_byte bytes (index / 8) (omega arith) in
    (nat_beq (bit_and x (2 ^ (index % 8))) 0, rw at refl)
