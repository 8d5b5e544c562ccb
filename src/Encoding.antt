-- ===== src/Encoding.antt =====
-- The traits `Encodable` and `Decodable` of the crate `bitcoin`, and its encodings of the types
-- that the repository's records are made of. They are parameters: the crate documents that what
-- it encodes it decodes again, and the laws state that for values of the type's range.
use rust_bitcoin_node.Prelude.{ℕ, ◌<◌, ◌^◌, ◌≡◌, Bool, List, ◌++◌, Option, some, length}
use rust_bitcoin_node.Prelude.Int.{ℤ, abs}
use rust_bitcoin_node.Bitcoin.{TxOut}

pub record Codec {ℓ} (A : Type ℓ) : Type ℓ where
  pub encode : A → List ℕ
  -- `none` is a decoding error; else the value and the bytes that are left
  pub decode : List ℕ → Option (A × List ℕ)

-- What is encoded is decoded again, whatever follows it.
abbrev pub RoundTrips {ℓ κ} : {A : Type ℓ} → Codec A → (A → Type κ) → Type (ℓ ⊔ κ)
RoundTrips {A = A} c P =
    (a : A) (rest : List ℕ) → P a → c.decode (c.encode a ++ rest) ≡ some (a, rest)

pub record Codecs : Type 0 where
  pub u8 : Codec ℕ
  pub u32 : Codec ℕ
  pub u64 : Codec ℕ
  pub u256 : Codec ℕ
  pub i32 : Codec ℤ
  pub bool : Codec Bool
  pub hash : Codec ℕ
  pub tx_out : Codec TxOut

abbrev pub Below : ℕ → ℕ → Type 0
Below bound n = n < bound

pub record IsLawful (c : Codecs) : Type 0 where
  pub u8_lem : RoundTrips c.u8 (Below (2 ^ 8))
  pub u32_lem : RoundTrips c.u32 (Below (2 ^ 32))
  pub u64_lem : RoundTrips c.u64 (Below (2 ^ 64))
  pub u256_lem : RoundTrips c.u256 (Below (2 ^ 256))
  pub i32_lem : RoundTrips c.i32 (λ a. abs a < 2 ^ 31)
  pub bool_lem : RoundTrips c.bool (λ b. Unit {0})
  pub hash_lem : RoundTrips c.hash (Below (2 ^ 256))
  pub tx_out_lem : RoundTrips c.tx_out (λ t. t.value < 2 ^ 64)

-- A u32 takes 4 bytes, and a hash 32.
pub record HasWidths (c : Codecs) : Type 0 where
  pub u32_width : (n : ℕ) → length (c.u32.encode n) ≡ 4
  pub hash_width : (n : ℕ) → length (c.hash.encode n) ≡ 32
