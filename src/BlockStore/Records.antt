-- ===== src/BlockStore/Records.antt =====
-- src/blockstore/records.rs and the keys of src/blockstore/db.rs: what the index holds, and its
-- encodings over the crate's codecs.
use mathlib.Core.List.{append_assoc}
use rust_bitcoin_node.Prelude.{
  ℕ, ◌<◌, ◌^◌, ◌≡◌, ◌↔◌, refl, Bool, true, List, ◌++◌, Option, some, arith, Eq, nat_beq,
  nat_beq_iff, ◌&&◌,
}
use rust_bitcoin_node.Prelude.Partial.{◌>>=◌}
use rust_bitcoin_node.Encoding.{Codecs, IsLawful}

pub record FileRecord : Type 0 where
  pub blocks : ℕ
  pub used : ℕ
  pub length : ℕ

pub record BlockRecord : Type 0 where
  pub file : ℕ
  pub position : ℕ
  pub length : ℕ

pub data RecordType : Type 0 where
  block undo : RecordType

-- `FileRecord::empty`
abbrev pub empty : ℕ → FileRecord
empty length = record { blocks = 0; used = 0; length = length }

abbrev pub as_u32 : RecordType → ℕ
as_u32 block = 0
as_u32 undo = 1

abbrev pub record_type_beq : RecordType → RecordType → Bool
record_type_beq a b = nat_beq (as_u32 a) (as_u32 b)

pub record_type_beq_iff : (a b : RecordType) → (record_type_beq a b ≡ true) ↔ (a ≡ b)
record_type_beq_iff block block = (λ h. refl, λ h. refl)
record_type_beq_iff undo undo = (λ h. refl, λ h. refl)
record_type_beq_iff block undo = ground arith
record_type_beq_iff undo block = ground arith

instance abbrev pub record_type_eq : Eq RecordType
record_type_eq = record { decides = record_type_beq_iff; equals = record_type_beq }

-- The keys `File(record_type, number)` and `BlockRecord(record_type, hash)`.
pub record Key : Type 0 where
  pub record_type : RecordType
  pub number : ℕ

abbrev pub key_beq : Key → Key → Bool
key_beq a b = record_type_beq a.record_type b.record_type && nat_beq a.number b.number

pub key_beq_iff : (a b : Key) → (key_beq a b ≡ true) ↔ (a ≡ b)
key_beq_iff a b =
    ground (arith, record_type_beq_iff a.record_type b.record_type, nat_beq_iff a.number b.number)

instance abbrev pub key_eq : Eq Key
key_eq = record { decides = key_beq_iff; equals = key_beq }

module _ (c : Codecs) where
  unfoldable pub encode_file : FileRecord → List ℕ
  encode_file r = c.u32.encode r.blocks ++ (c.u32.encode r.used ++ c.u32.encode r.length)

  unfoldable pub decode_file : List ℕ → Option (FileRecord × List ℕ)
  decode_file d = do
    (blocks, d₁) ← c.u32.decode d
    (used, d₂) ← c.u32.decode d₁
    (length, d₃) ← c.u32.decode d₂
    some (record { blocks = blocks; used = used; length = length }, d₃)

  unfoldable pub encode_block : BlockRecord → List ℕ
  encode_block r = c.u32.encode r.file ++ (c.u32.encode r.position ++ c.u32.encode r.length)

  unfoldable pub decode_block : List ℕ → Option (BlockRecord × List ℕ)
  decode_block d = do
    (file, d₁) ← c.u32.decode d
    (position, d₂) ← c.u32.decode d₁
    (length, d₃) ← c.u32.decode d₂
    some (record { file = file; position = position; length = length }, d₃)

abbrev pub FitsFile : FileRecord → Type 0
FitsFile r = (r.blocks < 2 ^ 32) × (r.used < 2 ^ 32) × (r.length < 2 ^ 32)

abbrev pub FitsBlock : BlockRecord → Type 0
FitsBlock r = (r.file < 2 ^ 32) × (r.position < 2 ^ 32) × (r.length < 2 ^ 32)

module _ (c : Codecs) (laws : IsLawful c) where
  -- With codecs that obey the laws, a file record and a block record whose fields are in the range of
  -- u32 are read back as they were written, whatever follows them.
  pub decode-encode :
      (f : FileRecord) (b : BlockRecord) (rest : List ℕ)
      → FitsFile f
      → FitsBlock b
      → (decode_file c (encode_file c f ++ rest) ≡ some (f, rest))
        × (decode_block c (encode_block c b ++ rest) ≡ some (b, rest))
  unfolding encode_file decode_file encode_block decode_block
  decode-encode f b rest (f₀, f₁, f₂) (b₀, b₁, b₂) = (
    simp (
      append_assoc,
      laws.u32_lem f.blocks _ f₀,
      laws.u32_lem f.used _ f₁,
      laws.u32_lem f.length _ f₂,
    ),
    simp (
      append_assoc,
      laws.u32_lem b.file _ b₀,
      laws.u32_lem b.position _ b₁,
      laws.u32_lem b.length _ b₂,
    ),
  )
