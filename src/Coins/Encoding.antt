-- ===== src/Coins/Encoding.antt =====
-- The encodings of src/coins/coin_entry.rs and src/coins/undo_coins.rs, over the crate's codecs.
use mathlib.Core.List.{append_assoc, append-nil, reverse-cons, reverse-reverse}
use rust_bitcoin_node.Prelude.{
  ℕ, zero, suc, ◌<◌, ◌%◌, ◌^◌, ◌≡◌, refl, false, List, [], ◌∷◌, ◌++◌, Option, none, some, length,
  length-reverse, All-reverse, map-reverse, ap, reverse, map, nat_beq, if◌then◌else◌, arith, All,
}
use rust_bitcoin_node.Prelude.Int.{abs}
use rust_bitcoin_node.Encoding.{Codecs, IsLawful}
use rust_bitcoin_node.Prelude.Partial.{◌>>=◌}
use rust_bitcoin_node.Coins.{CoinEntry, UndoCoins}
use rust_bitcoin_node.Prelude.Words.{u32_max}

module _ (c : Codecs) where
  -- `None` is stored as the largest height.
  abbrev height_code : Option ℕ → ℕ
  height_code none = u32_max
  height_code (some height) = height

  unfoldable pub encode_coin : CoinEntry → List ℕ
  encode_coin coin =
      c.i32.encode coin.version
      ++ (c.u32.encode (height_code coin.height)
          ++ (c.bool.encode coin.coinbase
              ++ (c.tx_out.encode coin.output ++ c.bool.encode coin.spent)))

  -- The stored `spent` is read and dropped.
  unfoldable pub decode_coin : List ℕ → Option (CoinEntry × List ℕ)
  decode_coin d = do
    (version, d₁) ← c.i32.decode d
    (code, d₂) ← c.u32.decode d₁
    (coinbase, d₃) ← c.bool.decode d₂
    (output, d₄) ← c.tx_out.decode d₃
    (_spent, d₅) ← c.bool.decode d₄
    some (
      record {
        version = version;
        height = if nat_beq code u32_max then none else some code;
        coinbase = coinbase;
        output = output;
        spent = false;
      },
      d₅,
    )

  encode_items : List CoinEntry → List ℕ
  encode_items [] = []
  encode_items (coin ∷ items) = encode_coin coin ++ encode_items items

  -- `self.items.len() as u32`, then the coins in the vector's order: the list holds the last first.
  unfoldable pub encode_undo : UndoCoins → List ℕ
  unfolding encode_items
  encode_undo u = c.u32.encode (length u.items % 2 ^ 32) ++ encode_items (reverse u.items)

  -- The loop: each coin read is pushed behind those before it.
  decode_items : ℕ → List CoinEntry → List ℕ → Option (List CoinEntry × List ℕ)
  decode_items zero items d = some (items, d)
  decode_items (suc count) items d = do
    (coin, d') ← decode_coin d
    decode_items count (coin ∷ items) d'

  unfoldable pub decode_undo : List ℕ → Option (UndoCoins × List ℕ)
  unfolding decode_items
  decode_undo d = do
    (count, d') ← c.u32.decode d
    (items, d'') ← decode_items count [] d'
    some (record { items = items }, d'')

-- What a coin is after it was stored and loaded.
unfoldable pub reload : CoinEntry → CoinEntry
reload coin = record coin { spent = false }

-- A coin whose fields are in range, and whose height is not the code of `None`.
pub record Fits (coin : CoinEntry) : Type 0 where
  pub version_fits : abs coin.version < 2 ^ 31
  pub height_fits : (h : ℕ) → coin.height ≡ some h → h < u32_max
  pub value_fits : coin.output.value < 2 ^ 64

height_code-lt :
    (c : Codecs) (o : Option ℕ) → ((h : ℕ) → o ≡ some h → h < u32_max) → height_code c o < 2 ^ 32
height_code-lt c none f = omega arith
height_code-lt c (some h) f = omega (arith, f h refl)

height_decode :
    (c : Codecs) (o : Option ℕ)
    → ((h : ℕ) → o ≡ some h → h < u32_max)
    → (if nat_beq (height_code c o) u32_max then none else some (height_code c o)) ≡ o
height_decode c none f = refl
height_decode c (some h) f = ground (arith, f h refl)

module _ (c : Codecs) (laws : IsLawful c) where
  -- With codecs that obey the laws, a coin with its fields in range that is written and read back,
  -- whatever follows it, is the same but for `spent`, which reads as false.
  pub decode_coin-encode_coin :
      (coin : CoinEntry) (rest : List ℕ)
      → Fits coin
      → decode_coin c (encode_coin c coin ++ rest) ≡ some (reload coin, rest)
  unfolding decode_coin encode_coin reload
  decode_coin-encode_coin coin rest fits =
      simp
        (
          append_assoc,
          laws.i32_lem coin.version _ fits.version_fits,
          laws.u32_lem (height_code c coin.height) _
              (height_code-lt c coin.height fits.height_fits),
          laws.bool_lem coin.coinbase _ tt,
          laws.tx_out_lem coin.output _ fits.value_fits,
          laws.bool_lem coin.spent _ tt,
        )
        (ap {B = Option (CoinEntry × List ℕ)}
          (λ h. some (record coin { height = h; spent = false }, rest))
          (height_decode c coin.height fits.height_fits))

  decode_items-encode_items :
      (coins acc : List CoinEntry) (rest : List ℕ)
      → All Fits coins
      → decode_items c (length coins) acc (encode_items c coins ++ rest)
        ≡ some (reverse (map reload coins) ++ acc, rest)
  unfolding decode_items encode_items
  decode_items-encode_items [] acc rest fits = refl
  decode_items-encode_items (coin ∷ coins) acc rest fits = simp (
    append_assoc,
    decode_coin-encode_coin coin (encode_items c coins ++ rest) fits.0,
    decode_items-encode_items coins (reload coin ∷ acc) rest fits.1,
    reverse-cons,
  )

  -- With codecs that obey the laws, an undo list of fewer than 2 ^ 32 coins with their fields in
  -- range that is written and read back is the same list in the same order, its coins marked
  -- unspent.
  pub decode_undo-encode_undo :
      (u : UndoCoins) (rest : List ℕ)
      → length u.items < 2 ^ 32
      → All Fits u.items
      → decode_undo c (encode_undo c u ++ rest) ≡ some (record { items = map reload u.items }, rest)
  unfolding decode_undo encode_undo
  decode_undo-encode_undo u rest short fits =
      let count : length u.items % 2 ^ 32 ≡ length (reverse u.items) =
        omega (arith, length-reverse u.items) in
      simp (
        append_assoc,
        count,
        laws.u32_lem (length (reverse u.items)) _ (omega (arith, length-reverse u.items)),
        decode_items-encode_items (reverse u.items) [] rest (All-reverse Fits u.items fits),
        append-nil,
        map-reverse,
        reverse-reverse,
      )

-- Storing changes nothing of a coin that is not spent.
pub reload-unspent : (coin : CoinEntry) → coin.spent ≡ false → reload coin ≡ coin
unfolding reload
reload-unspent coin h = ground arith
