-- ===== src/Examples/Codecs.antt =====
-- Codecs that obey the laws, with a coin written and read back.
use rust_bitcoin_node.Prelude.{
  ℕ, zero, suc, ◌≡◌, refl, Bool, true, false, List, [], ◌∷◌, ◌++◌, Option, none, some, nat_beq,
  arith, map, if◌then◌else◌,
}
use rust_bitcoin_node.Prelude.Partial.{◌>>=◌}
use rust_bitcoin_node.Prelude.Int.{ℤ, pos, negsuc}
use rust_bitcoin_node.Bitcoin.{TxOut}
use rust_bitcoin_node.Encoding.{Codec, Codecs, IsLawful}
use rust_bitcoin_node.Coins.{CoinEntry, UndoCoins}
use rust_bitcoin_node.Coins.Encoding.{
  encode_coin, decode_coin, encode_undo, decode_undo, reload, Fits, decode_coin-encode_coin,
  decode_undo-encode_undo,
}
use rust_bitcoin_node.Examples.Setup.{coin_100}

-- A number is one word.
abbrev pub read_word : List ℕ → Option (ℕ × List ℕ)
read_word [] = none
read_word (n ∷ rest) = some (n, rest)

abbrev pub word : Codec ℕ
word = record { encode = λ n. n ∷ []; decode = read_word }

abbrev pub write_bool : Bool → List ℕ
write_bool false = 0 ∷ []
write_bool true = 1 ∷ []

abbrev pub read_bool : List ℕ → Option (Bool × List ℕ)
read_bool [] = none
read_bool (n ∷ rest) = some ((if nat_beq n 1 then true else false), rest)

abbrev pub write_int : ℤ → List ℕ
write_int (pos n) = 0 ∷ n ∷ []
write_int (negsuc n) = 1 ∷ n ∷ []

abbrev pub read_int : List ℕ → Option (ℤ × List ℕ)
read_int [] = none
read_int (sign ∷ []) = none
read_int (sign ∷ n ∷ rest) = some ((if nat_beq sign 0 then pos n else negsuc n), rest)

-- Each byte of a script follows a 1, and a 0 ends it.
abbrev pub write_script : List ℕ → List ℕ
write_script [] = 0 ∷ []
write_script (b ∷ bs) = 1 ∷ b ∷ write_script bs

abbrev pub read_script : List ℕ → Option (List ℕ × List ℕ)
read_script [] = none
read_script (zero ∷ rest) = some ([], rest)
read_script (suc _ ∷ []) = none
read_script (suc _ ∷ b ∷ rest) = read_script rest >>= λ found. some (b ∷ found.0, found.1)

read_script-write_script :
    (script rest : List ℕ) → read_script (write_script script ++ rest) ≡ some (script, rest)
read_script-write_script [] rest = refl
read_script-write_script (b ∷ bs) rest = rw (read_script-write_script bs rest) refl

abbrev pub read_tx_out : List ℕ → Option (TxOut × List ℕ)
read_tx_out [] = none
read_tx_out (value ∷ rest) =
    read_script rest >>= λ found. some (record { value = value; script_pubkey = found.0 }, found.1)

abbrev pub small_codecs : Codecs
small_codecs = record {
  u8 = word;
  u32 = word;
  u64 = word;
  u256 = word;
  i32 = record { encode = write_int; decode = read_int };
  bool = record { encode = write_bool; decode = read_bool };
  hash = word;
  tx_out = record { encode = λ o. o.value ∷ write_script o.script_pubkey; decode = read_tx_out };
}

int_lem : (a : ℤ) (rest : List ℕ) → read_int (write_int a ++ rest) ≡ some (a, rest)
int_lem (pos n) rest = refl
int_lem (negsuc n) rest = refl

bool_lem : (a : Bool) (rest : List ℕ) → read_bool (write_bool a ++ rest) ≡ some (a, rest)
bool_lem true rest = refl
bool_lem false rest = refl

pub small_codecs-IsLawful : IsLawful small_codecs
small_codecs-IsLawful = record {
  u8_lem = λ a rest _. refl;
  u32_lem = λ a rest _. refl;
  u64_lem = λ a rest _. refl;
  u256_lem = λ a rest _. refl;
  i32_lem = λ a rest _. int_lem a rest;
  bool_lem = λ a rest _. bool_lem a rest;
  hash_lem = λ a rest _. refl;
  tx_out_lem = λ a rest _. rw (read_script-write_script a.script_pubkey rest) refl;
}

abbrev spent_coin : CoinEntry
spent_coin = record coin_100 { spent = true }

spent_coin-Fits : Fits spent_coin
spent_coin-Fits = record {
  version_fits = omega arith;
  height_fits = λ h e. ground arith;
  value_fits = omega arith;
}

decode_coin-encode_coin_example :
    decode_coin small_codecs (encode_coin small_codecs spent_coin ++ 9 ∷ [])
    ≡ some (reload spent_coin, 9 ∷ [])
decode_coin-encode_coin_example =
    decode_coin-encode_coin small_codecs small_codecs-IsLawful spent_coin (9 ∷ []) spent_coin-Fits

abbrev small_undo : UndoCoins
small_undo = record { items = spent_coin ∷ spent_coin ∷ [] }

decode_undo-encode_undo_example :
    decode_undo small_codecs (encode_undo small_codecs small_undo ++ [])
    ≡ some (record { items = map reload small_undo.items }, [])
decode_undo-encode_undo_example =
    decode_undo-encode_undo small_codecs small_codecs-IsLawful small_undo [] (omega arith)
      (spent_coin-Fits, (spent_coin-Fits, tt))
