-- ===== src/Examples/Branches.antt =====
-- A database with a fork: a block of height 2 on the main chain, and a rival of height 1.
use rust_bitcoin_node.Prelude.{
  ℕ, suc, ◌^◌, ◌-◌, ◌+◌, ◌≤◌, ◌<◌, ◌≡◌, ◌≢◌, refl, arith, List, [], ◌∷◌, none, some, lookup,
  lookup-All, length, get_elem?, nat_eq,
}
use rust_bitcoin_node.Blockchain.Entry.{ChainEntry}
use rust_bitcoin_node.Blockchain.Skip.{get_skip_height}
use rust_bitcoin_node.Blockchain.Db.{ChainDb, get_entry_by_hash}
use rust_bitcoin_node.Blockchain.Ancestor.Laws.{IsLinked, IsKnown, back}
use rust_bitcoin_node.Blockchain.Branches.{common_ancestor, height_to_hash_range}
use rust_bitcoin_node.Blockchain.Branches.Common.{HasOneGenesis, common_ancestor-IsHighest}
use rust_bitcoin_node.Blockchain.Branches.Range.{
  height_to_hash_range-panics, height_to_hash_range_lem,
}
use rust_bitcoin_node.Examples.Setup.{first_entry, second_entry, small_db, third_entry}

abbrev pub rival_entry : ChainEntry
rival_entry = record second_entry { hash = 13; nonce = 13; time = 701 }

abbrev pub fork_db : ChainDb
fork_db = record small_db {
  entry_cache = record {
    height = (0, 10) ∷ (1, 11) ∷ (2, 12) ∷ [];
    hash = (10, first_entry) ∷ (11, second_entry) ∷ (12, third_entry) ∷ (13, rival_entry) ∷ [];
    batch = [];
  };
}

-- What holds of the four entries holds of a known one.
pub of_four :
    (P : ℕ → ChainEntry → Type 0) (h : ℕ) (e : ChainEntry)
    → P 10 first_entry
    → P 11 second_entry
    → P 12 third_entry
    → P 13 rival_entry
    → get_entry_by_hash fork_db h ≡ some e
    → P h e
unfolding get_entry_by_hash
of_four P h e a b c d found = lookup-All P h e fork_db.entry_cache.hash (a, (b, (c, (d, tt)))) found

abbrev HasParent : ℕ → ChainEntry → Type 0
HasParent h e =
    0 < e.height
    → (p : ChainEntry) × (get_entry_by_hash fork_db e.prev_block ≡ some p)
      × (suc p.height ≡ e.height)

abbrev Skips : ℕ → ChainEntry → Type 0
Skips h e =
    0 < e.height
    → e.skip ≢ 0
    → (s : ChainEntry) × (get_entry_by_hash fork_db e.skip ≡ some s)
      × (back fork_db (e.height - get_skip_height e.height) e ≡ some s)

abbrev MainBelow : ℕ → ChainEntry → Type 0
MainBelow h e =
    0 < e.height
    → lookup e.height fork_db.entry_cache.height ≡ some e.hash
    → lookup (e.height - 1) fork_db.entry_cache.height ≡ some e.prev_block

fork_db-IsLinked : IsLinked fork_db
unfolding get_entry_by_hash lookup back get_skip_height
fork_db-IsLinked = record {
  own_hash = λ h e found. of_four (λ h e. e.hash ≡ h) h e refl refl refl refl found;
  in_range = λ e known.
      of_four (λ h e. e.height < 2 ^ 31) e.hash e (omega arith) (omega arith) (omega arith)
        (omega arith) known;
  parent = λ e known.
      of_four HasParent e.hash e (λ h. absurd (omega arith)) (λ h. (first_entry, refl, refl))
        (λ h. (second_entry, refl, refl)) (λ h. (first_entry, refl, refl)) known;
  skips = λ e known.
      of_four Skips e.hash e (λ h. absurd (omega arith)) (λ h s. (first_entry, refl, refl))
        (λ h s. (first_entry, refl, refl)) (λ h s. (first_entry, refl, refl)) known;
  main_below = λ e known.
      of_four MainBelow e.hash e (λ h. absurd (omega arith)) (λ h m. refl) (λ h m. refl)
        (λ h m. refl) known;
}

is_first : (e : ChainEntry) → IsKnown fork_db e → e.height ≡ 0 → e ≡ first_entry
is_first e known =
    of_four (λ h e. e.height ≡ 0 → e ≡ first_entry) e.hash e (λ h. refl) (λ h. absurd (omega arith))
      (λ h. absurd (omega arith)) (λ h. absurd (omega arith)) known

fork_db-HasOneGenesis : HasOneGenesis fork_db
fork_db-HasOneGenesis a b ka kb low_a low_b =
    let at_a = is_first a ka low_a in let at_b = is_first b kb low_b in ground arith

common_ancestor-IsHighest_example :
    (r : ChainEntry) × (common_ancestor fork_db third_entry rival_entry ≡ some (some r))
    × (back fork_db (2 - r.height) third_entry ≡ some r)
    × (back fork_db (1 - r.height) rival_entry ≡ some r)
    × ((s : ChainEntry) (m n : ℕ)
        → m ≤ 2
        → n ≤ 1
        → back fork_db m third_entry ≡ some s
        → back fork_db n rival_entry ≡ some s
        → s.height ≤ r.height)
unfolding get_entry_by_hash lookup
common_ancestor-IsHighest_example =
    common_ancestor-IsHighest fork_db fork_db-IsLinked third_entry rival_entry fork_db-HasOneGenesis
      refl refl

height_to_hash_range_lem_example :
    (hashes : List ℕ) × (height_to_hash_range fork_db 1 12 1000 ≡ some hashes)
    × (length hashes ≡ 2)
    × ((i : ℕ) (r : ChainEntry)
        → 1 + i ≤ 2
        → back fork_db (2 - (1 + i)) third_entry ≡ some r
        → get_elem? hashes i ≡ some r.hash)
unfolding get_entry_by_hash lookup
height_to_hash_range_lem_example =
    height_to_hash_range_lem fork_db fork_db-IsLinked third_entry 1 1000 refl (omega arith)
      (omega arith) (omega arith)

fork_db-bottom :
    (g : ChainEntry)
    → IsKnown fork_db g
    → g.height ≡ 0
    → get_entry_by_hash fork_db g.prev_block ≡ none
unfolding get_entry_by_hash lookup
fork_db-bottom g known low = rw (is_first g known low) refl

height_to_hash_range-panics_example : height_to_hash_range fork_db 0 12 1000 ≡ none
height_to_hash_range-panics_example =
    height_to_hash_range-panics fork_db fork_db-IsLinked 12 1000 fork_db-bottom
