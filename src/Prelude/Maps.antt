-- ===== src/Prelude/Maps.antt =====
-- Hash maps and sets as association lists. A lookup reads the first binding of a key, and an
-- insertion replaces that one, so a list built by these operations has each key once.
use mathlib.Core.Path.{◌≡◌, refl, subst}
use mathlib.Core.Logic.{inl, inr}
use mathlib.Core.Bool.{Bool, true, false, ◌||◌}
use mathlib.Core.Option.{Option, none, some}
use mathlib.Core.List.{List, [], ◌∷◌}
use native.Mathlib.Omega.{arith}
use rust_bitcoin_node.Prelude.Lists.{All}
use rust_bitcoin_node.Prelude.Tests.{Bool-cases, if◌then◌else◌}
use rust_bitcoin_node.Prelude.Equality.{Eq, ◌==◌}

module _ {ℓ κ} {K : Type ℓ} {V : Type κ} ⦃e : Eq K⦄ where
  unfoldable pub lookup : K → List (K × V) → Option V
  lookup key [] = none
  lookup key ((first, value) ∷ rest) = if first == key then some value else lookup key rest

  unfoldable pub insert : K → V → List (K × V) → List (K × V)
  insert key value [] = (key, value) ∷ []
  insert key value ((first, old) ∷ rest) =
      if first == key then (key, value) ∷ rest else (first, old) ∷ insert key value rest

  -- Every binding of the key goes: a list built by `insert` has one at most.
  unfoldable pub remove : K → List (K × V) → List (K × V)
  remove k [] = []
  remove k ((j, w) ∷ m) = if j == k then remove k m else (j, w) ∷ remove k m

  unfoldable pub contains_key : K → List (K × V) → Bool
  contains_key k m = elim (lookup k m) [ none ↦ false | some _ ↦ true ]

  pub lookup-insert :
      (key other : K) (value : V) (table : List (K × V))
      → lookup other (insert key value table)
        ≡ (if key == other then some value else lookup other table)
  unfolding lookup insert
  lookup-insert key other value [] = refl
  lookup-insert key other value ((first, old) ∷ rest) = ground (
    arith,
    lookup-insert key other value rest,
    e.decides first other,
    e.decides first key,
    e.decides key other,
  )

  pub lookup-remove :
      (k j : K) (m : List (K × V)) → lookup j (remove k m) ≡ (if k == j then none else lookup j m)
  unfolding lookup remove
  lookup-remove k j [] = ground arith
  lookup-remove k j ((i, w) ∷ m) =
      ground (arith, e.decides k j, e.decides i k, e.decides i j, lookup-remove k j m)

  -- What holds of all bindings holds of the one that is found.
  pub lookup-All {μ} :
      (P : K → V → Type μ) (key : K) (value : V) (table : List (K × V))
      → All (λ (entry : K × V). P entry.0 entry.1) table
      → lookup key table ≡ some value
      → P key value
  unfolding lookup
  lookup-All P key value [] all found = absurd (cc)
  lookup-All P key value ((first, other) ∷ rest) (here, there) found =
      elim (Bool-cases (first == key)) [
        | inl same ↦
            let at : first ≡ key = (e.decides first key).0 same in
            let own : other ≡ value = ground arith in
            subst (λ k. P k value) at (subst (P first) own here)
        | inr apart ↦ lookup-All P key value rest there (ground arith)
      ]

module _ {ℓ} {K : Type ℓ} ⦃e : Eq K⦄ where
  -- A hash set: `HashSet::contains`, and `HashSet::insert` whose result says whether it was new.
  unfoldable pub contains : K → List K → Bool
  contains k [] = false
  contains k (x ∷ xs) = x == k || contains k xs
