-- ===== src/Base/Map.antt =====
-- std::map and std::unordered_map: an association list, each key once, in the order of insertion.
-- The source relies on lookups, on the number of entries and on sums over them, so the order in
-- which a container lists its entries is left at that of insertion.
use dinari_blockchain_hub.Base.Tests.{if◌then◌else◌}
use dinari_blockchain_hub.Base.Eq.{Eq, ◌=?◌}
use mathlib.Core.Path.{◌≡◌, refl}
use mathlib.Core.Bool.{false}
use mathlib.Core.Option.{Option, none, some}
use mathlib.Core.List.{List, [], ◌∷◌}
use native.Mathlib.Omega.{arith}

abbrev pub Map {ℓ κ} : Type ℓ → Type κ → Type (ℓ ⊔ κ)
Map K V = List (K × V)

module _ {ℓ κ} {K : Type ℓ} {V : Type κ} ⦃e : Eq K⦄ where
  -- find
  unfoldable pub lookup : K → Map K V → Option V
  lookup k [] = none
  lookup k ((j, v) ∷ m) = if j =? k then some v else lookup k m

  -- `m[k] = v`
  unfoldable pub insert : K → V → Map K V → Map K V
  insert k v [] = (k, v) ∷ []
  insert k v ((j, w) ∷ m) = if j =? k then (j, v) ∷ m else (j, w) ∷ insert k v m

  -- `m.erase(k)`
  unfoldable pub erase : K → Map K V → Map K V
  erase k [] = []
  erase k ((j, w) ∷ m) = if j =? k then m else (j, w) ∷ erase k m

  -- No key is listed twice.
  abbrev pub HasUniqueKeys : Map K V → Type (ℓ ⊔ κ)
  HasUniqueKeys [] = Unit
  HasUniqueKeys ((j, v) ∷ m) = (lookup j m ≡ none) × HasUniqueKeys m

module _ {ℓ κ} {K : Type ℓ} {V : Type κ} ⦃e : Eq K⦄ where
  pub lookup-insert :
      (k j : K) (v : V) (m : Map K V)
      → lookup j (insert k v m) ≡ (if k =? j then some v else lookup j m)
  unfolding lookup insert
  lookup-insert k j v [] = refl
  lookup-insert k j v ((i, w) ∷ m) =
      ground (arith, e.beq_iff i k, e.beq_iff i j, e.beq_iff k j, lookup-insert k j v m)

  pub lookup-erase_ne :
      (k j : K) (m : Map K V) → (k =? j) ≡ false → lookup j (erase k m) ≡ lookup j m
  unfolding lookup erase
  lookup-erase_ne k j [] h = refl
  lookup-erase_ne k j ((i, w) ∷ m) h =
      ground (arith, e.beq_iff i k, e.beq_iff i j, e.beq_iff k j, lookup-erase_ne k j m h)

  pub lookup-erase_self : (k : K) (m : Map K V) → HasUniqueKeys m → lookup k (erase k m) ≡ none
  unfolding lookup erase
  lookup-erase_self k [] u = refl
  lookup-erase_self k ((i, w) ∷ m) u = ground (arith, e.beq_iff i k, lookup-erase_self k m u.1)

  pub lookup-erase :
      (k j : K) (m : Map K V)
      → HasUniqueKeys m
      → lookup j (erase k m) ≡ (if k =? j then none else lookup j m)
  lookup-erase k j m u =
      ground (arith, e.beq_iff k j, lookup-erase_ne k j m, lookup-erase_self k m u)

  pub insert-HasUniqueKeys :
      (k : K) (v : V) (m : Map K V) → HasUniqueKeys m → HasUniqueKeys (insert k v m)
  unfolding lookup insert
  insert-HasUniqueKeys k v [] u = (refl, tt)
  insert-HasUniqueKeys k v ((i, w) ∷ m) u =
      ground
        (arith, e.beq_iff i k, e.beq_iff k i, insert-HasUniqueKeys k v m u.1, lookup-insert k i v m)

  pub erase-HasUniqueKeys : (k : K) (m : Map K V) → HasUniqueKeys m → HasUniqueKeys (erase k m)
  unfolding lookup erase
  erase-HasUniqueKeys k [] u = tt
  erase-HasUniqueKeys k ((i, w) ∷ m) u =
      ground
        (arith, e.beq_iff i k, e.beq_iff k i, erase-HasUniqueKeys k m u.1, lookup-erase_ne k i m)
