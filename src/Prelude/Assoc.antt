-- ===== src/Prelude/Assoc.antt =====
-- Python dictionaries and sets, as association lists over any test of keys.
use mathlib.Core.Path.{◌≡◌, refl}
use mathlib.Core.Logic.{◌↔◌}
use mathlib.Core.Bool.{Bool, true, false, ◌||◌}
use mathlib.Core.Option.{Option, none, some}
use mathlib.Core.List.{List, [], ◌∷◌}
use native.Mathlib.Omega.{arith}
use fedoralink.Prelude.Tests.{if◌then◌else◌}

module _ {ℓ κ} {K : Type ℓ} {V : Type κ} (same : K → K → Bool) where
  -- `d.get(k)`
  unfoldable pub lookup : K → List (K × V) → Option V
  lookup k [] = none
  lookup k ((j, v) ∷ d) = if same j k then some v else lookup k d

  -- `d[k] = v`
  unfoldable pub insert : K → V → List (K × V) → List (K × V)
  insert k v [] = (k, v) ∷ []
  insert k v ((j, w) ∷ d) = if same j k then (j, v) ∷ d else (j, w) ∷ insert k v d

  -- `d.pop(k, None)`
  unfoldable pub erase : K → List (K × V) → List (K × V)
  erase k [] = []
  erase k ((j, w) ∷ d) = let rest = erase k d in if same j k then rest else (j, w) ∷ rest

module _ {ℓ κ} {K : Type ℓ} {V : Type κ} (same : K → K → Bool)
    (same_iff : (j k : K) → (same j k ≡ true) ↔ (j ≡ k)) where
  pub lookup-insert :
      (k j : K) (v : V) (d : List (K × V))
      → lookup same j (insert same k v d) ≡ (if same k j then some v else lookup same j d)
  unfolding lookup insert
  lookup-insert k j v [] = refl
  lookup-insert k j v ((i, w) ∷ d) =
      ground (arith, same_iff k j, same_iff i k, same_iff i j, lookup-insert k j v d)

  pub lookup-erase :
      (k j : K) (d : List (K × V))
      → lookup same j (erase same k d) ≡ (if same k j then none else lookup same j d)
  unfolding lookup erase
  lookup-erase k j [] = ground arith
  lookup-erase k j ((i, w) ∷ d) =
      ground (arith, same_iff k j, same_iff i k, same_iff i j, lookup-erase k j d)

-- sets
module _ {ℓ} {K : Type ℓ} (same : K → K → Bool) where
  unfoldable pub member : K → List K → Bool
  member k [] = false
  member k (j ∷ s) = same j k || member k s

  unfoldable pub add : K → List K → List K
  add k s = k ∷ s

  unfoldable pub discard : K → List K → List K
  discard k [] = []
  discard k (j ∷ s) = let rest = discard k s in if same j k then rest else j ∷ rest
