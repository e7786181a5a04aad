-- ===== src/Base/Dict.antt =====
-- A Go map as an association list. Its keys are distinct (`Distinct`), as `insert` keeps them.
use Prim.Native.Nat.{ℕ, ◌+◌, ◌≤◌}
use mathlib.Core.Path.{◌≡◌, refl}
use mathlib.Core.List.{List, [], ◌∷◌}
use mathlib.Core.Option.{Option, none, some}
use native.Mathlib.Omega.{arith}
use vclnet.Base.Tests.{Eq, if◌then◌else◌}

module _ {ℓ κ} {K : Type ℓ} {V : Type κ} ⦃e : Eq K⦄ where
  unfoldable pub lookup : K → List (K × V) → Option V
  lookup k [] = none
  lookup k ((j, v) ∷ m) = if e.beq k j then some v else lookup k m

  unfoldable pub insert : K → V → List (K × V) → List (K × V)
  insert k v [] = (k, v) ∷ []
  insert k v ((j, w) ∷ m) = if e.beq k j then (k, v) ∷ m else (j, w) ∷ insert k v m

  unfoldable pub delete : K → List (K × V) → List (K × V)
  delete k [] = []
  delete k ((j, w) ∷ m) = if e.beq k j then delete k m else (j, w) ∷ delete k m

  pub lookup-insert :
      (j k : K) (v : V) (m : List (K × V))
      → lookup j (insert k v m) ≡ (if e.beq j k then some v else lookup j m)
  unfolding lookup insert
  lookup-insert j k v [] = refl
  lookup-insert j k v ((i, w) ∷ m) =
      ground (arith, e.beq_iff j k, e.beq_iff k i, e.beq_iff j i, lookup-insert j k v m)

  pub lookup-delete :
      (j k : K) (m : List (K × V))
      → lookup j (delete k m) ≡ (if e.beq j k then none else lookup j m)
  unfolding lookup delete
  lookup-delete j k [] = ground arith
  lookup-delete j k ((i, w) ∷ m) =
      ground (arith, e.beq_iff j k, e.beq_iff k i, e.beq_iff j i, lookup-delete j k m)

  abbrev pub Distinct : List (K × V) → Type κ
  Distinct [] = Unit
  Distinct ((k, v) ∷ m) = (lookup k m ≡ none) × Distinct m

  pub insert-Distinct : (k : K) (v : V) (m : List (K × V)) → Distinct m → Distinct (insert k v m)
  unfolding insert lookup
  insert-Distinct k v [] d = (refl, tt)
  insert-Distinct k v ((i, w) ∷ m) d =
      ground (arith, e.beq_iff k i, e.beq_iff i k, insert-Distinct k v m d.1, lookup-insert i k v m)

  pub delete-Distinct : (k : K) (m : List (K × V)) → Distinct m → Distinct (delete k m)
  unfolding delete
  delete-Distinct k [] d = tt
  delete-Distinct k ((i, w) ∷ m) d = ground (arith, delete-Distinct k m d.1, lookup-delete i k m)

abbrev pub weight? {κ} : {V : Type κ} → (V → ℕ) → Option V → ℕ
weight? weight none = 0
weight? weight (some v) = weight v

-- The sum of a weight over the values of a map.
module _ {ℓ κ} {K : Type ℓ} {V : Type κ} ⦃e : Eq K⦄ (weight : V → ℕ) where
  unfoldable pub total : List (K × V) → ℕ
  total [] = 0
  total ((k, v) ∷ m) = weight v + total m

  pub total-insert :
      (k : K) (v : V) (m : List (K × V))
      → total (insert k v m) + weight? weight (lookup k m) ≡ total m + weight v
  unfolding total insert lookup
  total-insert k v [] = omega arith
  total-insert k v ((i, w) ∷ m) = ground (arith, total-insert k v m)

  delete_absent : (k : K) (m : List (K × V)) → lookup k m ≡ none → total (delete k m) ≡ total m
  unfolding total delete lookup
  delete_absent k [] h = refl
  delete_absent k ((i, w) ∷ m) h = ground (arith, delete_absent k m)

  pub total-delete :
      (k : K) (m : List (K × V))
      → Distinct m
      → total (delete k m) + weight? weight (lookup k m) ≡ total m
  unfolding total delete lookup
  total-delete k [] d = omega arith
  total-delete k ((i, w) ∷ m) d =
      ground (arith, e.beq_iff k i, delete_absent k m, total-delete k m d.1)

  pub weight-le-total : (k : K) (m : List (K × V)) → weight? weight (lookup k m) ≤ total m
  unfolding total lookup
  weight-le-total k [] = omega arith
  weight-le-total k ((i, w) ∷ m) = ground (arith, weight-le-total k m)
