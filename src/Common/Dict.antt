-- ===== src/Common/Dict.antt =====
-- Go's `map[K]V` as an association list. The code never depends on the order of iteration.
use mathlib.Core.Path.{◌≡◌}
use mathlib.Core.Option.{Option, none, some}
use mathlib.Core.List.{List, [], ◌∷◌}
use native.Mathlib.Omega.{arith}
use pg_tool_box.Common.Tests.{if◌then◌else◌, Comparable, ◌==◌, beq_iff}

module _ {ℓ κ} {K : Type ℓ} {V : Type κ} ⦃e : Comparable K⦄ where
  -- m[k]
  unfoldable pub lookup : K → List (K × V) → Option V
  lookup k [] = none
  lookup k ((j, v) ∷ m) = if j == k then some v else lookup k m

  -- delete(m, k)
  unfoldable pub remove : K → List (K × V) → List (K × V)
  remove k [] = []
  remove k ((j, v) ∷ m) = let rest = remove k m in if j == k then rest else (j, v) ∷ rest

  -- m[k] = v
  unfoldable pub insert : K → V → List (K × V) → List (K × V)
  insert k v m = (k, v) ∷ remove k m

  pub lookup-remove :
      (k j : K) (m : List (K × V)) → lookup j (remove k m) ≡ (if k == j then none else lookup j m)
  unfolding lookup remove
  lookup-remove k j [] = ground arith
  lookup-remove k j ((i, v) ∷ m) =
      ground (arith, beq_iff k j, beq_iff i k, beq_iff i j, lookup-remove k j m)

  pub lookup-insert :
      (k j : K) (v : V) (m : List (K × V))
      → lookup j (insert k v m) ≡ (if k == j then some v else lookup j m)
  unfolding lookup insert
  lookup-insert k j v m = rw (lookup-remove k j m) (ground arith)

-- m[k] of a map with text values, empty where there is no such key
unfoldable pub value_at {ℓ κ} :
    {K : Type ℓ} {A : Type κ} ⦃e : Comparable K⦄ → K → List (K × List A) → List A
unfolding lookup
value_at k m = elim (lookup k m) [ none ↦ [] | some v ↦ v ]

pub value_at-insert {ℓ κ} :
    {K : Type ℓ} {A : Type κ} ⦃e : Comparable K⦄ (k j : K) (v : List A) (m : List (K × List A))
    → value_at j (insert k v m) ≡ (if k == j then v else value_at j m)
unfolding value_at
value_at-insert k j v m = ground (arith, lookup-insert k j v m)
