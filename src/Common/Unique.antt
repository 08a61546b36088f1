-- ===== src/Common/Unique.antt =====
-- Maps whose keys are listed once, and sums over their values.
use Prim.Native.Nat.{ℕ, ◌+◌}
use mathlib.Core.Path.{◌≡◌, refl}
use mathlib.Core.Option.{none, some}
use mathlib.Core.List.{[], ◌∷◌}
use native.Mathlib.Omega.{arith}
use lotus_dashboard.Common.Tests.{Eq}
use lotus_dashboard.Common.Dict.{Dict, lookup, insert, erase, lookup-insert, lookup-erase}

module _ {K V : Type 0} ⦃e : Eq K⦄ where
  abbrev pub IsUnique : Dict K V → Type 0
  IsUnique [] = Unit
  IsUnique ((k, v) ∷ d) = (lookup k d ≡ none) × IsUnique d

  -- The sum of a number over the values.
  abbrev pub total : (V → ℕ) → Dict K V → ℕ
  total w [] = 0
  total w ((k, v) ∷ d) = w v + total w d

  pub insert-IsUnique : (k : K) (v : V) (d : Dict K V) → IsUnique d → IsUnique (insert k v d)
  insert-IsUnique k v [] u = (refl, tt)
  insert-IsUnique k v ((j, x) ∷ d) u =
      ground (arith, insert-IsUnique k v d u.1, lookup-insert k j v d, e.beq_iff j k, e.beq_iff k j)

  pub erase-IsUnique : (k : K) (d : Dict K V) → IsUnique d → IsUnique (erase k d)
  erase-IsUnique k [] u = tt
  erase-IsUnique k ((j, x) ∷ d) u =
      ground (arith, erase-IsUnique k d u.1, lookup-erase k j d, e.beq_iff j k)

  pub erase_missing : (k : K) (d : Dict K V) → lookup k d ≡ none → erase k d ≡ d
  erase_missing k [] h = refl
  erase_missing k ((j, x) ∷ d) h = ground (arith, erase_missing k d)

  pub total-insert_new :
      (w : V → ℕ) (k : K) (v : V) (d : Dict K V)
      → lookup k d ≡ none
      → total w (insert k v d) ≡ total w d + w v
  total-insert_new w k v [] h = omega arith
  total-insert_new w k v ((j, x) ∷ d) h = ground (arith, total-insert_new w k v d)

  pub total-erase :
      (w : V → ℕ) (k : K) (v : V) (d : Dict K V)
      → IsUnique d
      → lookup k d ≡ some v
      → total w (erase k d) + w v ≡ total w d
  total-erase w k v [] u h = ground arith
  total-erase w k v ((j, x) ∷ d) u h =
      ground (arith, total-erase w k v d u.1, erase_missing k d, e.beq_iff j k)
