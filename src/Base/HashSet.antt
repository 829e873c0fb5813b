-- ===== src/Base/HashSet.antt =====
-- `std::collections::HashSet` as a list.
use mathlib.Core.List.{List, [], ◌∷◌, Mem, not-mem-nil, mem-cons}
use mathlib.Core.Logic.Or
use mathlib.Core.HLevel.{⊥_prop}
use mathlib.Core.Path.{◌≡◌, sym}
use mathlib.Core.Bool.{Bool, true, false, ◌||◌}
use native.Mathlib.Omega.{arith}
use risq.Base.Tests.{if◌then◌else◌}
use risq.Base.Equality.{Eq, ◌==◌}

module _ {ℓ} {K : Type ℓ} ⦃e : Eq K⦄ where
  unfoldable pub contains : K → List K → Bool
  contains k [] = false
  contains k (j ∷ s) = j == k || contains k s

  -- `HashSet::insert`, which tells whether the element is new.
  unfoldable pub set_insert : K → List K → List K × Bool
  set_insert k s = if contains k s then (s, false) else (k ∷ s, true)

  pub not-mem_of_contains : (k : K) (s : List K) → contains k s ≡ false → ¬ Mem k s
  unfolding contains
  not-mem_of_contains k [] h m = not-mem-nil m
  not-mem_of_contains k (j ∷ s) h m =
      Or.elim ⊥_prop (mem-cons.0 m) (λ same. ground (arith, e.beq_iff j k, sym same))
        (not-mem_of_contains k s (ground arith))
