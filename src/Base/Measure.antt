-- ===== src/Base/Measure.antt =====
-- Loops that end because a number falls: the states with a smaller measure are accessible.
use Prim.Native.Nat.{ℕ, zero, suc, ◌<◌}
use mathlib.Core.WellFounded.{Acc}
use native.Mathlib.Omega.{arith}

module _ {State : Type 0} (measure : State → ℕ) where
  abbrev pub Falls : State → State → Type 0
  Falls after before = measure after < measure before

  -- `bound` limits how often the measure can still fall.
  unfoldable pub Acc_of_bound : (bound : ℕ) (s : State) → measure s < bound → Acc Falls s
  Acc_of_bound zero s under = absurd (omega arith)
  Acc_of_bound (suc bound) s under = Acc.intro s λ t falls. Acc_of_bound bound t (omega arith)
