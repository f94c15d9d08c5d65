-- ===== src/Base/Table.antt =====
-- Checking a law over a small range by evaluation.
use Prim.Native.Nat.{ℕ, zero, suc, ◌<◌}
use mathlib.Core.Path.{◌≡◌}
use mathlib.Core.Bool.{Bool, true, false}
use mathlib.Core.Logic.{inl, inr}
use native.Mathlib.Omega.{arith}
use gdbserver.Base.Tests.{Bool-cases, if◌then◌else◌}

-- The law's answers at limit - 1, ..., 1, 0 are all true.
unfoldable pub check_range : (ℕ → Bool) → ℕ → Bool
check_range law zero = true
check_range law (suc limit) =
    let smaller = check_range law limit in if law limit then smaller else false

pub in_range :
    (law : ℕ → Bool) (limit : ℕ) → check_range law limit ≡ true → (k : ℕ) → k < limit → law k ≡ true
unfolding check_range
in_range law zero checked k below = absurd (omega arith)
in_range law (suc limit) checked k below = elim (Bool-cases (law limit)) [
  | inl here ↦ ground (arith, in_range law limit (ground arith) k)
  | inr failed ↦ absurd (ground arith)
]
