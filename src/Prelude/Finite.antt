-- ===== src/Prelude/Finite.antt =====
-- A statement on the numbers below a bound, checked one by one.
use Prim.Native.Nat.{ℕ, zero, suc, ◌<◌}
use mathlib.Core.Path.{◌≡◌}
use mathlib.Core.Bool.{Bool, true, ◌&&◌}
use native.Mathlib.Decide.{ℕ_discrete}
use native.Mathlib.Omega.{arith}

abbrev pub all_below : ℕ → (ℕ → Bool) → Bool
all_below zero p = true
all_below (suc n) p = p n && all_below n p

pub below : (n : ℕ) (p : ℕ → Bool) (i : ℕ) → all_below n p ≡ true → i < n → p i ≡ true
below zero p i h lt = absurd (omega arith)
below (suc n) p i h lt = elim (ℕ_discrete i n) [
  | yes q ↦ rw q (ground (arith, h))
  | no q ↦ below n p i (ground (arith, h)) (omega arith)
]
