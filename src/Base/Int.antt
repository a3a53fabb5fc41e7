-- ===== src/Base/Int.antt =====
-- Go's `int` where the code stores it and compares it.
use Prim.Native.Nat.{ℕ}
use mathlib.Core.Path.{ap}
use native.Mathlib.Decide.{ℕ_discrete}

-- `negsuc n` is -(n + 1).
pub data ℤ : Type 0 where
  pos : ℕ → ℤ
  negsuc : ℕ → ℤ

unfoldable pub ℤ_discrete : Discrete ℤ
ℤ_discrete (pos m) (pos n) = elim (ℕ_discrete m n) [
  | yes e ↦ yes (ap pos e)
  | no d ↦ no λ p. d (cc)
]
ℤ_discrete (negsuc m) (negsuc n) = elim (ℕ_discrete m n) [
  | yes e ↦ yes (ap negsuc e)
  | no d ↦ no λ p. d (cc)
]
ℤ_discrete (pos m) (negsuc n) = no λ p. cc
ℤ_discrete (negsuc m) (pos n) = no λ p. cc
