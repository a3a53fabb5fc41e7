-- ===== src/Base/Results.antt =====
-- What a fallible call returns: its value, or its error.
use mathlib.Core.Path.{◌≡◌}

pub data Result (E A : Type 0) : Type 0 where
  ok : A → Result E A
  err : E → Result E A

pub ok-injective : {E A : Type 0} {a b : A} → ◌≡◌ {A = Result E A} (ok a) (ok b) → a ≡ b
ok-injective p = cc
