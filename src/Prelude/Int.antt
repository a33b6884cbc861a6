-- ===== src/Prelude/Int.antt =====
-- Python's integers over the native numbers.
use Prim.Native.Nat.{ℕ, suc}
use mathlib.Core.Path.{◌≡◌}
use mathlib.Core.Bool.{Bool, true, false}
use mathlib.Core.Logic.{◌↔◌}
use native.Mathlib.Omega.{arith}
use invariantql.Prelude.Tests.{leb, eqb}

-- `negsuc n` is -(n + 1).
pub data ℤ : Type 0 where
  pos : ℕ → ℤ
  negsuc : ℕ → ℤ

-- `-lower <= value <= upper`
abbrev pub within : ℕ → ℕ → ℤ → Bool
within lower upper (pos n) = leb n upper
within lower upper (negsuc n) = leb (suc n) lower

abbrev pub int_eq : ℤ → ℤ → Bool
int_eq (pos a) (pos b) = eqb a b
int_eq (negsuc a) (negsuc b) = eqb a b
int_eq _ _ = false

pub int_eq_iff : (a b : ℤ) → (int_eq a b ≡ true) ↔ (a ≡ b)
int_eq_iff a b = ground arith
