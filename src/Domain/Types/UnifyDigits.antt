-- ===== src/Domain/Types/UnifyDigits.antt =====
-- The digits of the types that `unify` returns, src/invariantql/domain/types.py.
use invariantql.Prelude.{
  String, arith, dec_le, if◌then◌else◌, leb, max, min, none, refl, some, ℕ, ◌+◌, ◌-◌, ◌≡◌, ◌≢◌, ◌≤◌,
}
use invariantql.Domain.Diagnostics.{value_error}
use invariantql.Domain.Types.{decimal}
use invariantql.Domain.Types.Unify.{
  Operation, add, as_decimal, bounded_decimal, decimal_result, div, mul, operation_of, sub, unify,
  unify_checked, unify_concrete, unify_decimals, unify_numeric,
}
use invariantql.Prelude.Results.{err, ok}

-- The digits that the result of an operation on two decimals needs before and after the point.
abbrev needed_integral : Operation → ℕ → ℕ → ℕ
needed_integral mul i j = i + j + 1
needed_integral _ i j = max i j + 1

abbrev needed_scale : Operation → ℕ → ℕ → ℕ
needed_scale mul s t = s + t
needed_scale _ s t = max s t

-- Addition, subtraction and multiplication of two decimals return the exact decimal shape, every
-- digit kept, when it has at most 38 digits, and raise ValueError otherwise.
pub unify-decimal_exact :
    (p s q t : ℕ) (text : String) (o : Operation)
    → operation_of (some text) ≡ ok (some o)
    → o ≢ div
    → let integral = needed_integral o (p - s) (q - t) in
      let scale = needed_scale o s t in
      unify (decimal p s) (decimal q t) (some text) ≡ (
        if leb (integral + scale) 38
        then ok (decimal (integral + scale) scale)
        else err value_error)
unfolding unify unify_checked unify_concrete unify_numeric as_decimal unify_decimals decimal_result
    bounded_decimal
unify-decimal_exact p s q t text add h ne = rw h (ground arith)
unify-decimal_exact p s q t text sub h ne = rw h (ground arith)
unify-decimal_exact p s q t text mul h ne = rw h (ground arith)
unify-decimal_exact p s q t text div h ne = absurd (ne refl)

-- The descriptive union of two valid decimals is a decimal that keeps every digit before the point
-- of both, and as much of the longer fraction as 76 digits leave room for.
pub unify-decimal_covers :
    (p s q t : ℕ)
    → s ≤ p
    → t ≤ q
    → p ≤ 76
    → q ≤ 76
    → (precision : ℕ) × (scale : ℕ) × (unify (decimal p s) (decimal q t) none
        ≡ ok (decimal precision scale))
      × (max (p - s) (q - t) ≤ precision - scale)
      × (scale ≡ min (max s t) (76 - max (p - s) (q - t)))
unfolding unify unify_checked unify_concrete unify_numeric as_decimal unify_decimals decimal_result
    bounded_decimal
unify-decimal_covers p s q t hs ht hp hq = elim (dec_le (max (p - s) (q - t) + max s t) 76) [
  | yes fits ↦
      (max (max (p - s) (q - t) + max s t) 1, max s t, ground arith, omega arith, omega arith)
  | no wide ↦ (76, 76 - max (p - s) (q - t), ground arith, omega arith, omega arith)
]
