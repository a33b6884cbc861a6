-- ===== src/Domain/Types/UnifyLaws.antt =====
-- Laws of `unify`, src/invariantql/domain/types.py.
use invariantql.Prelude.{
  Bool-cases, Option, String, ap, arith, fun_ext, inl, inr, refl, sym, true, ℕ, ◌-◌, ◌≡◌,
}
use invariantql.Domain.Diagnostics.{Outcome}
use invariantql.Domain.Types.{DataType, decimal, float, integer, is_numeric}
use invariantql.Domain.Types.Equality.{type_eq_iff}
use invariantql.Domain.Types.Unify.{
  Operation, as_decimal, operation_of, result_integral, result_scale, unify, unify_checked,
  unify_concrete, unify_decimals, unify_numeric,
}
use invariantql.Prelude.Results.{err, ok, ◌>>=◌}

result_scale_comm : (op : Option Operation) (s t : ℕ) → result_scale op s t ≡ result_scale op t s
result_scale_comm op s t = ground arith

result_integral_comm :
    (op : Option Operation) (i j : ℕ) → result_integral op i j ≡ result_integral op j i
result_integral_comm op i j = ground arith

unify_decimals_symmetric :
    (l r : ℕ × ℕ) (op : Option Operation) → unify_decimals l r op ≡ unify_decimals r l op
unfolding unify_decimals
unify_decimals_symmetric (p, s) (q, t) op =
    cc (result_scale_comm op s t, result_integral_comm op (p - s) (q - t))

-- Where only one operand's digits can be missing, the order of the operands does not matter.
bind-unify_decimals :
    (m : Outcome (ℕ × ℕ)) (x : ℕ × ℕ) (op : Option Operation)
    → (m >>= λ l. unify_decimals l x op) ≡ (m >>= λ r. unify_decimals x r op)
bind-unify_decimals (ok l) x op = unify_decimals_symmetric l x op
bind-unify_decimals (err e) x op = refl

unify_numeric_symmetric :
    (l r : DataType) (op : Option Operation)
    → is_numeric l ≡ true
    → is_numeric r ≡ true
    → unify_numeric l r op ≡ unify_numeric r l op
unfolding unify_numeric as_decimal
unify_numeric_symmetric (float a) (float b) op h k = ground arith
unify_numeric_symmetric (integer a) (integer b) op h k = ground arith
unify_numeric_symmetric (integer a) (decimal q t) op h k =
    bind-unify_decimals (as_decimal (integer a)) (q, t) op
unify_numeric_symmetric (decimal p s) (integer b) op h k =
    sym (bind-unify_decimals (as_decimal (integer b)) (p, s) op)
unify_numeric_symmetric (decimal p s) (decimal q t) op h k =
    unify_decimals_symmetric (p, s) (q, t) op
unify_numeric_symmetric (float a) (integer b) op h k = refl
unify_numeric_symmetric (float a) (decimal q t) op h k = refl
unify_numeric_symmetric (integer a) (float b) op h k = refl
unify_numeric_symmetric (decimal p s) (float b) op h k = refl
unify_numeric_symmetric _ _ op h k = cc

unify_concrete_symmetric :
    (l r : DataType) (op : Option Operation) → unify_concrete l r op ≡ unify_concrete r l op
unfolding unify_concrete
unify_concrete_symmetric l r op = elim (Bool-cases (is_numeric l)) [
  | inl h ↦ elim (Bool-cases (is_numeric r)) [
    | inl k ↦ rw (h, k) (unify_numeric_symmetric l r op h k)
    | inr k ↦ rw (h, k) (ground (arith, type_eq_iff l r, type_eq_iff r l))
  ]
  | inr h ↦ rw h (ground (arith, type_eq_iff l r, type_eq_iff r l))
]

unify_checked_symmetric :
    (l r : DataType) (op : Option Operation) → unify_checked l r op ≡ unify_checked r l op
unfolding unify_checked
unify_checked_symmetric l r op = ground (arith, unify_concrete_symmetric l r op)

-- `unify` is symmetric: both orders of the operands give the same type, or raise the same error,
-- for every `operation` argument, a refused one included.
pub unify_symmetric :
    (l r : DataType) (operation : Option String) → unify l r operation ≡ unify r l operation
unfolding unify
unify_symmetric l r operation =
    ap (λ f. operation_of operation >>= f) (fun_ext (λ o. unify_checked_symmetric l r o))
