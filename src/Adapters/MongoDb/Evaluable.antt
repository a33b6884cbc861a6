-- ===== src/Adapters/MongoDb/Evaluable.antt =====
-- On which expressions `_evaluate` returns, src/invariantql/adapters/sources/mongodb.py.
use invariantql.Prelude.{
  Bool, Option, conditions, false, none, refl, some, sym, true, true-ne-false, ◌&&◌, ◌≡◌,
}
use invariantql.Adapters.MongoDb.Evaluate.{
  Python, Row, evaluate, evaluate_and, evaluate_in, evaluate_or, is_none, scalar,
}
use invariantql.Domain.Diagnostics.{Outcome}
use invariantql.Domain.Expressions.{
  Expression, Expressions, and, column, comparison, cons, is_in, is_null, like, literal, nil, not,
  or,
}
use invariantql.Domain.Expressions.Literals.{LiteralValue}
use invariantql.Prelude.Results.{ok, ◌>>=◌}

abbrev pub is_scalar : Expression → Bool
is_scalar (column name) = true
is_scalar (literal l) = true
is_scalar _ = false

abbrev pub are_scalars : Expressions → Bool
are_scalars nil = true
are_scalars (cons e es) = is_scalar e && are_scalars es

unfoldable mutual
  -- Logic over comparisons, null tests, In and LIKE of columns and literals.
  pub is_evaluable : Expression → Bool
  is_evaluable (and operands) = are_evaluable operands
  is_evaluable (or operands) = are_evaluable operands
  is_evaluable (not operand) = is_evaluable operand
  is_evaluable (is_null operand negated) = is_scalar operand
  is_evaluable (comparison op left right) = is_scalar left && is_scalar right
  is_evaluable (is_in operand members negated) = is_scalar operand && are_scalars members
  is_evaluable (like operand pattern_expr negated) = is_scalar operand && is_scalar pattern_expr
  is_evaluable _ = false

  pub are_evaluable : Expressions → Bool
  are_evaluable nil = true
  are_evaluable (cons e es) = is_evaluable e && are_evaluable es

abbrev pub Returned : {A : Type 0} → Outcome A → Type 0
Returned {A} o = (a : A) × (o ≡ ok a)

then_Returned :
    {A B : Type 0} (o : Outcome A) (f : A → Outcome B)
    → Returned o
    → ((a : A) → Returned (f a))
    → Returned (o >>= f)
then_Returned o f h g = rw h.1 (g h.0)

scalar-Returned : (e : Expression) (row : Row) → is_scalar e ≡ true → Returned (scalar e row)
unfolding scalar
scalar-Returned (column name) row h = (row name, refl)
scalar-Returned (literal l) row h = (l.value, refl)
scalar-Returned e row h = absurd (true-ne-false (sym h))

-- A case of the loops.
choose_Returned :
    {A : Type 0} (b : Bool) (x y : Outcome A)
    → Returned x
    → Returned y
    → Returned (elim b [ true ↦ x | false ↦ y ])
choose_Returned true x y h g = h
choose_Returned false x y h g = g

three_Returned :
    {A : Type 0} (o : Option Bool) (x y z : Outcome A)
    → Returned x
    → Returned y
    → Returned z
    → Returned (elim o [ none ↦ x | some true ↦ y | some false ↦ z ])
three_Returned none x y z h g k = h
three_Returned (some true) x y z h g k = g
three_Returned (some false) x y z h g k = k

module _ (python : Python) (row : Row) where
  evaluate_in-Returned :
      (negated : Bool) (operand : LiteralValue) (saw_null : Bool) (es : Expressions)
      → are_scalars es ≡ true
      → Returned (evaluate_in python negated operand saw_null es row)
  unfolding evaluate_in
  evaluate_in-Returned negated operand saw_null nil h = (_, refl)
  evaluate_in-Returned negated operand saw_null (cons e es) h =
      let p = conditions (is_scalar e) (are_scalars es) h in
      then_Returned (scalar e row) _ (scalar-Returned e row p.0) (λ value.
        choose_Returned (is_none value) _ _ (evaluate_in-Returned negated operand true es p.1) (
          choose_Returned (python.equal operand value) _ _ (_, refl)
            (evaluate_in-Returned negated operand saw_null es p.1)))

  mutual
    unfolding evaluate is_evaluable

    returned : (e : Expression) → is_evaluable e ≡ true → Returned (evaluate python e row)
    returned (and operands) h = and_loop (some true) operands h
    returned (or operands) h = or_loop (some false) operands h
    returned (not operand) h =
        then_Returned (evaluate python operand row) _ (returned operand h) (λ value. (_, refl))
    returned (is_null operand negated) h =
        then_Returned (scalar operand row) _ (scalar-Returned operand row h) (λ value. (_, refl))
    returned (comparison op left right) h =
        let p = conditions (is_scalar left) (is_scalar right) h in
        then_Returned (scalar left row) _ (scalar-Returned left row p.0)
          (λ l. then_Returned (scalar right row) _ (scalar-Returned right row p.1) (λ r. (_, refl)))
    returned (is_in operand members negated) h =
        let p = conditions (is_scalar operand) (are_scalars members) h in
        then_Returned (scalar operand row) _ (scalar-Returned operand row p.0) (λ value.
          choose_Returned (is_none value) _ _ (_, refl)
            (evaluate_in-Returned negated value false members p.1))
    returned (like operand pattern_expr negated) h =
        let p = conditions (is_scalar operand) (is_scalar pattern_expr) h in
        then_Returned (scalar operand row) _ (scalar-Returned operand row p.0) (λ l.
          then_Returned (scalar pattern_expr row) _ (scalar-Returned pattern_expr row p.1)
            (λ r. (_, refl)))
    returned e h = absurd (true-ne-false (sym h))

    and_loop :
        (result : Option Bool) (es : Expressions)
        → are_evaluable es ≡ true
        → Returned (evaluate_and python result es row)
    and_loop result nil h = (_, refl)
    and_loop result (cons e es) h =
        let p = conditions (is_evaluable e) (are_evaluable es) h in
        then_Returned (evaluate python e row) _ (returned e p.0) (λ value.
          three_Returned value _ _ _ (and_loop none es p.1) (and_loop result es p.1) (_, refl))

    or_loop :
        (result : Option Bool) (es : Expressions)
        → are_evaluable es ≡ true
        → Returned (evaluate_or python result es row)
    or_loop result nil h = (_, refl)
    or_loop result (cons e es) h =
        let p = conditions (is_evaluable e) (are_evaluable es) h in
        then_Returned (evaluate python e row) _ (returned e p.0) (λ value.
          three_Returned value _ _ _ (or_loop none es p.1) (_, refl) (or_loop result es p.1))
