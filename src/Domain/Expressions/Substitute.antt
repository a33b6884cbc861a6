-- ===== src/Domain/Expressions/Substitute.antt =====
-- `substitute_parameters` of src/invariantql/domain/expressions.py. The dict of literals is an
-- association list. Each node is built again by its checked constructor.
use invariantql.Prelude.{List, String, lookup, none, some}
use invariantql.Domain.Diagnostics.{Outcome, key_error}
use invariantql.Domain.Expressions.{
  Expression, Expressions, alias, and, arithmetic, comparison, cons, is_in, is_null, like, literal,
  make_alias, make_and, make_in, make_like, make_or, nil, not, or, parameter,
}
use invariantql.Domain.Expressions.Literals.{Literal}
use invariantql.Prelude.Results.{err, ok, ◌>>=◌}

abbrev pub Literals : Type 0
Literals = List (String × Literal)

unfoldable mutual
  pub substitute_parameters : Expression → Literals → Outcome Expression
  substitute_parameters (parameter name) values = elim (lookup name values) [
    | none ↦ err (key_error name)
    | some value ↦ ok (literal value)
  ]
  substitute_parameters (comparison op left right) values = do
    l ← substitute_parameters left values
    r ← substitute_parameters right values
    ok (comparison op l r)
  substitute_parameters (and operands) values = substitute_all operands values >>= make_and
  substitute_parameters (or operands) values = substitute_all operands values >>= make_or
  substitute_parameters (not operand) values = do
    o ← substitute_parameters operand values
    ok (not o)
  substitute_parameters (is_null operand negated) values = do
    o ← substitute_parameters operand values
    ok (is_null o negated)
  substitute_parameters (is_in operand members negated) values = do
    o ← substitute_parameters operand values
    ms ← substitute_all members values
    make_in o ms negated
  substitute_parameters (like operand pattern_expr negated) values = do
    o ← substitute_parameters operand values
    p ← substitute_parameters pattern_expr values
    make_like o p negated
  substitute_parameters (arithmetic op left right) values = do
    l ← substitute_parameters left values
    r ← substitute_parameters right values
    ok (arithmetic op l r)
  substitute_parameters (alias expression name) values = do
    e ← substitute_parameters expression values
    make_alias e name
  substitute_parameters e values = ok e

  -- The tuple comprehensions, left to right.
  pub substitute_all : Expressions → Literals → Outcome Expressions
  substitute_all nil values = ok nil
  substitute_all (cons e es) values = do
    f ← substitute_parameters e values
    fs ← substitute_all es values
    ok (cons f fs)
