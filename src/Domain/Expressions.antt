-- ===== src/Domain/Expressions.antt =====
-- src/invariantql/domain/expressions.py: the expression nodes, their kinds and their checked
-- constructors. The children have literals, traversals, substitution and the dictionary form.
pub mod Literals
pub mod Walk
pub mod WalkLaws
pub mod Conjuncts
pub mod Substitute
pub mod SubstituteLaws
use invariantql.Prelude.{
  Bool, List, String, [], all, false, if◌then◌else◌, is_empty, length, ltb, refl, true, ◌==◌, ◌∷◌,
  ◌≡◌,
}
use invariantql.Domain.Diagnostics.{Outcome, value_error}
use invariantql.Domain.Expressions.Literals.{Literal}
use invariantql.Domain.Types.Unify.{Operation, add, div, mul, sub}
use invariantql.Prelude.Results.{err, ok}

pub data ExpressionKind : Type 0 where
  column literal parameter comparison and or not is_null is_in like arithmetic alias :
      ExpressionKind

pub data ComparisonOp : Type 0 where
  eq ne lt le gt ge : ComparisonOp

-- One constructor for each subclass of Expression. The operands of `and` and `or` and the values of
-- `is_in` (the source's In) are tuples. ArithmeticOp is the Operation of `unify`.
mutual
  pub data Expression : Type 0 where
    column : String → Expression
    literal : Literal → Expression
    parameter : String → Expression
    comparison : ComparisonOp → Expression → Expression → Expression
    and : Expressions → Expression
    or : Expressions → Expression
    not : Expression → Expression
    is_null : Expression → Bool → Expression
    is_in : Expression → Expressions → Bool → Expression
    like : Expression → Expression → Bool → Expression
    arithmetic : Operation → Expression → Expression → Expression
    alias : Expression → String → Expression

  pub data Expressions : Type 0 where
    nil : Expressions
    cons : Expression → Expressions → Expressions

-- The class attribute `kind`.
abbrev pub kind : Expression → ExpressionKind
kind (column _) = ExpressionKind.column
kind (literal _) = ExpressionKind.literal
kind (parameter _) = ExpressionKind.parameter
kind (comparison _ _ _) = ExpressionKind.comparison
kind (and _) = ExpressionKind.and
kind (or _) = ExpressionKind.or
kind (not _) = ExpressionKind.not
kind (is_null _ _) = ExpressionKind.is_null
kind (is_in _ _ _) = ExpressionKind.is_in
kind (like _ _ _) = ExpressionKind.like
kind (arithmetic _ _ _) = ExpressionKind.arithmetic
kind (alias _ _) = ExpressionKind.alias

-- `ExpressionKind.value`
abbrev pub kind_value : ExpressionKind → String
kind_value ExpressionKind.column = "column"
kind_value ExpressionKind.literal = "literal"
kind_value ExpressionKind.parameter = "parameter"
kind_value ExpressionKind.comparison = "comparison"
kind_value ExpressionKind.and = "and"
kind_value ExpressionKind.or = "or"
kind_value ExpressionKind.not = "not"
kind_value ExpressionKind.is_null = "is_null"
kind_value ExpressionKind.is_in = "in"
kind_value ExpressionKind.like = "like"
kind_value ExpressionKind.arithmetic = "arithmetic"
kind_value ExpressionKind.alias = "alias"

-- `ArithmeticOp.value`
abbrev pub operation_value : Operation → String
operation_value add = "+"
operation_value sub = "-"
operation_value mul = "*"
operation_value div = "/"

abbrev pub to_list : Expressions → List Expression
to_list nil = []
to_list (cons e es) = e ∷ to_list es

abbrev pub of_list : List Expression → Expressions
of_list [] = nil
of_list (e ∷ es) = cons e (of_list es)

pub of_list-to_list : (es : Expressions) → of_list (to_list es) ≡ es
of_list-to_list nil = refl
of_list-to_list (cons e es) = rw (of_list-to_list es)

pub to_list-of_list : (es : List Expression) → to_list (of_list es) ≡ es
to_list-of_list [] = refl
to_list-of_list (e ∷ es) = rw (to_list-of_list es)

unfoldable pub children : Expression → List Expression
children (comparison _ left right) = left ∷ right ∷ []
children (and operands) = to_list operands
children (or operands) = to_list operands
children (not operand) = operand ∷ []
children (is_null operand _) = operand ∷ []
children (is_in operand values _) = operand ∷ to_list values
children (like operand pattern_expr _) = operand ∷ pattern_expr ∷ []
children (arithmetic _ left right) = left ∷ right ∷ []
children (alias expression _) = expression ∷ []
children _ = []

abbrev pub is_literal_or_parameter : Expression → Bool
is_literal_or_parameter (literal _) = true
is_literal_or_parameter (parameter _) = true
is_literal_or_parameter _ = false

abbrev pub is_alias : Expression → Bool
is_alias (alias _ _) = true
is_alias _ = false

-- The constructors with their `__post_init__` checks.
unfoldable pub make_column : String → Outcome Expression
make_column name = if name == "" then err value_error else ok (column name)

unfoldable pub make_and : Expressions → Outcome Expression
make_and operands = if ltb (length (to_list operands)) 2 then err value_error else ok (and operands)

unfoldable pub make_or : Expressions → Outcome Expression
make_or operands = if ltb (length (to_list operands)) 2 then err value_error else ok (or operands)

unfoldable pub make_in : Expression → Expressions → Bool → Outcome Expression
make_in operand values negated =
    if is_empty (to_list values)
    then err value_error
    else if all (to_list values) is_literal_or_parameter
    then ok (is_in operand values negated)
    else err value_error

unfoldable pub make_like : Expression → Expression → Bool → Outcome Expression
make_like operand pattern_expr negated =
    if is_literal_or_parameter pattern_expr
    then ok (like operand pattern_expr negated)
    else err value_error

unfoldable pub make_alias : Expression → String → Outcome Expression
make_alias expression name =
    if name == ""
    then err value_error
    else if is_alias expression
    then err value_error
    else ok (alias expression name)
