-- ===== src/Adapters/SqlText/Orders.antt =====
-- The values of an expression in the order of its text and in the order in which `expression` binds
-- them, which differ for In, src/invariantql/adapters/_shared/sqltext.py.
-- What a literal binds.
use invariantql.Prelude.{Bool, List, Option, [], lookup, none, some, ◌++◌, ◌∷◌, ◌≡◌}
use invariantql.Adapters.SqlText.{Pieces}
use invariantql.Adapters.SqlText.Generator.{Overrides}
use invariantql.Adapters.SqlText.Holes.{holes}
use invariantql.Domain.Expressions.{
  Expression, Expressions, alias, and, arithmetic, column, comparison, cons, is_in, is_null, like,
  literal, nil, not, or, parameter,
}
use invariantql.Domain.Expressions.Literals.{Literal, LiteralValue}
use invariantql.Domain.Expressions.Substitute.{Literals}
use invariantql.Domain.Types.Unify.{Operation}
use invariantql.Prelude.Results.{ok}

abbrev pub literal_values : Literal → List LiteralValue
literal_values l = elim l.value [
  | LiteralValue.null ↦ []
  | LiteralValue.bool b ↦ []
  | value ↦ value ∷ []
]

abbrev pub parameter_values : Option Literal → List LiteralValue
parameter_values none = []
parameter_values (some l) = literal_values l

pub record HoleLaws (overrides : Overrides) : Type 0 where
  pub like_holes :
      (negated : Bool) (operand pattern_pieces : Pieces)
      → holes (overrides.like negated operand pattern_pieces)
        ≡ holes operand ++ holes pattern_pieces
  pub arithmetic_holes :
      (op : Operation) (l r : Expression) (left right made : Pieces)
      → overrides.arithmetic op l r left right ≡ ok made
      → holes made ≡ holes left ++ holes right

module _ (parameters : Literals) where
  unfoldable mutual
    pub text_values : Expression → List LiteralValue
    text_values (column name) = []
    text_values (literal l) = literal_values l
    text_values (parameter name) = parameter_values (lookup name parameters)
    text_values (comparison op left right) = text_values left ++ text_values right
    text_values (and operands) = all_text_values operands
    text_values (or operands) = all_text_values operands
    text_values (not operand) = text_values operand
    text_values (is_null operand negated) = text_values operand
    text_values (is_in operand members negated) = text_values operand ++ all_text_values members
    text_values (like operand pattern_expr negated) =
        text_values operand ++ text_values pattern_expr
    text_values (arithmetic op left right) = text_values left ++ text_values right
    text_values (alias e name) = []

    pub all_text_values : Expressions → List LiteralValue
    all_text_values nil = []
    all_text_values (cons e es) = text_values e ++ all_text_values es

  unfoldable mutual
    pub bound_values : Expression → List LiteralValue
    bound_values (column name) = []
    bound_values (literal l) = literal_values l
    bound_values (parameter name) = parameter_values (lookup name parameters)
    bound_values (comparison op left right) = bound_values left ++ bound_values right
    bound_values (and operands) = all_bound_values operands
    bound_values (or operands) = all_bound_values operands
    bound_values (not operand) = bound_values operand
    bound_values (is_null operand negated) = bound_values operand
    bound_values (is_in operand members negated) = all_bound_values members ++ bound_values operand
    bound_values (like operand pattern_expr negated) =
        bound_values operand ++ bound_values pattern_expr
    bound_values (arithmetic op left right) = bound_values left ++ bound_values right
    bound_values (alias e name) = []

    pub all_bound_values : Expressions → List LiteralValue
    all_bound_values nil = []
    all_bound_values (cons e es) = bound_values e ++ all_bound_values es
