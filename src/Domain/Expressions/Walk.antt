-- ===== src/Domain/Expressions/Walk.antt =====
-- Traversals of src/invariantql/domain/expressions.py: `walk`, the referenced names, `conjuncts`,
-- `and_all`, and the names of outputs.
use invariantql.Prelude.{List, Option, String, [], none, set_default, some, ◌++◌, ◌∷◌}
use invariantql.Domain.Diagnostics.{Outcome, value_error}
use invariantql.Domain.Expressions.{
  Expression, Expressions, alias, and, arithmetic, column, comparison, cons, is_in, is_null, like,
  literal, nil, not, of_list, or, parameter,
}
use invariantql.Prelude.Results.{err, ok}

-- The generator `walk` as the list of what it yields.
unfoldable mutual
  pub walk : Expression → List Expression
  walk (column name) = column name ∷ []
  walk (literal value) = literal value ∷ []
  walk (parameter name) = parameter name ∷ []
  walk (comparison op left right) = comparison op left right ∷ walk left ++ walk right
  walk (and operands) = and operands ∷ walk_all operands
  walk (or operands) = or operands ∷ walk_all operands
  walk (not operand) = not operand ∷ walk operand
  walk (is_null operand negated) = is_null operand negated ∷ walk operand
  walk (is_in operand values negated) =
      is_in operand values negated ∷ walk operand ++ walk_all values
  walk (like operand pattern_expr negated) =
      like operand pattern_expr negated ∷ walk operand ++ walk pattern_expr
  walk (arithmetic op left right) = arithmetic op left right ∷ walk left ++ walk right
  walk (alias expression name) = alias expression name ∷ walk expression

  pub walk_all : Expressions → List Expression
  walk_all nil = []
  walk_all (cons e es) = walk e ++ walk_all es

-- The names that one node adds to `seen` in `referenced_columns` and `referenced_parameters`.
abbrev pub see_column : List String → Expression → List String
see_column seen (column name) = set_default seen name
see_column seen _ = seen

abbrev pub see_parameter : List String → Expression → List String
see_parameter seen (parameter name) = set_default seen name
see_parameter seen _ = seen

-- The two nested loops, over the expressions and over the nodes of each.
unfoldable pub visit_nodes :
    (List String → Expression → List String) → List String → List Expression → List String
visit_nodes see seen [] = seen
visit_nodes see seen (node ∷ nodes) = visit_nodes see (see seen node) nodes

unfoldable pub visit :
    (List String → Expression → List String) → List String → List Expression → List String
unfolding visit_nodes walk
visit see seen [] = seen
visit see seen (e ∷ es) = visit see (visit_nodes see seen (walk e)) es

unfoldable pub referenced_columns : List Expression → List String
unfolding visit
referenced_columns expressions = visit see_column [] expressions

unfoldable pub referenced_parameters : List Expression → List String
unfolding visit
referenced_parameters expressions = visit see_parameter [] expressions

unfoldable mutual
  pub conjuncts : Expression → List Expression
  conjuncts (and operands) = conjuncts_all operands
  conjuncts e = e ∷ []

  pub conjuncts_all : Expressions → List Expression
  conjuncts_all nil = []
  conjuncts_all (cons e es) = conjuncts e ++ conjuncts_all es

-- `conjuncts` of None or an expression.
abbrev pub conjuncts_of : Option Expression → List Expression
conjuncts_of none = []
conjuncts_of (some e) = conjuncts e

unfoldable pub and_all : List Expression → Option Expression
and_all [] = none
and_all (e ∷ []) = some e
and_all (e ∷ f ∷ es) = some (and (of_list (e ∷ f ∷ es)))

unfoldable pub output_name : Expression → Outcome String
output_name (alias _ name) = ok name
output_name (column name) = ok name
output_name _ = err value_error

unfoldable pub unalias : Expression → Expression
unalias (alias expression _) = expression
unalias e = e
