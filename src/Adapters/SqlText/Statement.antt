-- ===== src/Adapters/SqlText/Statement.antt =====
-- The values of a statement of `select`, src/invariantql/adapters/_shared/sqltext.py, in the order
-- of its text and in the order in which the generator binds them.
use invariantql.Prelude.{List, Option, [], none, some, ℕ, ◌++◌, ◌∷◌}
use invariantql.Adapters.SqlText.Orders.{bound_values, text_values}
use invariantql.Domain.Expressions.{Expression, alias}
use invariantql.Domain.Expressions.Literals.{LiteralValue}
use invariantql.Domain.Expressions.Substitute.{Literals}
use invariantql.Prelude.Int.{pos}

module _ (parameters : Literals) where
  abbrev pub text_projected : Expression → List LiteralValue
  text_projected (alias e name) = text_values parameters e
  text_projected e = text_values parameters e

  abbrev pub bound_projected : Expression → List LiteralValue
  bound_projected (alias e name) = bound_values parameters e
  bound_projected e = bound_values parameters e

  abbrev pub text_projection : List Expression → List LiteralValue
  text_projection [] = []
  text_projection (e ∷ es) = text_projected e ++ text_projection es

  abbrev pub bound_projection : List Expression → List LiteralValue
  bound_projection [] = []
  bound_projection (e ∷ es) = bound_projected e ++ bound_projection es

  abbrev pub limit_values : Option ℕ → List LiteralValue
  limit_values none = []
  limit_values (some n) = LiteralValue.int (pos n) ∷ []

  abbrev pub text_of_projection : Option (List Expression) → List LiteralValue
  text_of_projection none = []
  text_of_projection (some es) = text_projection es

  abbrev pub text_of_predicate : Option Expression → List LiteralValue
  text_of_predicate none = []
  text_of_predicate (some e) = text_values parameters e

  abbrev pub bound_of_projection : Option (List Expression) → List LiteralValue
  bound_of_projection none = []
  bound_of_projection (some es) = bound_projection es

  abbrev pub bound_of_predicate : Option Expression → List LiteralValue
  bound_of_predicate none = []
  bound_of_predicate (some e) = bound_values parameters e

  -- The values of a statement in the order of its text.
  abbrev pub statement_values :
      Option (List Expression) → Option Expression → Option ℕ → List LiteralValue
  statement_values projection predicate limit =
      text_of_projection projection ++ (text_of_predicate predicate ++ limit_values limit)

  -- The values of a statement in the order in which the generator binds them.
  abbrev pub statement_bound :
      Option (List Expression) → Option Expression → Option ℕ → List LiteralValue
  statement_bound projection predicate limit =
      bound_of_projection projection ++ (bound_of_predicate predicate ++ limit_values limit)
