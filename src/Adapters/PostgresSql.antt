-- ===== src/Adapters/PostgresSql.antt =====
-- The class PostgresSqlGenerator of src/invariantql/adapters/sources/postgres.py: what it overrides of
-- the generator of SQL text. `str.lower`, which the resolution of names uses, is a parameter.
pub mod Placeholders
use Prim.Native.String
-- A number in an f-string.
use invariantql.Prelude.{
  Bool, Option, String, [], eqb, false, if◌then◌else◌, none, some, suc, ℕ, ◌++◌, ◌||◌, ◌∷◌,
}
use invariantql.Adapters.SqlText.{Pieces, SqlDialect, word}
use invariantql.Adapters.SqlText.Generator.{Overrides, cast, in_parens, infix_pieces, negation}
use invariantql.Domain.Diagnostics.{Outcome, int_key_error, type_error}
use invariantql.Domain.Expressions.{Expression, arithmetic, like, operation_value}
use invariantql.Domain.Expressions.Substitute.{Literals, substitute_parameters}
use invariantql.Domain.Plan.{decimal_digits}
use invariantql.Domain.Schema.{Schema}
use invariantql.Domain.Semantics.{expression_type}
use invariantql.Domain.Types.{DataType, decimal, float, integer}
use invariantql.Domain.Types.Unify.{Operation, div}
use invariantql.Prelude.Results.{err, ok, ◌>>=◌}

abbrev pub number_text : ℕ → String
number_text n = decimal_digits (suc n) n

abbrev pub numeric_text : ℕ → ℕ → String
numeric_text precision scale =
    String.◌++◌ "NUMERIC("
      (String.◌++◌ (number_text precision) (String.◌++◌ "," (String.◌++◌ (number_text scale) ")")))

-- `_postgres_numeric_type`
unfoldable pub postgres_numeric_type : DataType → Outcome (Option String)
unfolding decimal_digits
postgres_numeric_type (integer bits) =
    if eqb bits 8 || eqb bits 16
    then ok (some "SMALLINT")
    else if eqb bits 32
    then ok (some "INTEGER")
    else if eqb bits 64
    then ok (some "BIGINT")
    else err (int_key_error bits)
postgres_numeric_type (float bits) = ok (some (if eqb bits 32 then "REAL" else "DOUBLE PRECISION"))
postgres_numeric_type (decimal precision scale) = ok (some (numeric_text precision scale))
postgres_numeric_type _ = ok none

-- `_decimal_scale`
abbrev pub decimal_scale : DataType → ℕ
decimal_scale (decimal precision scale) = scale
decimal_scale _ = 0

-- The types of the two casts.
abbrev pub cast_targets : DataType → DataType → DataType → String → String × String
cast_targets (decimal precision scale) left_type right_type target = (
  numeric_text precision (decimal_scale left_type),
  numeric_text precision (decimal_scale right_type),
)
cast_targets _ left_type right_type target = (target, target)

-- The division, with NULL for a zero denominator.
abbrev pub division_pieces : Pieces → Pieces → Pieces
division_pieces left right = in_parens (
    cast left "DOUBLE PRECISION"
    ++ (word " / " ∷ word "NULLIF(" ∷ (cast right "DOUBLE PRECISION" ++ word ", 0.0)" ∷ [])))

abbrev pub typed_pieces : Operation → String × String → String → Pieces → Pieces → Pieces
typed_pieces op (left_target, right_target) target left right =
    cast (infix_pieces (cast left left_target) (operation_value op) (cast right right_target))
      target

abbrev pub numeric_pieces :
    Operation → DataType → DataType → DataType → Pieces → Pieces → Option String → Pieces
numeric_pieces op left_type right_type result_type left right none =
    infix_pieces left (operation_value op) right
numeric_pieces op left_type right_type result_type left right (some target) =
    typed_pieces op (cast_targets result_type left_type right_type target) target left right

module _ (lower : String → String) (schema : Schema) (parameters : Literals) where
  abbrev pub typed_arithmetic :
      Operation → DataType → DataType → DataType → Pieces → Pieces → Outcome Pieces
  typed_arithmetic div left_type right_type result_type left right = ok (division_pieces left right)
  typed_arithmetic op left_type right_type result_type left right = do
    target ← postgres_numeric_type result_type
    ok (numeric_pieces op left_type right_type result_type left right target)

  abbrev pub arithmetic_sides : Expression → Outcome (Expression × Expression)
  arithmetic_sides (arithmetic op left right) = ok (left, right)
  arithmetic_sides _ = err type_error

  -- `_arithmetic`, from the two rendered sides.
  unfoldable pub postgres_arithmetic :
      Operation → Expression → Expression → Pieces → Pieces → Outcome Pieces
  unfolding substitute_parameters expression_type postgres_numeric_type
  postgres_arithmetic op l r left right = do
    typed ← substitute_parameters (arithmetic op l r) parameters
    sides ← arithmetic_sides typed
    left_type ← expression_type lower sides.0 schema
    right_type ← expression_type lower sides.1 schema
    result_type ← expression_type lower typed schema
    typed_arithmetic op left_type right_type result_type left right

  -- The LIKE of `expression`, without an escape character.
  abbrev pub postgres_like : SqlDialect → Bool → Pieces → Pieces → Pieces
  postgres_like dialect negated operand pattern_pieces = in_parens (
      operand
      ++ (word " "
          ∷ word (negation negated)
          ∷ word dialect.like_operator
          ∷ word " "
          ∷ (pattern_pieces ++ word " ESCAPE ''" ∷ [])))

  unfoldable pub postgres : SqlDialect → Overrides
  unfolding postgres_arithmetic
  postgres dialect = record { like = postgres_like dialect; arithmetic = postgres_arithmetic }

-- The dialect POSTGRES.
abbrev pub postgres_dialect : SqlDialect
postgres_dialect = record {
  numbered = false;
  placeholder = "%s";
  like_operator = "LIKE";
  division_cast = some "DOUBLE PRECISION";
  limit_keyword = "LIMIT";
  identifier_quote = "\"";
}
