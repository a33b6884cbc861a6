-- ===== src/Adapters/MongoDb/Evaluate.antt =====
-- The evaluation in process, src/invariantql/adapters/sources/mongodb.py: three-valued, where the
-- unknown value is None. `row.get` is a function, with null for a missing key.
use Prim.Native.Char.{Char}
use invariantql.Prelude.{Bool, Option, String, false, if◌then◌else◌, none, some, true, ◌||◌}
use invariantql.Adapters.MongoDb.{like_to_regex}
use invariantql.Domain.Diagnostics.{
  Outcome, Raised, diagnostic_error, library_error, source_error, source_failure,
}
use invariantql.Domain.Expressions.{
  ComparisonOp, Expression, Expressions, and, column, comparison, cons, is_in, is_null, like,
  literal, nil, not, or,
}
use invariantql.Domain.Expressions.Literals.{LiteralValue}
use invariantql.Prelude.Results.{err, ok, ◌>>=◌}

abbrev pub Row : Type 0
Row = String → LiteralValue

-- Python's operators: `compare` is None where it raises TypeError, `equal` is `==`, `str` the text of
-- a value, `fullmatch` tells that `re.fullmatch` with DOTALL finds a match, and `escape` is
-- `re.escape`.
pub record Python : Type 0 where
  pub compare_by : ComparisonOp → LiteralValue → LiteralValue → Option Bool
  pub equal : LiteralValue → LiteralValue → Bool
  pub str : LiteralValue → String
  pub fullmatch : String → String → Bool
  pub escape : Char → String

abbrev pub is_none : LiteralValue → Bool
is_none LiteralValue.null = true
is_none _ = false

abbrev pub negate : Bool → Bool
negate b = if b then false else true

abbrev pub negate_unknown : Option Bool → Option Bool
negate_unknown none = none
negate_unknown (some b) = some (negate b)

-- The `negated` flag on a result.
abbrev pub with_flag : Bool → Bool → Bool
with_flag negated b = if negated then negate b else b

abbrev pub cannot_evaluate : Raised
cannot_evaluate = library_error source_error (diagnostic_error source_failure none none)

-- `_scalar`
unfoldable pub scalar : Expression → Row → Outcome LiteralValue
scalar (column name) row = ok (row name)
scalar (literal l) row = ok l.value
scalar _ row = err cannot_evaluate

module _ (python : Python) where
  abbrev pub compared : ComparisonOp → LiteralValue → LiteralValue → Option Bool
  compared op l r = if is_none l || is_none r then none else python.compare_by op l r

  -- The loop over the members of an In.
  unfoldable pub evaluate_in :
      Bool → LiteralValue → Bool → Expressions → Row → Outcome (Option Bool)
  unfolding scalar
  evaluate_in negated operand saw_null nil row = ok (if saw_null then none else some negated)
  evaluate_in negated operand saw_null (cons e es) row = do
    value ← scalar e row
    elim (is_none value) [
      | true ↦ evaluate_in negated operand true es row
      | false ↦ elim (python.equal operand value) [
        | true ↦ ok (some (negate negated))
        | false ↦ evaluate_in negated operand saw_null es row
      ]
    ]

  abbrev pub like_result : Bool → LiteralValue → LiteralValue → Option Bool
  like_result negated operand pattern_value =
      if is_none operand || is_none pattern_value
      then none
      else some (
          with_flag negated (
            python.fullmatch (like_to_regex python.escape (python.str pattern_value))
              (python.str operand)))

  -- `_evaluate`
  unfoldable mutual
    unfolding scalar evaluate_in

    pub evaluate : Expression → Row → Outcome (Option Bool)
    evaluate (and operands) row = evaluate_and (some true) operands row
    evaluate (or operands) row = evaluate_or (some false) operands row
    evaluate (not operand) row = do value ← evaluate operand row; ok (negate_unknown value)
    evaluate (is_null operand negated) row = do
      value ← scalar operand row
      ok (some (with_flag negated (is_none value)))
    evaluate (comparison op left right) row = do
      l ← scalar left row
      r ← scalar right row
      ok (compared op l r)
    evaluate (is_in operand members negated) row = do
      value ← scalar operand row
      elim (is_none value) [ true ↦ ok none | false ↦ evaluate_in negated value false members row ]
    evaluate (like operand pattern_expr negated) row = do
      value ← scalar operand row
      pattern_value ← scalar pattern_expr row
      ok (like_result negated value pattern_value)
    evaluate _ row = err cannot_evaluate

    -- The loops over operands, from the result so far.
    pub evaluate_and : Option Bool → Expressions → Row → Outcome (Option Bool)
    evaluate_and result nil row = ok result
    evaluate_and result (cons e es) row = do
      value ← evaluate e row
      elim value [
        | none ↦ evaluate_and none es row
        | some true ↦ evaluate_and result es row
        | some false ↦ ok (some false)
      ]

    pub evaluate_or : Option Bool → Expressions → Row → Outcome (Option Bool)
    evaluate_or result nil row = ok result
    evaluate_or result (cons e es) row = do
      value ← evaluate e row
      elim value [
        | none ↦ evaluate_or none es row
        | some true ↦ ok (some true)
        | some false ↦ evaluate_or result es row
      ]
