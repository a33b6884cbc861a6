-- ===== src/Domain/Semantics.antt =====
-- src/invariantql/domain/semantics.py: the type of an expression over a schema. `str.lower`, which
-- the resolution of names uses, is a parameter.
use invariantql.Prelude.{String, none, some}
use invariantql.Domain.Diagnostics.{Outcome}
use invariantql.Domain.Expressions.{
  Expression, alias, arithmetic, column, literal, operation_value, parameter,
}
use invariantql.Domain.Schema.{Schema, resolve}
use invariantql.Domain.Types.{DataType, boolean, unknown}
use invariantql.Domain.Types.Unify.{unify}
use invariantql.Prelude.Results.{ok, ◌>>=◌}

module _ (lower : String → String) where
  -- The type of a column of the schema.
  abbrev pub column_type : Schema → String → DataType
  column_type schema name = elim (resolve lower schema name) [
    | none ↦ unknown
    | some found ↦ found.data_type
  ]

  unfoldable pub expression_type : Expression → Schema → Outcome DataType
  unfolding resolve unify
  expression_type (column name) schema = ok (column_type schema name)
  expression_type (literal value) schema = ok value.data_type
  expression_type (parameter name) schema = ok unknown
  expression_type (alias expression name) schema = expression_type expression schema
  expression_type (arithmetic op left right) schema = do
    l ← expression_type left schema
    r ← expression_type right schema
    unify l r (some (operation_value op))
  expression_type _ schema = ok boolean
