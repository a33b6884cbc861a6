-- ===== src/Application/Binding.antt =====
-- src/invariantql/application/binding.py: the validation of a plan against a schema. The class
-- _Binder is its two attributes; `str.lower`, which the resolution of names uses, is a parameter.
pub mod Columns
pub mod Bound
pub mod Portable
use invariantql.Prelude.{
  Bool, List, Option, String, [], contains, false, if◌then◌else◌, is_empty, lookup, map, none, some,
  suc, true, ℕ, ◌==◌, ◌||◌, ◌∷◌,
}
use invariantql.Domain.Diagnostics.{
  DiagnosticCode, Outcome, Raised, diagnostic_error, library_error, plan_invalid_shape,
  plan_type_mismatch, plan_unknown_column, plan_validation_error, value_error,
}
use invariantql.Domain.Expressions.{
  Expression, Expressions, alias, and, arithmetic, column, comparison, cons, is_in, is_null, like,
  literal, make_alias, make_and, make_column, make_in, make_like, make_or, nil, not, or, parameter,
}
use invariantql.Domain.Expressions.Literals.{Literal, LiteralValue}
use invariantql.Domain.Expressions.Substitute.{Literals, substitute_parameters}
use invariantql.Domain.Expressions.Walk.{output_name, unalias}
use invariantql.Domain.Plan.{
  PlanNode, QueryPlan, given, limit_count, limit_plan, node_id, nodes, operation, predicate,
  projection, scan_plan, select_plan, source, where_plan,
}
use invariantql.Domain.Plan.Canonical.{projected}
use invariantql.Domain.Schema.{Field, Schema, make_field, make_schema, resolve}
use invariantql.Domain.Semantics.{expression_type}
use invariantql.Domain.Types.{
  DataType, is_comparable, is_numeric, is_open, is_portable_type, kind, normalise_portable_type,
}
use invariantql.Prelude.Int.{pos}
use invariantql.Prelude.Results.{err, guard, ok, traverse, ◌>>=◌, ◌>>◌}

pub record BoundPlan : Type 0 where
  pub plan : QueryPlan
  pub schema : Schema
  pub output_schema : Schema

abbrev pub invalid_plan : DiagnosticCode → String → Raised
invalid_plan c node = library_error plan_validation_error (diagnostic_error c (some node) none)

-- `require_portable_type`
abbrev pub require_portable_type : DataType → String → Outcome (Unit {0})
require_portable_type t node = guard (is_portable_type t) (invalid_plan plan_type_mismatch node)

-- `kind in (name, "unknown", "null")`
abbrev pub is_or_open : String → DataType → Bool
is_or_open name t = kind t == name || is_open t

module _ (lower : String → String) (schema : Schema) (parameters : Literals) where
  -- `type_of`
  unfoldable pub type_of : Expression → Outcome DataType
  unfolding expression_type substitute_parameters
  type_of e =
      if is_empty parameters
      then expression_type lower e schema
      else substitute_parameters e parameters >>= λ s. expression_type lower s schema

  -- `nullable_of`
  unfoldable pub nullable_of : Expression → Bool
  unfolding resolve
  nullable_of (column name) = elim (resolve lower schema name) [
    | none ↦ true
    | some found ↦ found.nullable
  ]
  nullable_of (literal l) = elim l.value [ LiteralValue.null ↦ true | _ ↦ false ]
  nullable_of (arithmetic op left right) = nullable_of left || nullable_of right
  nullable_of _ = true

  unfoldable pub check_comparable : Expression → Expression → String → Outcome (Unit {0})
  unfolding type_of is_comparable
  check_comparable left right node = do
    l ← type_of left
    r ← type_of right
    guard (is_comparable l r) (invalid_plan plan_type_mismatch node)

  -- The type is the named one or not known.
  unfoldable pub check_kind : String → Expression → String → Outcome (Unit {0})
  unfolding type_of
  check_kind name e node = do
    t ← type_of e
    guard (is_or_open name t) (invalid_plan plan_type_mismatch node)

  -- `_check_boolean` on every operand.
  unfoldable pub check_booleans : Expressions → String → Outcome (Unit {0})
  unfolding check_kind
  check_booleans nil node = ok tt
  check_booleans (cons e es) node = check_kind "boolean" e node >> check_booleans es node

  unfoldable pub check_members : Expression → Expressions → String → Outcome (Unit {0})
  unfolding check_comparable
  check_members operand nil node = ok tt
  check_members operand (cons e es) node =
      check_comparable operand e node >> check_members operand es node

  -- One side of an arithmetic expression.
  unfoldable pub check_numeric : Expression → String → Outcome (Unit {0})
  unfolding type_of
  check_numeric e node = do
    t ← type_of e
    guard (is_open t || is_numeric t) (invalid_plan plan_type_mismatch node)

  -- `type_of`, where a ValueError is told as an invalid plan.
  abbrev pub ranged : String → Outcome DataType → Outcome (Unit {0})
  ranged node (ok t) = ok tt
  ranged node (err value_error) = err (invalid_plan plan_type_mismatch node)
  ranged node (err e) = err e

  abbrev pub bind_column : String → Option Field → Outcome Expression
  bind_column node none = err (invalid_plan plan_unknown_column node)
  bind_column node (some found) =
      require_portable_type found.data_type node >> make_column found.name

  abbrev pub check_parameter : String → Option Literal → Outcome (Unit {0})
  check_parameter node none = ok tt
  check_parameter node (some l) = require_portable_type l.data_type node

  unfoldable mutual
    unfolding resolve make_column make_and make_or make_in make_like make_alias check_comparable
        check_kind check_booleans check_members check_numeric type_of

    -- The method `bind`; the flag is `allow_alias`.
    pub bind : Expression → String → Bool → Outcome Expression
    bind (column name) node allow_alias = bind_column node (resolve lower schema name)
    bind (literal l) node allow_alias = require_portable_type l.data_type node >> ok (literal l)
    bind (parameter name) node allow_alias =
        check_parameter node (lookup name parameters) >> ok (parameter name)
    bind (alias e name) node false = err (invalid_plan plan_invalid_shape node)
    bind (alias e name) node true = do bound ← bind e node false; make_alias bound name
    bind (comparison op left right) node allow_alias = do
      l ← bind left node false
      r ← bind right node false
      check_comparable l r node >> ok (comparison op l r)
    bind (and operands) node allow_alias = do
      os ← bind_each operands node
      check_booleans os node >> make_and os
    bind (or operands) node allow_alias = do
      os ← bind_each operands node
      check_booleans os node >> make_or os
    bind (not operand) node allow_alias = do
      o ← bind operand node false
      check_kind "boolean" o node >> ok (not o)
    bind (is_null operand negated) node allow_alias = do
      o ← bind operand node false
      ok (is_null o negated)
    bind (is_in operand members negated) node allow_alias = do
      o ← bind operand node false
      ms ← bind_each members node
      check_members o ms node >> make_in o ms negated
    bind (like operand pattern_expr negated) node allow_alias = do
      o ← bind operand node false
      _ ← check_kind "string" o node
      p ← bind pattern_expr node false
      check_kind "string" p node >> make_like o p negated
    bind (arithmetic op left right) node allow_alias = do
      l ← bind left node false
      r ← bind right node false
      _ ← check_numeric l node
      _ ← check_numeric r node
      ranged node (type_of (arithmetic op l r)) >> ok (arithmetic op l r)

    -- The tuple comprehensions.
    pub bind_each : Expressions → String → Outcome Expressions
    bind_each nil node = ok nil
    bind_each (cons e es) node = do b ← bind e node false; bs ← bind_each es node; ok (cons b bs)

  -- The loop over the projection, with the set of output names.
  unfoldable pub bind_outputs :
      List String → List Expression → String → Outcome (List Expression × List Field)
  unfolding bind output_name unalias make_field normalise_portable_type type_of
  bind_outputs seen [] node = ok ([], [])
  bind_outputs seen (e ∷ es) node = do
    bound ← bind e node true
    name ← output_name bound
    _ ← guard (if contains name seen then false else true) (invalid_plan plan_invalid_shape node)
    t ← type_of (unalias bound)
    f ← make_field name (normalise_portable_type t) true
    rest ← bind_outputs (name ∷ seen) es node
    ok (bound ∷ rest.0, f ∷ rest.1)

  -- The output fields without a projection.
  abbrev pub schema_outputs : Outcome (List Field)
  schema_outputs =
      traverse (λ (f : Field). make_field f.name (normalise_portable_type f.data_type) true)
        schema.fields

  abbrev pub require_portable : List Field → String → Outcome (Unit {0})
  require_portable [] node = ok tt
  require_portable (f ∷ fs) node =
      require_portable_type f.data_type node >> require_portable fs node

  abbrev pub bind_predicate : Option Expression → String → Outcome (Option Expression)
  bind_predicate none node = ok none
  bind_predicate (some p) node = do
    bound ← bind p node false
    check_kind "boolean" bound node >> ok (some bound)

  -- The parts of the result: the projection and the output fields.
  abbrev pub bind_projection :
      Option (List Expression) → String → String → Outcome (Option (List Expression) × List Field)
  bind_projection none project_node scan_node = do
    fields ← schema_outputs
    require_portable fields scan_node >> ok (none, fields)
  bind_projection (some es) project_node scan_node = do
    outputs ← bind_outputs [] es project_node
    require_portable outputs.1 project_node >> ok (some outputs.0, outputs.1)

-- `node_ids[operation]`
abbrev pub id_of : String → ℕ → List PlanNode → String
id_of name index [] = ""
id_of name index (n ∷ ns) =
    if operation n == name then node_id index n else id_of name (suc index) ns

abbrev pub with_predicate : Option Expression → QueryPlan → Outcome QueryPlan
with_predicate none plan = ok plan
with_predicate (some p) plan = where_plan plan p

abbrev pub with_projection : Option (List Expression) → QueryPlan → Outcome QueryPlan
with_projection none plan = ok plan
with_projection (some es) plan = select_plan plan (map given es)

abbrev pub with_limit : Option ℕ → QueryPlan → Outcome QueryPlan
with_limit none plan = ok plan
with_limit (some n) plan = limit_plan plan (pos n)

unfoldable pub bind_plan : (String → String) → QueryPlan → Schema → Literals → Outcome BoundPlan
unfolding bind bind_outputs make_schema nodes node_id source predicate projection limit_count
    scan_plan where_plan select_plan limit_plan
bind_plan lower plan schema parameters = do
  bound ←
      bind_predicate lower schema parameters (predicate plan) (id_of "filter" 0 (nodes plan.root))
  outputs ←
      bind_projection lower schema parameters (projection plan)
        (id_of "project" 0 (nodes plan.root)) (id_of "scan" 0 (nodes plan.root))
  scanned ← scan_plan (source plan)
  filtered ← with_predicate bound scanned
  projected ← with_projection outputs.0 filtered
  rebuilt ← with_limit (limit_count plan) projected
  output_schema ← make_schema outputs.1
  ok (record { plan = rebuilt; schema = schema; output_schema = output_schema })
