-- ===== src/Application/Placement.antt =====
-- src/invariantql/application/planner.py: how the planner places a filter, a projection and a limit,
-- each with its explain node and diagnostics. The texts of details are not modelled; a node's
-- rendered predicate, columns or count is kept as the value.
use mathlib.Core.Option
use invariantql.Prelude.{
  Bool, List, Option, String, [], all, any, false, if◌then◌else◌, is_empty, is_some, none, not,
  some, true, ℕ, ◌&&◌, ◌++◌, ◌∷◌,
}
use invariantql.Domain.Capabilities.{
  EngineCapabilities, PushdownCapabilities, Support, engine_supports, full, scan_supports,
}
use invariantql.Domain.Diagnostics.{
  Diagnostic, DiagnosticCode, Outcome, diagnostic_error, pushdown_full, pushdown_partial,
  rejected_engine_unsupported_expression, rejected_engine_unsupported_operation,
  residual_computed_projection, residual_limit_after_residual_filter, residual_no_capability,
  residual_unsupported_expression,
}
use invariantql.Domain.Execution.{expression_list, is_column, names_eq, output_names}
use invariantql.Domain.Explain.{
  Disposition, ExecutionLocation, ExplainNode, Shown, engine, partial, pushed, rejected, residual,
  shown_columns, shown_count, shown_expressions, shown_predicate, source,
}
use invariantql.Domain.Expressions.{Expression}
use invariantql.Domain.Expressions.Walk.{and_all, conjuncts, referenced_columns}
use invariantql.Prelude.Results.{ok, ◌>>=◌}

pub record PlanningTarget : Type 0 where
  pub engine_name : String
  pub engine : EngineCapabilities
  pub scan : PushdownCapabilities
  pub reachable : Bool

-- What one pass of the loop appends and assigns.
pub record Placement (A B : Type 0) : Type 0 where
  pub node : ExplainNode
  pub diagnostics : List Diagnostic
  pub pushed : Option A
  pub residual : Option B

abbrev pub is_unsupported : Support → Bool
is_unsupported Support.none = true
is_unsupported _ = false

abbrev pub is_full : Support → Bool
is_full full = true
is_full _ = false

abbrev pub is_partial : Support → Bool
is_partial Support.partial = true
is_partial _ = false

-- The Diagnostic.error of a rejection.
abbrev pub rejection : DiagnosticCode → String → PlanningTarget → List Diagnostic
rejection code id target = diagnostic_error code (some id) (some target.engine_name) ∷ []

-- The lists of the loop over the conjuncts of a filter.
pub record Parts : Type 0 where
  pub pushed_parts : List Expression
  pub residual_parts : List Expression
  pub rejected_parts : List Expression

-- One pass of that loop.
unfoldable pub place : PlanningTarget → Parts → Expression → Parts
place target parts conjunct =
    let supported =
      not (is_unsupported target.scan.predicate) && scan_supports target.scan conjunct in
    let push = parts.pushed_parts ++ conjunct ∷ [] in
    let keep = parts.residual_parts ++ conjunct ∷ [] in
    let reject = record parts { rejected_parts = parts.rejected_parts ++ conjunct ∷ [] } in
    if supported && is_full target.scan.predicate
    then record parts { pushed_parts = push }
    else if supported && is_partial target.scan.predicate
    then (if engine_supports target.engine conjunct
        then record parts { pushed_parts = push; residual_parts = keep }
        else reject)
    else if engine_supports target.engine conjunct
    then record parts { residual_parts = keep }
    else reject

unfoldable pub split : PlanningTarget → Parts → List Expression → Parts
unfolding place
split target parts [] = parts
split target parts (c ∷ cs) = split target (place target parts c) cs

abbrev pub no_parts : Parts
no_parts = record { pushed_parts = []; residual_parts = []; rejected_parts = [] }

-- `_fmt`
abbrev pub shown : Option Expression → Option Shown
shown none = none
shown (some e) = some (shown_predicate (some e))

abbrev pub explain_node :
    String
    → String
    → Disposition
    → ExecutionLocation
    → DiagnosticCode
    → Option Shown
    → Option Shown
    → List String
    → ExplainNode
explain_node id name disposition location code pushed_text residual_text evidence = record {
  node_id = id;
  operation = name;
  disposition = disposition;
  location = location;
  reason_code = code;
  pushed = pushed_text;
  residual = residual_text;
  evidence = evidence;
}

-- The explain node and the diagnostics of a filter, from the lists that the loop filled.
unfoldable pub report_filter : PlanningTarget → String → Parts → ExplainNode × List Diagnostic
report_filter target id parts =
    let pushed_text = shown (and_all parts.pushed_parts) in
    let residual_text = shown (and_all parts.residual_parts) in
    let evidence = target.scan.evidence in
    if not (is_empty parts.rejected_parts)
    then (
      explain_node id "filter" rejected ExecutionLocation.none
          rejected_engine_unsupported_expression pushed_text residual_text target.engine.evidence,
      rejection rejected_engine_unsupported_expression id target,
    )
    else if is_empty parts.residual_parts
    then (explain_node id "filter" pushed source pushdown_full pushed_text none evidence, [])
    else if is_empty parts.pushed_parts
    then (
      explain_node id "filter" residual engine
          (if is_unsupported target.scan.predicate
            then residual_no_capability
            else residual_unsupported_expression)
          none residual_text evidence,
      [],
    )
    else (
      explain_node id "filter" partial source pushdown_partial pushed_text residual_text evidence,
      [],
    )

unfoldable pub plan_filter : PlanningTarget → String → Expression → Placement Expression Expression
unfolding split report_filter
plan_filter target id predicate =
    let parts = split target no_parts (conjuncts predicate) in
    let (node, diagnostics) = report_filter target id parts in
    record {
      node = node;
      diagnostics = diagnostics;
      pushed = and_all parts.pushed_parts;
      residual = and_all parts.residual_parts;
    }

-- The explain node of a projection that stays with the engine, and its diagnostics.
unfoldable pub report_project :
    PlanningTarget → String → List Expression → Option (List String) → ExplainNode × List Diagnostic
report_project target id es pushed_projection =
    let pushed_text = Option.map shown_columns pushed_projection in
    let residual_text = some (shown_expressions es) in
    let evidence = target.scan.evidence in
    let reject : DiagnosticCode → ExplainNode × List Diagnostic = λ code. (
      explain_node id "project" rejected ExecutionLocation.none code pushed_text residual_text
          target.engine.evidence,
      rejection code id target,
    ) in
    if not target.engine.residual_projection
    then reject rejected_engine_unsupported_operation
    else if any es (λ e. not (engine_supports target.engine e))
    then reject rejected_engine_unsupported_expression
    else if is_unsupported target.scan.projection
    then (
      explain_node id "project" residual engine residual_no_capability none residual_text evidence,
      [],
    )
    else if not (is_some pushed_projection)
    then (
      explain_node id "project" residual engine residual_computed_projection none residual_text
          evidence,
      [],
    )
    else (
      explain_node id "project" partial source
          (if is_partial target.scan.projection
            then pushdown_partial
            else residual_computed_projection)
          pushed_text residual_text evidence,
      [],
    )

-- The branches of a projection, given the columns that it needs and the names that it outputs.
unfoldable pub place_project :
    PlanningTarget
    → String
    → List Expression
    → List String
    → List String
    → Placement (List String) (List Expression)
unfolding report_project
place_project target id es needed names =
    let prunes = not (is_unsupported target.scan.projection) && not (is_empty needed) in
    let pushed_projection : Option (List String) = if prunes then some needed else none in
    let (node, diagnostics) = report_project target id es pushed_projection in
    if is_full target.scan.projection && all es is_column && names_eq needed names
    then record {
      node =
          explain_node id "project" pushed source pushdown_full (some (shown_columns names)) none
            target.scan.evidence;
      diagnostics = [];
      pushed = some names;
      residual = none;
    }
    else record {
      node = node;
      diagnostics = diagnostics;
      pushed = pushed_projection;
      residual = some es;
    }

-- A projection, after the residual predicate has been chosen.
unfoldable pub plan_project :
    PlanningTarget
    → String
    → List Expression
    → Option Expression
    → Outcome (Placement (List String) (List Expression))
unfolding place_project
plan_project target id es filters = do
  let needed = referenced_columns (es ++ expression_list filters)
  names ← output_names es
  ok (place_project target id es needed names)

-- A limit that the engine applies, or `_reject_residual_limit` where it cannot; a rejected limit
-- is placed nowhere.
unfoldable pub place_limit :
    PlanningTarget
    → String
    → ℕ
    → Option ℕ
    → Disposition
    → ExecutionLocation
    → DiagnosticCode
    → List String
    → Placement ℕ ℕ
place_limit target id n pushed_limit disposition location code evidence =
    if target.engine.residual_limit
    then record {
      node =
          explain_node id "limit" disposition location code (Option.map shown_count pushed_limit)
            (some (shown_count n)) evidence;
      diagnostics = [];
      pushed = pushed_limit;
      residual = some n;
    }
    else record {
      node =
          explain_node id "limit" rejected ExecutionLocation.none
            rejected_engine_unsupported_operation none (some (shown_count n))
            target.engine.evidence;
      diagnostics = rejection rejected_engine_unsupported_operation id target;
      pushed = none;
      residual = none;
    }

unfoldable pub plan_limit : PlanningTarget → String → ℕ → Option Expression → Placement ℕ ℕ
unfolding place_limit
plan_limit target id n filters =
    if is_some filters
    then place_limit target id n none residual engine residual_limit_after_residual_filter []
    else if is_full target.scan.limit
    then record {
      node =
          explain_node id "limit" pushed source pushdown_full (some (shown_count n)) none
            target.scan.evidence;
      diagnostics = [];
      pushed = some n;
      residual = none;
    }
    else if is_partial target.scan.limit
    then place_limit target id n (some n) partial source pushdown_partial target.scan.evidence
    else place_limit target id n none residual engine residual_no_capability target.scan.evidence
