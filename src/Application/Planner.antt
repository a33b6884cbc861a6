-- ===== src/Application/Planner.antt =====
-- src/invariantql/application/planner.py: the loop of the capability planner over the nodes of a
-- plan, and its last check.
pub mod Split
pub mod Filter
pub mod Placed
pub mod Project
pub mod Limit
pub mod Complete
pub mod Explained
pub mod Rows
use invariantql.Domain.Plan
use invariantql.Prelude.{
  Bool, List, String, [], any, false, if◌then◌else◌, is_empty, none, not, suc, true, ℕ, ◌++◌, ◌∷◌,
}
use invariantql.Application.Binding.{BoundPlan}
use invariantql.Application.Placement.{
  PlanningTarget, explain_node, plan_filter, plan_limit, plan_project, rejection,
}
use invariantql.Domain.Capabilities.{engine_to_dict, scan_to_dict}
use invariantql.Domain.Diagnostics.{
  Diagnostic, Outcome, assertion_error, pushdown_full, rejected_source_unreachable,
  staging_required,
}
use invariantql.Domain.Execution.{
  ExecutionPlan, PushedOperations, ResidualOperations, check_completeness,
}
use invariantql.Domain.Execution.Equality.{expression_eq}
use invariantql.Domain.Explain.{
  ExecutionLocation, ExplainNode, engine, is_rejected, pushed, rejected, residual, source,
}
use invariantql.Domain.Expressions.{Expression}
use invariantql.Domain.Plan.{PlanNode, QueryPlan, filter, limit, node_id, nodes, project, scan}
use invariantql.Domain.Schema.{Schema}
use invariantql.Prelude.Results.{err, ok, ◌>>=◌}

-- The variables of the loop.
pub record PlanningState : Type 0 where
  pub nodes : List ExplainNode
  pub diagnostics : List Diagnostic
  pub pushed : PushedOperations
  pub residual : ResidualOperations
  pub staging_required : Bool

abbrev pub initial_state : PlanningState
initial_state = record {
  nodes = [];
  diagnostics = [];
  pushed = record { projection = none; predicate = none; limit = none };
  residual = record { projection = none; predicate = none; limit = none };
  staging_required = false;
}

-- The explain node of the scan.
unfoldable pub plan_scan : PlanningTarget → String → PlanningState → PlanningState
plan_scan target id state =
    if target.reachable
    then record state {
      nodes =
          state.nodes
          ++ explain_node id "scan" pushed source pushdown_full none none target.scan.evidence ∷ [];
    }
    else record state {
      nodes =
          state.nodes
          ++ explain_node id "scan" rejected ExecutionLocation.none rejected_source_unreachable none
              none target.scan.evidence
            ∷ [];
      diagnostics = state.diagnostics ++ rejection staging_required id target;
      staging_required = true;
    }

-- The pass on a filter.
unfoldable pub after_filter : PlanningTarget → PlanningState → String → Expression → PlanningState
unfolding plan_filter
after_filter target state id p =
    let placed = plan_filter target id p in
    record state {
      nodes = state.nodes ++ placed.node ∷ [];
      diagnostics = state.diagnostics ++ placed.diagnostics;
      pushed = record (state.pushed) { predicate = placed.pushed };
      residual = record (state.residual) { predicate = placed.residual };
    }

-- One pass of the loop over the plan's nodes.
unfoldable pub plan_node :
    PlanningTarget → PlanningState → String → PlanNode → Outcome PlanningState
unfolding plan_scan after_filter plan_project plan_limit
plan_node target state id (scan _) = ok (plan_scan target id state)
plan_node target state id (filter _ p) = ok (after_filter target state id p)
plan_node target state id (project _ es) = do
  placed ← plan_project target id es state.residual.predicate
  ok (record state {
    nodes = state.nodes ++ placed.node ∷ [];
    diagnostics = state.diagnostics ++ placed.diagnostics;
    pushed = record (state.pushed) { projection = placed.pushed };
    residual = record (state.residual) { projection = placed.residual };
  })
plan_node target state id (limit _ n) =
    let placed = plan_limit target id n state.residual.predicate in
    ok (record state {
      nodes = state.nodes ++ placed.node ∷ [];
      diagnostics = state.diagnostics ++ placed.diagnostics;
      pushed = record (state.pushed) { limit = placed.pushed };
      residual = record (state.residual) { limit = placed.residual };
    })

-- The loop over `node_ids()`; `text` writes the index.
unfoldable pub plan_nodes :
    PlanningTarget → PlanningState → ℕ → List PlanNode → Outcome PlanningState
unfolding plan_node node_id
plan_nodes target state i [] = ok state
plan_nodes target state i (n ∷ ns) = do
  next ← plan_node target state (node_id i n) n
  plan_nodes target next (suc i) ns

-- What the code after the loop makes of the variables.
unfoldable pub finish : BoundPlan → PlanningTarget → PlanningState → ExecutionPlan
finish bound target state = record {
  plan = bound.plan;
  engine = target.engine_name;
  source = Plan.source bound.plan;
  schema = bound.schema;
  output_schema = bound.output_schema;
  pushed = state.pushed;
  residual = state.residual;
  explain = record {
    engine = target.engine_name;
    source = Plan.source bound.plan;
    nodes = state.nodes;
    executable = not (any state.nodes (λ n. is_rejected n.disposition));
    staging_required = state.staging_required;
    diagnostics = state.diagnostics;
    scan_capabilities = scan_to_dict target.scan;
    engine_capabilities = engine_to_dict target.engine;
  };
}

-- `CapabilityPlanner.plan` before its last check.
unfoldable pub draft : BoundPlan → PlanningTarget → Outcome ExecutionPlan
unfolding plan_nodes finish
draft bound target = do
  state ← plan_nodes target initial_state 0 (nodes bound.plan.root)
  ok (finish bound target state)

-- `CapabilityPlanner.plan`, which asserts that the check finds no problem.
unfoldable pub plan_query :
    (Expression → Expression → Bool) → BoundPlan → PlanningTarget → Outcome ExecutionPlan
unfolding draft
plan_query expression_eq bound target = do
  execution ← draft bound target
  problems ← check_completeness expression_eq execution
  if is_empty problems then ok execution else err assertion_error
